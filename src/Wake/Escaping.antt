-- ===== src/Wake/Escaping.antt =====
-- internal/agent/nudger.go, nudgeTerminal: the text inside the script.
use a2abridge.Prelude.{
  ◌==◌, if◌then◌else◌, ==_iff, Bool-cases, Text, codes, ℕ, ◌≡◌, refl, sym, ap, ◌∙◌, inl, inr, Bool,
  true, false, ◌||◌, Option, none, some, [], ◌∷◌, ◌++◌, map, append_assoc,
}
use a2abridge.Wake.Nudger.{replace_rune, escape}

abbrev attach : ℕ → Option (Text × Text) → Option (Text × Text)
attach c none = none
attach c (some (t, rest)) = some (c ∷ t, rest)

-- A string literal of AppleScript from behind its opening quote on: what it reads as, and what stands
-- behind its closing quote. The flag says that a backslash was read, which may stand before a
-- backslash and a quote.
pub read_literal : Bool → Text → Option (Text × Text)
read_literal escaped [] = none
read_literal true (c ∷ s) =
    let rest = attach c (read_literal false s) in if c == 0x5c || c == 0x22 then rest else none
read_literal false (c ∷ s) =
    let rest = read_literal false s in
    let escaped = read_literal true s in
    if c == 0x22 then some ([], s) else if c == 0x5c then escaped else attach c rest

-- A line break is typed as a space.
abbrev pub one_rune : ℕ → ℕ
one_rune c = if c == b'\r' || c == b'\n' then b' ' else c

replace-append :
    (c : ℕ) (new s t : Text)
    → replace_rune c new (s ++ t) ≡ replace_rune c new s ++ replace_rune c new t
unfolding replace_rune
replace-append c new [] t = refl
replace-append c new (d ∷ s) t = elim (Bool-cases (d == c)) [
  | inl e ↦ rw e (ap (λ u. new ++ u) (replace-append c new s t) ∙ sym (append_assoc new _ _))
  | inr e ↦ rw e (ap (λ u. d ∷ u) (replace-append c new s t))
]

escape-append : (s t : Text) → escape (s ++ t) ≡ escape s ++ escape t
unfolding escape
escape-append s t =
    let slashes = replace_rune 0x5c (0x5c ∷ 0x5c ∷ []) in
    let quotes = λ (u : Text). replace_rune 0x22 (0x5c ∷ 0x22 ∷ []) (slashes u) in
    let returns = λ (u : Text). replace_rune b'\r' (codes " ") (quotes u) in
    ap
      (λ u.
        replace_rune b'\n' (codes " ")
          (replace_rune b'\r' (codes " ") (replace_rune 0x22 (0x5c ∷ 0x22 ∷ []) u)))
      (replace-append 0x5c (0x5c ∷ 0x5c ∷ []) s t)
    ∙ ap (λ u. replace_rune b'\n' (codes " ") (replace_rune b'\r' (codes " ") u))
        (replace-append 0x22 (0x5c ∷ 0x22 ∷ []) (slashes s) (slashes t))
    ∙ ap (replace_rune b'\n' (codes " ")) (replace-append b'\r' (codes " ") (quotes s) (quotes t))
    ∙ replace-append b'\n' (codes " ") (returns s) (returns t)

-- What one rune of the text does to the literal.
RuneReads : ℕ → Type 0
RuneReads c =
    (s : Text)
    → read_literal false (escape (c ∷ []) ++ s) ≡ attach (one_rune c) (read_literal false s)

read-plain :
    (c : ℕ)
    → (c == 0x5c) ≡ false
    → (c == 0x22) ≡ false
    → (c == b'\r') ≡ false
    → (c == b'\n') ≡ false
    → RuneReads c
unfolding RuneReads escape replace_rune read_literal
read-plain c e1 e2 e3 e4 s = simp (e1, e2, e3, e4) refl

read-slash : RuneReads 0x5c
unfolding RuneReads escape replace_rune read_literal
read-slash s = refl

read-quote : RuneReads 0x22
unfolding RuneReads escape replace_rune read_literal
read-quote s = refl

read-return : RuneReads b'\r'
unfolding RuneReads escape replace_rune read_literal
read-return s = refl

read-feed : RuneReads b'\n'
unfolding RuneReads escape replace_rune read_literal
read-feed s = refl

-- A rune that a test finds is the rune that the test names.
found : (P : ℕ → Type 0) (c d : ℕ) → P d → (c == d) ≡ true → P c
found P c d h e = rw ((==_iff c d).0 e) h

read-rune : (c : ℕ) → RuneReads c
read-rune c = elim (Bool-cases (c == 0x5c)) [
  | inl e ↦ found RuneReads c 0x5c read-slash e
  | inr e1 ↦ elim (Bool-cases (c == 0x22)) [
    | inl e ↦ found RuneReads c 0x22 read-quote e
    | inr e2 ↦ elim (Bool-cases (c == b'\r')) [
      | inl e ↦ found RuneReads c b'\r' read-return e
      | inr e3 ↦ elim (Bool-cases (c == b'\n')) [
        | inl e ↦ found RuneReads c b'\n' read-feed e
        | inr e4 ↦ read-plain c e1 e2 e3 e4
      ]
    ]
  ]
]

-- The text that the nudger types cannot leave its place in the script: the literal that the script
-- has for it ends exactly at the script's own closing quote, and reads as the text with its line
-- breaks turned into spaces.
pub read-escape :
    (text rest : Text)
    → read_literal false (escape text ++ 0x22 ∷ rest) ≡ some (map one_rune text, rest)
unfolding RuneReads read_literal
read-escape [] rest = unfold escape replace_rune in refl
read-escape (c ∷ text) rest =
    ap (λ u. read_literal false (u ++ 0x22 ∷ rest)) (escape-append (c ∷ []) text)
    ∙ ap (read_literal false) (append_assoc (escape (c ∷ [])) (escape text) (0x22 ∷ rest))
    ∙ read-rune c (escape text ++ 0x22 ∷ rest)
    ∙ ap (attach (one_rune c)) (read-escape text rest)
