-- ===== src/Security/Masking.antt =====
-- internal/security/pii.go: what the screen's result tells of the secrets in a text.
use a2abridge.Prelude.{
  suc, if◌then◌else◌, length, any, All, Text, text_eq, codes, ◌≡◌, refl, sym, ap, ◌∙◌, ◌≢◌, List,
  [], ◌∷◌, ◌++◌, arith,
}
use a2abridge.Numbers.{itoa}
use a2abridge.Strings.Words.{join}
use a2abridge.Security.Screen.{
  Piece, plain, hit, concat_pieces, Pattern, Match, IsPattern, redaction, replace_pieces,
  replace_all, screen_by, screen, pattern_names, format_matches,
}

-- The same stretches between matches, and any matches.
abbrev pub Alike : List Piece → List Piece → Type 0
Alike [] [] = Unit
Alike (plain s ∷ k) (plain t ∷ l) = (s ≡ t) × Alike k l
Alike (hit s ∷ k) (hit t ∷ l) = Alike k l
Alike _ _ = ⊥

abbrev pub match_names : List Match → List Text
match_names [] = []
match_names (m ∷ ms) = m.pattern_name ∷ match_names ms

-- Two texts that differ only in secrets, whatever the secrets are and however long: some pattern
-- finds the texts the same around its matches, and each pattern before it has as many matches in the
-- one as in the other.
pub data Masked : List Pattern → Text → Text → Type 0 where
  equal : (ps : List Pattern) (s : Text) → Masked ps s s
  hidden :
      (p : Pattern) (ps : List Pattern) (s t : Text)
      → Alike (p.pieces s) (p.pieces t)
      → Masked (p ∷ ps) s t
  later :
      (p : Pattern) (ps : List Pattern) (s t : Text)
      → match_names (replace_all p s).1 ≡ match_names (replace_all p t).1
      → Masked ps (replace_all p s).0 (replace_all p t).0
      → Masked (p ∷ ps) s t

-- Results with the same text, and matches of the same patterns in the same order.
abbrev pub SameScreened : Text × List Match → Text × List Match → Type 0
SameScreened a b = (a.0 ≡ b.0) × (match_names a.1 ≡ match_names b.1)

match_names-append : (k l : List Match) → match_names (k ++ l) ≡ match_names k ++ match_names l
match_names-append [] l = refl
match_names-append (m ∷ k) l = ap (λ x. m.pattern_name ∷ x) (match_names-append k l)

match_names-both :
    (k l m n : List Match)
    → match_names k ≡ match_names l
    → match_names m ≡ match_names n
    → match_names (k ++ m) ≡ match_names (l ++ n)
match_names-both k l m n e f =
    match_names-append k m
    ∙ ap (λ x. x ++ match_names m) e
    ∙ ap (λ x. match_names l ++ x) f
    ∙ sym (match_names-append l n)

replace-Alike :
    (name : Text) (k l : List Piece)
    → Alike k l
    → SameScreened (replace_pieces name k) (replace_pieces name l)
unfolding replace_pieces
replace-Alike name [] [] h = (refl, refl)
replace-Alike name [] (x ∷ l) h = absurd h
replace-Alike name (plain s ∷ k) [] h = absurd h
replace-Alike name (hit s ∷ k) [] h = absurd h
replace-Alike name (plain s ∷ k) (hit t ∷ l) h = absurd h
replace-Alike name (hit s ∷ k) (plain t ∷ l) h = absurd h
replace-Alike name (plain s ∷ k) (plain t ∷ l) h =
    let (out, names) = replace-Alike name k l h.1 in
    (ap (λ u. u ++ (replace_pieces name k).0) h.0 ∙ ap (λ u. t ++ u) out, names)
replace-Alike name (hit s ∷ k) (hit t ∷ l) h =
    let (out, names) = replace-Alike name k l h in
    (ap (λ u. redaction name ++ u) out, ap (λ n. name ∷ n) names)

screen_by-Masked :
    (ps : List Pattern) (s t : Text)
    → Masked ps s t
    → SameScreened (screen_by ps s) (screen_by ps t)
unfolding screen_by
screen_by-Masked _ _ _ (equal ps s) = (refl, refl)
screen_by-Masked _ _ _ (hidden p ps s t h) =
    let (out, names) = replace-Alike p.name (p.pieces s) (p.pieces t) h in
    (
      ap (λ u. (screen_by ps u).0) out,
      match_names-both (replace_all p s).1 (replace_all p t).1 (screen_by ps (replace_all p s).0).1
          (screen_by ps (replace_all p t).0).1 names (ap (λ u. match_names (screen_by ps u).1) out),
    )
screen_by-Masked _ _ _ (later p ps s t e h) =
    let (out, names) = screen_by-Masked ps (replace_all p s).0 (replace_all p t).0 h in
    (
      out,
      match_names-both (replace_all p s).1 (replace_all p t).1 (screen_by ps (replace_all p s).0).1
          (screen_by ps (replace_all p t).0).1 e names,
    )

pub screen-Masked :
    (ps : List Pattern) (s t : Text)
    → s ≢ []
    → t ≢ []
    → Masked ps s t
    → SameScreened (screen ps s) (screen ps t)
unfolding screen
screen-Masked ps [] t g h m = absurd (g refl)
screen-Masked ps (c ∷ s) [] g h m = absurd (h refl)
screen-Masked ps (c ∷ s) (d ∷ t) g h m = screen_by-Masked ps (c ∷ s) (d ∷ t) m

pattern_names_same :
    (seen : List Text) (k l : List Match)
    → match_names k ≡ match_names l
    → pattern_names seen k ≡ pattern_names seen l
unfolding pattern_names
pattern_names_same seen [] [] e = refl
pattern_names_same seen [] (m ∷ l) e = absurd (grind arith)
pattern_names_same seen (m ∷ k) [] e = absurd (grind arith)
pattern_names_same seen (m ∷ k) (n ∷ l) e =
    let head : m.pattern_name ≡ n.pattern_name = grind arith in
    let tail : match_names k ≡ match_names l = grind arith in
    ap
      (λ x.
        if any (λ j. text_eq j x) seen
        then pattern_names seen k
        else x ∷ pattern_names (x ∷ seen) k)
      head
    ∙ ap
        (λ x.
          if any (λ j. text_eq j n.pattern_name) seen
          then x
          else n.pattern_name ∷ pattern_names (n.pattern_name ∷ seen) k)
        (pattern_names_same seen k l tail)
    ∙ ap
        (λ x.
          if any (λ j. text_eq j n.pattern_name) seen
          then pattern_names seen l
          else n.pattern_name ∷ x)
        (pattern_names_same (n.pattern_name ∷ seen) k l tail)

length_same : (k l : List Match) → match_names k ≡ match_names l → length k ≡ length l
length_same [] [] e = refl
length_same [] (m ∷ l) e = absurd (grind arith)
length_same (m ∷ k) [] e = absurd (grind arith)
length_same (m ∷ k) (n ∷ l) e = ap suc (length_same k l (grind arith))

-- The summary of the matches names their patterns and tells no more of them than their number.
pub format_matches_same :
    (k l : List Match) → match_names k ≡ match_names l → format_matches k ≡ format_matches l
unfolding format_matches
format_matches_same [] [] e = refl
format_matches_same [] (m ∷ l) e = absurd (grind arith)
format_matches_same (m ∷ k) [] e = absurd (grind arith)
format_matches_same (m ∷ k) (n ∷ l) e =
    ap
      (λ x.
        codes "redacted "
        ++ (itoa x ++ (codes " secret(s): " ++ join (codes ", ") (pattern_names [] (m ∷ k)))))
      (length_same (m ∷ k) (n ∷ l) e)
    ∙ ap
        (λ x.
          codes "redacted "
          ++ (itoa (length (n ∷ l)) ++ (codes " secret(s): " ++ join (codes ", ") x)))
        (pattern_names_same [] (m ∷ k) (n ∷ l) e)

-- A pattern without a match leaves the text.
replace_none :
    (name : Text) (l : List Piece)
    → (replace_pieces name l).1 ≡ []
    → (replace_pieces name l).0 ≡ concat_pieces l
unfolding replace_pieces
replace_none name [] h = refl
replace_none name (plain t ∷ l) h = ap (λ u. t ++ u) (replace_none name l h)
replace_none name (hit t ∷ l) h = absurd (grind arith)

append_nil_left : {A : Type 0} (k l : List A) → k ++ l ≡ [] → k ≡ []
append_nil_left [] l h = refl
append_nil_left (x ∷ k) l h = absurd (grind arith)

screen_by-none :
    (ps : List Pattern) (s : Text)
    → All IsPattern ps
    → (screen_by ps s).1 ≡ []
    → (screen_by ps s).0 ≡ s
unfolding screen_by
screen_by-none [] s h e = refl
screen_by-none (p ∷ ps) s h e =
    let first = append_nil_left (replace_all p s).1 (screen_by ps (replace_all p s).0).1 e in
    screen_by-none ps (replace_all p s).0 h.1
      (ap (λ m. m ++ (screen_by ps (replace_all p s).0).1) (sym first) ∙ e)
    ∙ replace_none p.name (p.pieces s) first
    ∙ h.0 s

pub screen-none :
    (ps : List Pattern) (s : Text) → All IsPattern ps → (screen ps s).1 ≡ [] → (screen ps s).0 ≡ s
unfolding screen
screen-none ps [] h e = refl
screen-none ps (c ∷ s) h e = screen_by-none ps (c ∷ s) h e
