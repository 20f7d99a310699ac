-- ===== src/Update/Checksums.antt =====
-- internal/cli/update.go, findChecksum: a checksum file against the table that it prints.
use a2abridge.Update.Verify.{line_checksum, first_checksum, find_checksum}
use a2abridge.Prelude.{
  ◌==◌, if◌then◌else◌, All, Text, codes, text_eq, ℕ, ◌≡◌, refl, sym, ap, ◌∙◌, ◌≢◌, Bool, true,
  false, Option, none, some, List, [], ◌∷◌, ◌++◌, append-nil, arith,
}
use a2abridge.Strings.{has_prefix, is_space, split}
use a2abridge.Strings.Words.{trim_prefix, at_gap, attach, fields}

-- A text without spaces that is not empty.
abbrev pub IsWord : Text → Type 0
IsWord t = (t ≢ []) × All (λ c. is_space c ≡ false) t

-- A line of the file: the digest, whether the name has the star of the binary mode, and the name.
pub record Line : Type 0 where
  pub digest : Text
  pub binary : Bool
  pub name : Text

abbrev pub IsLine : Line → Type 0
IsLine l = IsWord l.digest × IsWord l.name × (has_prefix l.name (codes "*") ≡ false)

abbrev pub field_of : Bool → Text → Text
field_of true name = codes "*" ++ name
field_of false name = name

abbrev pub print_line : Line → Text
print_line l = l.digest ++ (codes "  " ++ field_of l.binary l.name)

-- The file: its lines, each with its line feed.
abbrev pub print_sums : List Line → Text
print_sums [] = []
print_sums (l ∷ ls) = print_line l ++ b'\n' ∷ print_sums ls

-- The digest of the first line for a name.
abbrev pub digest_of : Text → List Line → Option Text
digest_of name [] = none
digest_of name (l ∷ ls) = if text_eq l.name name then some l.digest else digest_of name ls

fields-inside :
    (c d : ℕ) (s : Text)
    → is_space c ≡ false
    → is_space d ≡ false
    → fields (c ∷ d ∷ s) ≡ attach c (fields (d ∷ s))
unfolding fields
fields-inside c d s h k = rw (h, k)

fields_word : (t s : Text) → IsWord t → at_gap s ≡ true → fields (t ++ s) ≡ t ∷ fields s
unfolding fields
fields_word [] s w g = absurd (w.0 refl)
fields_word (c ∷ []) s w g = rw (w.1.0, g)
fields_word (c ∷ d ∷ t) s w g =
    fields-inside c d (t ++ s) w.1.0 w.1.1.0
    ∙ ap (attach c) (fields_word (d ∷ t) s ((λ e. cc), w.1.1) g)

fields_space : (s : Text) → fields (b' ' ∷ s) ≡ fields s
unfolding fields is_space
fields_space s = refl

field_of-IsWord : (b : Bool) (name : Text) → IsWord name → IsWord (field_of b name)
unfolding is_space
field_of-IsWord true name w = ((λ e. cc), (refl, w.1))
field_of-IsWord false name w = w

trim-field_of :
    (b : Bool) (name : Text)
    → has_prefix name (codes "*") ≡ false
    → trim_prefix (field_of b name) (codes "*") ≡ name
unfolding trim_prefix has_prefix
trim-field_of true name h = refl
trim-field_of false [] h = refl
trim-field_of false (c ∷ name) h = ground (arith, h)

fields-line :
    (digest name : Text)
    → IsWord digest
    → IsWord name
    → fields (digest ++ (codes "  " ++ name)) ≡ digest ∷ name ∷ []
fields-line digest name d n =
    fields_word digest (codes "  " ++ name) d (unfold is_space in refl)
    ∙ ap (◌∷◌ digest) (
        fields_space (b' ' ∷ name)
        ∙ fields_space name
        ∙ ap fields (sym (append-nil name))
        ∙ fields_word name [] n refl
        ∙ unfold fields in refl)

abbrev NoFeed : Text → Type 0
NoFeed t = All (λ c. (c == b'\n') ≡ false) t

NoFeed-append : (s t : Text) → NoFeed s → NoFeed t → NoFeed (s ++ t)
NoFeed-append [] t h k = k
NoFeed-append (c ∷ s) t h k = (h.0, NoFeed-append s t h.1 k)

word-NoFeed : (t : Text) → All (λ c. is_space c ≡ false) t → NoFeed t
unfolding is_space
word-NoFeed [] h = tt
word-NoFeed (c ∷ t) h = (ground (arith, h.0), word-NoFeed t h.1)

split_line :
    (t s : Text)
    → All (λ c. (c == b'\n') ≡ false) t
    → split b'\n' (t ++ b'\n' ∷ s) ≡ t ∷ split b'\n' s
unfolding split
split_line [] s h = refl
split_line (c ∷ t) s h = rw (h.0, split_line t s h.1)

line-found :
    (name : Text) (l : Line)
    → IsLine l
    → line_checksum name (fields (print_line l))
      ≡ (if text_eq l.name name then some l.digest else none)
unfolding line_checksum
line-found name l (d, n, p) =
    ap (line_checksum name)
      (fields-line l.digest (field_of l.binary l.name) d (field_of-IsWord l.binary l.name n))
    ∙ ap (λ t. if text_eq t name then some l.digest else none) (trim-field_of l.binary l.name p)

line-NoFeed : (l : Line) → IsLine l → NoFeed (print_line l)
line-NoFeed l (d, n, p) =
    NoFeed-append l.digest (codes "  " ++ field_of l.binary l.name) (word-NoFeed l.digest d.1)
      (refl, (refl, word-NoFeed (field_of l.binary l.name) (field_of-IsWord l.binary l.name n).1))

-- `findChecksum` reads a checksum file as the table that it prints: on lines of a digest and a name
-- without spaces, with or without the star of the binary mode, it returns the digest of the first line
-- for the name, and an error where no line has it. A name that itself begins with a star is no line.
pub find_checksum-print :
    (ls : List Line) (name : Text)
    → All IsLine ls
    → find_checksum (print_sums ls) name ≡ digest_of name ls
unfolding find_checksum
find_checksum-print [] name h = unfold first_checksum split in refl
find_checksum-print (l ∷ ls) name h =
    ap (first_checksum name) (split_line (print_line l) (print_sums ls) (line-NoFeed l h.0))
    ∙ step (line_checksum name (fields (print_line l))) (line-found name l h.0)
        (find_checksum-print ls name h.1)
  where
    step :
        (o : Option Text)
        → o ≡ (if text_eq l.name name then some l.digest else none)
        → first_checksum name (split b'\n' (print_sums ls)) ≡ digest_of name ls
        → (elim o as (λ x. Option Text) [
          | none ↦ first_checksum name (split b'\n' (print_sums ls))
          | some d ↦ some d
        ])
          ≡ digest_of name (l ∷ ls)
    step o e rest = ground (arith, e, rest)
