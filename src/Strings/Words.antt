-- ===== src/Strings/Words.antt =====
-- More of Go's `strings`: cutting at a rune, fields, joining and folding; and filepath.Base.
use a2abridge.Prelude.{
  leb, ◌==◌, if◌then◌else◌, any, Text, codes, text_eq, ℕ, ◌+◌, Bool, true, ◌&&◌, Option, none, some,
  List, [], ◌∷◌, ◌++◌, map,
}
use a2abridge.Strings.{cut_prefix, is_space}

-- What stands before the first occurrence of a rune, and behind it: strings.Cut at one rune, or the
-- two slices at strings.IndexByte.
unfoldable pub cut_at : ℕ → Text → Option (Text × Text)
cut_at c [] = none
cut_at c (d ∷ s) =
    let rest = cut_at c s in
    if d == c then some ([], s) else elim rest [ none ↦ none | some (a, b) ↦ some (d ∷ a, b) ]

-- strings.TrimPrefix
unfoldable pub trim_prefix : Text → Text → Text
unfolding cut_prefix
trim_prefix s p = elim (cut_prefix s p) [ none ↦ s | some r ↦ r ]

-- Whether a word ends before a text.
abbrev pub at_gap : Text → Bool
at_gap [] = true
at_gap (d ∷ s) = is_space d

abbrev pub attach : ℕ → List Text → List Text
attach c [] = (c ∷ []) ∷ []
attach c (w ∷ ws) = (c ∷ w) ∷ ws

-- strings.Fields
unfoldable pub fields : Text → List Text
fields [] = []
fields (c ∷ s) =
    let rest = fields s in
    if is_space c then rest else if at_gap s then (c ∷ []) ∷ rest else attach c rest

-- strings.Join
unfoldable pub join : Text → List Text → Text
join sep [] = []
join sep (t ∷ []) = t
join sep (t ∷ u ∷ l) = t ++ (sep ++ join sep (u ∷ l))

abbrev pub lower : ℕ → ℕ
lower c = if leb b'A' c && leb c b'Z' then c + 32 else c

-- strings.EqualFold of a text with one of lower-case ASCII letters other than k and s, and digits.
unfoldable pub equal_fold : Text → Text → Bool
equal_fold s t = text_eq (map lower s) (map lower t)

-- The runes behind the last separator.
unfoldable pub after_last : ℕ → Text → Text
after_last sep [] = []
after_last sep (c ∷ s) =
    let rest = after_last sep s in if any (λ d. d == sep) (c ∷ s) then rest else c ∷ s

-- strings.TrimRight(s, sep) at one rune.
unfoldable pub trim_right_rune : ℕ → Text → Text
trim_right_rune sep [] = []
trim_right_rune sep (c ∷ s) =
    let rest = trim_right_rune sep s in
    elim rest [ [] ↦ if c == sep then [] else c ∷ [] | d ∷ ds ↦ c ∷ d ∷ ds ]

abbrev pub base_or : Text → Text → Text
base_or d [] = d
base_or d (c ∷ s) = c ∷ s

-- filepath.Base where the separator is the slash.
unfoldable pub path_base : Text → Text
unfolding after_last trim_right_rune
path_base [] = codes "."
path_base (c ∷ s) = base_or (codes "/") (after_last b'/' (trim_right_rune b'/' (c ∷ s)))
