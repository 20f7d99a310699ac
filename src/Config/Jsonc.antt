-- ===== src/Config/Jsonc.antt =====
-- internal/ideconfig/jsonmerge.go: stripJSONComments and stripTrailingCommas, on bytes. The index
-- of the source is the rest of the text here, and its flags are a mode.
use a2abridge.Prelude.{◌==◌, if◌then◌else◌, Text, ℕ, Bool, true, false, not, ◌&&◌, ◌||◌, [], ◌∷◌}

abbrev pub quote : ℕ
quote = b'"'

abbrev pub backslash : ℕ
backslash = b'\\'

abbrev pub slash : ℕ
slash = b'/'

abbrev pub star : ℕ
star = b'*'

abbrev pub blank : ℕ
blank = b' '

abbrev pub line_feed : ℕ
line_feed = b'\n'

-- Outside strings and comments; in a string; behind a backslash in a string; in a line comment; in
-- a block comment; at the slash that closes one.
pub data Mode : Type 0 where
  in_code in_string escaped in_line in_block closing : Mode

-- Whether the next byte is there and is a given one.
abbrev pub next_is : ℕ → Text → Bool
next_is c [] = false
next_is c (d ∷ s) = d == c

abbrev pub is_empty : Text → Bool
is_empty [] = true
is_empty (c ∷ s) = false

-- The byte that is written for a byte, and the mode behind it, where `s` follows.
unfoldable pub strip_byte : Mode → ℕ → Text → ℕ × Mode
strip_byte in_code c s =
    if c == quote
    then (c, in_string)
    else if c == slash && next_is slash s
    then (blank, in_line)
    else if c == slash && next_is star s
    then (blank, in_block)
    else (c, in_code)
strip_byte in_string c s =
    if c == backslash && not (is_empty s)
    then (c, escaped)
    else if c == quote
    then (c, in_code)
    else (c, in_string)
strip_byte escaped c s = (c, in_string)
strip_byte in_line c s = if c == line_feed then (c, in_code) else (blank, in_line)
strip_byte in_block c s =
    if c == line_feed
    then (c, in_block)
    else if c == star && next_is slash s
    then (blank, closing)
    else (blank, in_block)
strip_byte closing c s = (blank, in_code)

unfoldable pub strip_from : Mode → Text → Text
unfolding strip_byte
strip_from m [] = []
strip_from m (c ∷ s) = let (d, m') = strip_byte m c s in d ∷ strip_from m' s

unfoldable pub strip_json_comments : Text → Text
unfolding strip_from
strip_json_comments s = strip_from in_code s

-- The blanks that may stand between a comma and a bracket.
abbrev pub is_gap : ℕ → Bool
is_gap c = c == blank || (c == b'\t' || (c == line_feed || c == b'\r'))

-- Whether a closing bracket is the next byte that is no gap.
unfoldable pub closes_next : Text → Bool
closes_next [] = false
closes_next (c ∷ s) = let rest = closes_next s in if is_gap c then rest else c == b'}' || c == b']'

abbrev pub comma : ℕ
comma = b','

-- Outside strings; in a string; behind a backslash in a string.
pub data Place : Type 0 where
  outside within after_backslash : Place

-- Whether a byte is written, and the place behind it, where `s` follows.
unfoldable pub keep_byte : Place → ℕ → Text → Bool × Place
unfolding closes_next
keep_byte outside c s =
    if c == quote
    then (true, within)
    else if c == comma && closes_next s
    then (false, outside)
    else (true, outside)
keep_byte within c s =
    if c == backslash && not (is_empty s)
    then (true, after_backslash)
    else if c == quote
    then (true, outside)
    else (true, within)
keep_byte after_backslash c s = (true, within)

unfoldable pub strip_commas_from : Place → Text → Text
unfolding keep_byte
strip_commas_from m [] = []
strip_commas_from m (c ∷ s) =
    let (keeps, m') = keep_byte m c s in
    let rest = strip_commas_from m' s in if keeps then c ∷ rest else rest

unfoldable pub strip_trailing_commas : Text → Text
unfolding strip_commas_from
strip_trailing_commas s = strip_commas_from outside s
