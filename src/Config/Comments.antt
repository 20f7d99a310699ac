-- ===== src/Config/Comments.antt =====
-- internal/ideconfig/jsonmerge.go: stripJSONComments against the grammar of JSON with comments.
use a2abridge.Prelude.{
  ◌==◌, if◌then◌else◌, All, Text, ℕ, ◌≡◌, refl, ap, ◌∙◌, ◌≢◌, Bool, false, ◌&&◌, ◌||◌, List, [],
  ◌∷◌, ◌++◌, map, arith,
}
use a2abridge.Config.Jsonc.{
  quote, backslash, slash, star, blank, line_feed, in_code, in_string, in_line, in_block, next_is,
  strip_byte, strip_from, strip_json_comments,
}

-- A byte of a string literal, plain or behind a backslash.
pub data StringByte : Type 0 where
  plain escape : ℕ → StringByte

-- A piece of a JSON text with comments: a byte outside strings, a string literal, a line comment
-- with its line's end, and a block comment.
pub data Piece : Type 0 where
  byte : ℕ → Piece
  literal : List StringByte → Piece
  line block : Text → Piece

abbrev pub IsPlain : StringByte → Type 0
IsPlain (plain c) = (c ≢ quote) × (c ≢ backslash)
IsPlain (escape c) = Unit

-- Whether a star stands before a slash.
abbrev pub has_end : Text → Bool
has_end [] = false
has_end (c ∷ s) = c == star && next_is slash s || has_end s

-- A byte outside is no quote and no slash; a line comment has no line feed; a block comment's body
-- does not close it, nor with the star that opens it.
abbrev pub IsPiece : Piece → Type 0
IsPiece (byte c) = (c ≢ quote) × (c ≢ slash)
IsPiece (literal l) = All IsPlain l
IsPiece (line s) = All (λ c. c ≢ line_feed) s
IsPiece (block s) = has_end (star ∷ s) ≡ false

abbrev pub print_bytes : List StringByte → Text → Text
print_bytes [] rest = quote ∷ rest
print_bytes (plain c ∷ l) rest = c ∷ print_bytes l rest
print_bytes (escape c ∷ l) rest = backslash ∷ c ∷ print_bytes l rest

abbrev pub print : List Piece → Text
print [] = []
print (byte c ∷ l) = c ∷ print l
print (literal b ∷ l) = quote ∷ print_bytes b (print l)
print (line s ∷ l) = slash ∷ slash ∷ s ++ line_feed ∷ print l
print (block s ∷ l) = slash ∷ star ∷ s ++ star ∷ slash ∷ print l

abbrev pub blank_out : Text → Text
blank_out = map (λ c. if c == line_feed then line_feed else blank)

-- The text with its comments blanked, its line feeds kept.
abbrev pub print_blanked : List Piece → Text
print_blanked [] = []
print_blanked (byte c ∷ l) = c ∷ print_blanked l
print_blanked (literal b ∷ l) = quote ∷ print_bytes b (print_blanked l)
print_blanked (line s ∷ l) = blank ∷ blank ∷ blank_out s ++ line_feed ∷ print_blanked l
print_blanked (block s ∷ l) = blank ∷ blank ∷ blank_out s ++ blank ∷ blank ∷ print_blanked l

strip-byte :
    (c : ℕ) (s : Text)
    → c ≢ quote
    → c ≢ slash
    → strip_from in_code (c ∷ s) ≡ c ∷ strip_from in_code s
unfolding strip_from strip_byte
strip-byte c s q h = ground arith

strip-plain :
    (c : ℕ) (s : Text)
    → c ≢ quote
    → c ≢ backslash
    → strip_from in_string (c ∷ s) ≡ c ∷ strip_from in_string s
unfolding strip_from strip_byte
strip-plain c s q h = ground arith

strip-literal :
    (l : List StringByte) (rest : Text)
    → All IsPlain l
    → strip_from in_string (print_bytes l rest) ≡ print_bytes l (strip_from in_code rest)
unfolding strip_from strip_byte
strip-literal [] rest h = refl
strip-literal (plain c ∷ l) rest h =
    strip-plain c (print_bytes l rest) h.0.0 h.0.1 ∙ ap (◌∷◌ c) (strip-literal l rest h.1)
strip-literal (escape c ∷ l) rest h = ap (λ x. backslash ∷ c ∷ x) (strip-literal l rest h.1)

strip-line :
    (s rest : Text)
    → All (λ c. c ≢ line_feed) s
    → strip_from in_line (s ++ line_feed ∷ rest)
      ≡ blank_out s ++ line_feed ∷ strip_from in_code rest
unfolding strip_from strip_byte
strip-line [] rest h = refl
strip-line (c ∷ s) rest h = ground (arith, h.0, strip-line s rest h.1)

strip-block :
    (s rest : Text)
    → has_end s ≡ false
    → strip_from in_block (s ++ star ∷ slash ∷ rest)
      ≡ blank_out s ++ blank ∷ blank ∷ strip_from in_code rest
unfolding strip_from strip_byte
strip-block [] rest h = refl
strip-block (c ∷ []) rest h = ground arith
strip-block (c ∷ d ∷ s) rest h = ground (arith, strip-block (d ∷ s) rest)

strip-star :
    (s rest : Text)
    → has_end (star ∷ s) ≡ false
    → strip_from in_block (star ∷ s ++ star ∷ slash ∷ rest)
      ≡ blank ∷ strip_from in_block (s ++ star ∷ slash ∷ rest)
unfolding strip_from strip_byte
strip-star [] rest h = refl
strip-star (c ∷ s) rest h = ground arith

strip-print : (l : List Piece) → All IsPiece l → strip_from in_code (print l) ≡ print_blanked l
unfolding strip_from strip_byte
strip-print [] h = refl
strip-print (byte c ∷ l) h = strip-byte c (print l) h.0.0 h.0.1 ∙ ap (◌∷◌ c) (strip-print l h.1)
strip-print (literal b ∷ l) h =
    ap (◌∷◌ quote) (strip-literal b (print l) h.0 ∙ ap (print_bytes b) (strip-print l h.1))
strip-print (line s ∷ l) h =
    ap (λ x. blank ∷ blank ∷ x)
      (strip-line s (print l) h.0 ∙ ap (λ x. blank_out s ++ line_feed ∷ x) (strip-print l h.1))
strip-print (block s ∷ l) h = ap (◌∷◌ blank) (
    strip-star s (print l) h.0
    ∙ ap (◌∷◌ blank) (
        strip-block s (print l) (opened s h.0)
        ∙ ap (λ x. blank_out s ++ blank ∷ blank ∷ x) (strip-print l h.1)))
  where
    opened : (s : Text) → has_end (star ∷ s) ≡ false → has_end s ≡ false
    opened s h = ground arith

-- On a JSON text with comments, the stripper blanks exactly the comments: what stands outside them
-- and the string literals, with their escapes and any slashes in them, is unchanged, and every byte
-- of a comment becomes a blank, except that line feeds stay. The text is given by its pieces;
-- a block comment whose body starts with a slash is no piece.
pub strip_json_comments-print :
    (l : List Piece) → All IsPiece l → strip_json_comments (print l) ≡ print_blanked l
unfolding strip_json_comments
strip_json_comments-print l h = strip-print l h
