-- ===== src/Security/Screen.antt =====
-- internal/security/pii.go: Screen, preview and FormatMatches, on bytes. The regular expressions are
-- a parameter: a pattern cuts a text into the stretches between its matches and the matches.
use a2abridge.Prelude.{
  leb, if◌then◌else◌, length, take, any, Text, codes, text_eq, ◌≡◌, List, [], ◌∷◌, ◌++◌,
}
use a2abridge.Numbers.{itoa}
use a2abridge.Strings.Words.{join}

pub data Piece : Type 0 where
  plain : Text → Piece
  hit : Text → Piece

abbrev pub piece_text : Piece → Text
piece_text (plain t) = t
piece_text (hit t) = t

abbrev pub concat_pieces : List Piece → Text
concat_pieces [] = []
concat_pieces (p ∷ l) = piece_text p ++ concat_pieces l

-- `Pattern`
pub record Pattern : Type 0 where
  pub name : Text
  pub pieces : Text → List Piece

-- What package regexp documents: the pieces make up the text.
abbrev pub IsPattern : Pattern → Type 0
IsPattern p = (s : Text) → concat_pieces (p.pieces s) ≡ s

-- `Match`
pub record Match : Type 0 where
  pub pattern_name : Text
  pub value : Text

-- `preview`
unfoldable pub preview : Text → Text
unfolding itoa
preview s =
    if leb (length s) 4
    then s ++ (codes " (" ++ (itoa (length s) ++ codes " chars)"))
    else take 4 s ++ (codes "... (" ++ (itoa (length s) ++ codes " chars)"))

abbrev pub redaction : Text → Text
redaction name = codes "[REDACTED:" ++ (name ++ codes "]")

-- ReplaceAllStringFunc with the function of `Screen`: the text, and the matches that it appends.
unfoldable pub replace_pieces : Text → List Piece → Text × List Match
unfolding preview
replace_pieces name [] = ([], [])
replace_pieces name (plain t ∷ l) =
    let (out, matches) = replace_pieces name l in (t ++ out, matches)
replace_pieces name (hit t ∷ l) =
    let (out, matches) = replace_pieces name l in
    (redaction name ++ out, record { pattern_name = name; value = preview t } ∷ matches)

abbrev pub replace_all : Pattern → Text → Text × List Match
replace_all p s = replace_pieces p.name (p.pieces s)

-- The loop over the patterns.
unfoldable pub screen_by : List Pattern → Text → Text × List Match
unfolding replace_pieces
screen_by [] s = (s, [])
screen_by (p ∷ ps) s =
    let (out, matches) = replace_all p s in
    let (out', more) = screen_by ps out in (out', matches ++ more)

-- `Screen`
unfoldable pub screen : List Pattern → Text → Text × List Match
unfolding screen_by
screen ps [] = ([], [])
screen ps (c ∷ s) = screen_by ps (c ∷ s)

-- The loop of `FormatMatches`, with the names seen so far.
unfoldable pub pattern_names : List Text → List Match → List Text
pattern_names seen [] = []
pattern_names seen (m ∷ ms) =
    if any (λ n. text_eq n m.pattern_name) seen
    then pattern_names seen ms
    else m.pattern_name ∷ pattern_names (m.pattern_name ∷ seen) ms

-- `FormatMatches`
unfoldable pub format_matches : List Match → Text
unfolding pattern_names itoa join
format_matches [] = []
format_matches (m ∷ ms) =
    codes "redacted "
    ++ (itoa (length (m ∷ ms))
        ++ (codes " secret(s): " ++ join (codes ", ") (pattern_names [] (m ∷ ms))))
