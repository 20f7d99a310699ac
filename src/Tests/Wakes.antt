-- ===== src/Tests/Wakes.antt =====
-- Runs of internal/agent/nudger.go, responder.go and cardcache.go, and of the formats of
-- internal/ideconfig that are not JSON.
use a2abridge.Strings.{is_space}
use a2abridge.Card.{etag_matches}
use a2abridge.Config.Plain.{yaml_scalar}
use a2abridge.Wake.Responder.{extract_codex_answer}
use a2abridge.Prelude.{Text, codes, text_eq, ◌≡◌, refl, true, false, none, some, [], ◌∷◌, ◌++◌, map}
use a2abridge.Wake.Nudger.{replace_rune, escape}
use a2abridge.Wake.Escaping.{read_literal, one_rune, read-escape}

abbrev sly : Text
sly = 0x5c ∷ 0x22 ∷ b'\n' ∷ codes " & do"

read-escape_example :
    read_literal false (escape sly ++ 0x22 ∷ b'\n' ∷ []) ≡ some (map one_rune sly, b'\n' ∷ [])
read-escape_example = read-escape sly (b'\n' ∷ [])

escaped : escape (0x22 ∷ b'\n' ∷ []) ≡ 0x5c ∷ 0x22 ∷ b' ' ∷ []
unfolding escape replace_rune
escaped = refl

weak_match : etag_matches (codes "\"a\", W/\"b\"") (codes "\"b\"") ≡ true
unfolding etag_matches is_space text_eq
weak_match = refl

last_of_output :
    extract_codex_answer (λ s. none) (codes "codex" ++ b'\n' ∷ codes " yes " ++ b'\n' ∷ [])
    ≡ codes "yes"
unfolding extract_codex_answer is_space
last_of_output = refl

-- A Windows path is quoted, but its backslashes are not escaped.
windows_path : yaml_scalar (codes "C:\\a") ≡ codes "\"C:\\a\""
unfolding yaml_scalar
windows_path = refl
