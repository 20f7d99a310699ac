-- ===== src/Guard/Version.antt =====
-- internal/agent/guard.go: majorMinor, checkProtocolVersion and pinProtocolVersion.
use a2abridge.Prelude.{
  if◌then◌else◌, pos, negsuc, Text, text_eq, ℕ, Bool, false, Option, none, some, [], ◌∷◌, ◌++◌,
}
use a2abridge.Strings.{trim_space, split}
use a2abridge.Numbers.{map_some, atoi, itoa}

abbrev pub dot : ℕ
dot = b'.'

-- One number of a version: none is an error of Atoi, or a negative number.
unfoldable pub version_number : Text → Option ℕ
unfolding atoi
version_number s = elim (atoi s) [ none ↦ none | some (pos n) ↦ some n | some (negsuc n) ↦ none ]

unfoldable pub major_minor_of : Option ℕ → Option ℕ → Option Text
unfolding itoa
major_minor_of (some major) (some minor) = some (itoa major ++ dot ∷ itoa minor)
major_minor_of _ _ = none

-- `majorMinor`. SplitN(v, ".", 3) has the first two parts of Split.
unfoldable pub major_minor : Text → Option Text
unfolding split version_number major_minor_of
major_minor v = elim (split dot v) [
  | major ∷ minor ∷ _ ↦ major_minor_of (version_number major) (version_number minor)
  | _ ↦ none
]

-- Where a request carries its version: the A2A-Version header ("" without one), and the first
-- value of the request parameter of that name, where there is one.
pub record Carrier : Type 0 where
  pub header : Text
  pub param : Option Text

abbrev pub text_or : Text → Option Text → Text
text_or d none = d
text_or d (some t) = t

-- The version that a request asks for.
unfoldable pub requested : Carrier → Text
requested r =
    let v = trim_space r.header in if text_eq v [] then trim_space (text_or [] r.param) else v

-- Whether a version that was sent is the served one, in Major.Minor.
unfoldable pub version_ok : Text → Text → Bool
version_ok served v = elim (major_minor v) [
  | none ↦ false
  | some got ↦ text_eq got (text_or [] (major_minor served))
]

-- `checkProtocolVersion`: whether it finds no error.
unfoldable pub check_protocol_version : Text → Carrier → Bool
check_protocol_version served r =
    let v = requested r in if text_eq v [] then false else version_ok served v

-- `pinProtocolVersion`
unfoldable pub pin_protocol_version : Text → Carrier → Carrier
pin_protocol_version served r = record {
  header = if text_eq r.header [] then r.header else served;
  param = map_some (λ v. served) r.param;
}
