-- ===== src/Update/Versions.antt =====
-- internal/cli/update.go: parseVersion and compareVersions.
use a2abridge.Prelude.{
  ltb, ◌==◌, if◌then◌else◌, pos, negsuc, Text, codes, text_eq, ℕ, Option, none, some, List, [], ◌∷◌,
}
use a2abridge.Strings.{trim_space, split}
use a2abridge.Strings.Order.{text_lt}
use a2abridge.Strings.Words.{cut_at, trim_prefix}
use a2abridge.Numbers.{atoi}

-- `parsedVersion`
pub record Version : Type 0 where
  pub major : ℕ
  pub minor : ℕ
  pub patch : ℕ
  pub pre : Text

-- One numeric component; none is an error of Atoi, or a negative number.
unfoldable pub component : Text → Option ℕ
unfolding atoi
component s = elim (atoi s) [ none ↦ none | some (pos n) ↦ some n | some (negsuc n) ↦ none ]

abbrev pub version_of : Text → Option ℕ → Option ℕ → Option ℕ → Option Version
version_of pre (some a) (some b) (some c) =
    some (record { major = a; minor = b; patch = c; pre = pre })
version_of pre _ _ _ = none

-- The numeric core by its parts.
unfoldable pub parse_core : Text → List Text → Option Version
unfolding component
parse_core pre (a ∷ []) = version_of pre (component a) (some 0) (some 0)
parse_core pre (a ∷ b ∷ []) = version_of pre (component a) (component b) (some 0)
parse_core pre (a ∷ b ∷ c ∷ []) = version_of pre (component a) (component b) (component c)
parse_core pre _ = none

-- Build metadata behind a plus is cut off.
abbrev pub front_or : Text → Option (Text × Text) → Text
front_or s none = s
front_or s (some (a, b)) = a

unfoldable pub parse_cut : Text → Option (Text × Text) → Option Version
unfolding parse_core split
parse_cut s none = parse_core [] (split b'.' s)
parse_cut s (some (core, [])) = none
parse_cut s (some (core, c ∷ pre)) = parse_core (c ∷ pre) (split b'.' core)

-- `parseVersion`
unfoldable pub parse_version : Text → Option Version
unfolding parse_cut cut_at trim_prefix trim_space
parse_version s =
    let t = trim_prefix (trim_space s) (codes "v") in
    let u = front_or t (cut_at b'+' t) in parse_cut u (cut_at b'-' u)

-- The int that compareVersions returns: -1, 0 or 1.
pub data Sign : Type 0 where
  older same newer : Sign

-- `case av.pre == bv.pre` and what follows it.
unfoldable pub compare_pre : Text → Text → Sign
unfolding text_lt
compare_pre p q =
    if text_eq p q
    then same
    else if text_eq p []
    then newer
    else if text_eq q []
    then older
    else if text_lt p q
    then older
    else newer

abbrev pub compare_num : ℕ → ℕ → Sign → Sign
compare_num m n next = if m == n then next else if ltb m n then older else newer

unfoldable pub compare_parsed : Version → Version → Sign
unfolding compare_pre
compare_parsed v w =
    compare_num v.major w.major
      (compare_num v.minor w.minor (compare_num v.patch w.patch (compare_pre v.pre w.pre)))

unfoldable pub compare_both : Option Version → Option Version → Option Sign
unfolding compare_parsed
compare_both (some v) (some w) = some (compare_parsed v w)
compare_both _ _ = none

-- `compareVersions`; none is ok=false.
unfoldable pub compare_versions : Text → Text → Option Sign
compare_versions a b = compare_both (parse_version a) (parse_version b)
