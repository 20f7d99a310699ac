-- ===== src/Update/BuildInfo.antt =====
-- internal/buildinfo/version.go: what the running build says of itself. The build information that
-- Go's linker recorded and the pattern of module versions are parameters.
use a2abridge.Prelude.{
  ltb, if◌then◌else◌, length, take, any, Text, codes, text_eq, Bool, not, ◌&&◌, ◌||◌, Option, none,
  some, List, [], ◌∷◌, ◌++◌,
}
use a2abridge.Strings.Words.{trim_prefix}

pub record Info : Type 0 where
  pub version : Text
  pub commit : Text
  pub build_date : Text

pub record Module : Type 0 where
  pub path : Text
  pub version : Text

-- `debug.BuildInfo` as far as it is read.
pub record Recorded : Type 0 where
  pub main : Module
  pub deps : List Module
  pub settings : List (Text × Text)

abbrev pub dev_version : Text
dev_version = codes "dev"

abbrev pub unknown : Text
unknown = codes "unknown"

-- Map assignment in order: the last value of a key counts.
unfoldable pub setting : Text → List (Text × Text) → Text
setting key [] = []
setting key ((k, v) ∷ l) =
    let rest = setting key l in
    if text_eq k key && not (any (λ p. text_eq p.0 key) l) then v else rest

-- `buildSettings`, as the lookup in the map that it makes.
abbrev pub build_settings : Option Recorded → Text → Text
build_settings none key = []
build_settings (some bi) key = setting key bi.settings

-- `vcsCommit`
unfoldable pub vcs_commit : (Text → Text) → Text
vcs_commit settings =
    let rev = settings (codes "vcs.revision") in
    if text_eq rev []
    then unknown
    else (let short = if ltb 7 (length rev) then take 7 rev else rev in
        if text_eq (settings (codes "vcs.modified")) (codes "true")
        then short ++ codes "-dirty"
        else short)

module _ (module_path : Text) (is_semver : Text → Bool) where
  unfoldable pub find_module : List Module → Option Module
  find_module [] = none
  find_module (dep ∷ deps) =
      let rest = find_module deps in if text_eq dep.path module_path then some dep else rest

  unfoldable pub version_or_dev : Option Module → Text
  unfolding trim_prefix
  version_or_dev none = dev_version
  version_or_dev (some m) =
      if text_eq m.version (codes "(devel)") || not (is_semver m.version)
      then dev_version
      else trim_prefix m.version (codes "v")

  -- `moduleVersion`
  unfoldable pub module_version : Option Recorded → Text
  unfolding find_module version_or_dev
  module_version none = dev_version
  module_version (some bi) =
      version_or_dev
        (if text_eq bi.main.path module_path then some bi.main else find_module bi.deps)

  abbrev pub or_default : Text → Text → Text
  or_default [] d = d
  or_default (c ∷ t) d = c ∷ t

  -- `resolve`
  unfoldable pub resolve : Info → Option Recorded → Info
  unfolding module_version vcs_commit setting
  resolve linked bi =
      let settings = build_settings bi in
      record {
        version = or_default linked.version (module_version bi);
        commit = or_default linked.commit (vcs_commit settings);
        build_date =
            or_default linked.build_date (or_default (settings (codes "vcs.time")) unknown);
      }
