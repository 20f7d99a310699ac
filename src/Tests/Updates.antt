-- ===== src/Tests/Updates.antt =====
-- The theorems on internal/cli/update.go on concrete releases.
use a2abridge.Strings.{has_prefix, is_space}
use a2abridge.Prelude.{
  if◌then◌else◌, is_some, All, codes, text_eq, ◌≡◌, refl, ◌↔◌, true, false, not, ◌&&◌, none, some,
  List, [], ◌∷◌,
}
use a2abridge.Update.Versions.{parse_version, older, same, compare_both, compare_versions}
use a2abridge.Update.Precedence.{map_sign, is_older, compare_versions_lem}
use a2abridge.Update.Verify.{answered, member, World, find_checksum, download}
use a2abridge.Update.Install.{Files, Faults, download_and_replace}
use a2abridge.Update.Run.{Flags, Build}
use a2abridge.Update.Rollback.{Ended, download_and_replace-Ended}
use a2abridge.Update.Checksums.{Line, IsLine, print_sums, digest_of, find_checksum-print}

compare_release : compare_versions (codes "v1.2.0-rc.1") (codes "1.2.0") ≡ some older
unfolding compare_versions compare_both parse_version is_space text_eq
compare_release = refl

compare_dev : compare_versions (codes "dev") (codes "v1.2.0") ≡ none
unfolding compare_versions compare_both parse_version is_space
compare_dev = refl

compare_versions_lem_example :
    (compare_versions (codes "1.2.0") (codes "1.2.0-rc")
      ≡ map_sign (compare_versions (codes "1.2.0-rc") (codes "1.2.0")))
    × ((is_older (compare_versions (codes "1.2.0-rc") (codes "1.2.0"))
          && (is_older (compare_versions (codes "1.2.0") (codes "v1.10+x"))
              && not (is_older (compare_versions (codes "1.2.0-rc") (codes "v1.10+x")))))
        ≡ false)
    × ((compare_versions (codes "1.2.0-rc") (codes "1.2.0") ≡ some same) ↔ (
        (parse_version (codes "1.2.0-rc") ≡ parse_version (codes "1.2.0"))
        × (is_some (parse_version (codes "1.2.0-rc")) ≡ true)))
compare_versions_lem_example =
    compare_versions_lem (codes "1.2.0-rc") (codes "1.2.0") (codes "v1.10+x")

-- A server with one release, whose digest is its archive.
abbrev world : World
world = record {
  http = λ url.
      if text_eq url (codes "u/checksums.txt")
      then answered 200 (codes "AB  *x.zip")
      else answered 200 (codes "ab");
  sha256_hex = λ b. b;
  untar = λ b. none;
  unzip = λ b. some (member (codes "bin/a2abridge.exe") (some (codes "new")) ∷ []);
}

abbrev files : Files
files = record { current = some (codes "old"); backup = none; fresh = none }

-- The rename that activates the binary fails, and then the one that rolls back.
abbrev two_faults : Faults
two_faults = record {
  backup = false;
  write = none;
  activate = true;
  remove = false;
  restore = true;
}

download_and_replace-Ended_example :
    Ended two_faults
      (codes "old")
      (download world (codes "u") (codes "x.zip"))
      (download_and_replace world two_faults (codes "u") (codes "x.zip") files)
download_and_replace-Ended_example =
    download_and_replace-Ended two_faults (codes "old") world (codes "u") (codes "x.zip") files refl

downloaded : download world (codes "u") (codes "x.zip") ≡ some (codes "new")
unfolding download text_eq is_space
downloaded = refl

abbrev build : Build
build = record {
  version = codes "1.2.0";
  os = codes "linux";
  arch = codes "amd64";
  has_executable = true;
  latest_tag = λ repo. some (codes "v1.1.9");
}

-- An older version is asked for.
abbrev flags : Flags
flags = record { repo = codes "o/r"; version = codes "v1.1.9"; check = false }

abbrev lines : List Line
lines =
    record { digest = codes "aa"; binary = true; name = codes "x.zip" }
    ∷ record { digest = codes "bb"; binary = false; name = codes "y.tar.gz" }
    ∷ []

lines-IsLine : All IsLine lines
unfolding is_space has_prefix
lines-IsLine = (
  (((λ e. cc), (refl, (refl, tt))), ((λ e. cc), (refl, (refl, (refl, (refl, (refl, tt)))))), refl),
  (
    (
      ((λ e. cc), (refl, (refl, tt))),
      ((λ e. cc), (refl, (refl, (refl, (refl, (refl, (refl, (refl, (refl, tt))))))))),
      refl,
    ),
    tt,
  ),
)

find_checksum-print_example :
    find_checksum (print_sums lines) (codes "y.tar.gz") ≡ digest_of (codes "y.tar.gz") lines
find_checksum-print_example = find_checksum-print lines (codes "y.tar.gz") lines-IsLine
