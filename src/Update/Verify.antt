-- ===== src/Update/Verify.antt =====
-- internal/cli/update.go: the download, its checksum, and the binary in the archive. The HTTP client,
-- SHA-256 and the readers of tar and zip archives are not under this repository.
use a2abridge.Prelude.{
  ltb, leb, ◌==◌, if◌then◌else◌, length, drop, Text, codes, text_eq, ℕ, ◌-◌, Bool, false, ◌&&◌,
  Option, none, some, List, [], ◌∷◌, ◌++◌,
}
use a2abridge.Strings.{split}
use a2abridge.Strings.Words.{trim_prefix, fields, equal_fold, path_base}

-- What a GET gave: an error on the way or of the body's reader, or a status and a body.
pub data Fetched : Type 0 where
  unreachable : Fetched
  answered : ℕ → Text → Fetched

-- A member of an archive as its reader yields it: its name and content, none where reading it fails;
-- or an error of the reader itself.
pub data Member : Type 0 where
  member : Text → Option Text → Member
  broken : Member

pub record World : Type 0 where
  pub http : Text → Fetched
  pub sha256_hex : Text → Text
  pub untar : Text → Option (List Member)  -- none: no gzip stream
  pub unzip : Text → Option (List Member)

-- 256 << 20, 512 << 20 and 1 << 20
abbrev pub max_archive_bytes : ℕ
max_archive_bytes = 268_435_456

abbrev pub max_binary_bytes : ℕ
max_binary_bytes = 536_870_912

abbrev pub max_checksums_bytes : ℕ
max_checksums_bytes = 1_048_576

-- `readAllLimited`, and the end of httpGetLimited, on what a reader would yield.
unfoldable pub read_all_limited : ℕ → Text → Option Text
read_all_limited limit b = if ltb limit (length b) then none else some b

unfoldable pub fetched_limited : ℕ → Fetched → Option Text
unfolding read_all_limited
fetched_limited limit unreachable = none
fetched_limited limit (answered status b) = if status == 200 then read_all_limited limit b else none

-- `httpGetLimited`
unfoldable pub http_get_limited : World → Text → ℕ → Option Text
unfolding fetched_limited
http_get_limited w url limit = fetched_limited limit (w.http url)

-- The digest of a line of two fields that names the file.
unfoldable pub line_checksum : Text → List Text → Option Text
unfolding trim_prefix
line_checksum name (digest ∷ file ∷ []) =
    if text_eq (trim_prefix file (codes "*")) name then some digest else none
line_checksum name _ = none

unfoldable pub first_checksum : Text → List Text → Option Text
unfolding line_checksum fields
first_checksum name [] = none
first_checksum name (line ∷ lines) =
    let rest = first_checksum name lines in
    elim (line_checksum name (fields line)) [ none ↦ rest | some d ↦ some d ]

-- `findChecksum`
unfoldable pub find_checksum : Text → Text → Option Text
unfolding first_checksum split
find_checksum sums name = first_checksum name (split b'\n' sums)

-- `verifyChecksum`: whether it finds no error.
unfoldable pub matches_checksum : World → Text → Option Text → Bool
unfolding equal_fold
matches_checksum w body none = false
matches_checksum w body (some want) = equal_fold (w.sha256_hex body) want

unfoldable pub checksum_in : World → Text → Text → Option Text → Bool
unfolding matches_checksum find_checksum
checksum_in w asset body none = false
checksum_in w asset body (some sums) = matches_checksum w body (find_checksum sums asset)

unfoldable pub verify_checksum : World → Text → Text → Text → Bool
unfolding checksum_in http_get_limited
verify_checksum w base_url asset body =
    checksum_in w asset body
      (http_get_limited w (base_url ++ codes "/checksums.txt") max_checksums_bytes)

unfoldable pub member_limited : Option Text → Option Text
unfolding read_all_limited
member_limited none = none
member_limited (some b) = read_all_limited max_binary_bytes b

-- The loops of extractTarGzMember and extractZipMember: the first member with the base name.
unfoldable pub extract_member : Text → List Member → Option Text
unfolding member_limited path_base
extract_member name [] = none
extract_member name (broken ∷ l) = none
extract_member name (member path content ∷ l) =
    let rest = extract_member name l in
    if text_eq (path_base path) name then member_limited content else rest

unfoldable pub extract_from : Text → Option (List Member) → Option Text
unfolding extract_member
extract_from name none = none
extract_from name (some l) = extract_member name l

abbrev pub has_suffix : Text → Text → Bool
has_suffix s p = text_eq (drop (length s - length p) s) p && leb (length p) (length s)

-- The switch of downloadAndReplace on the archive's format.
unfoldable pub extract : World → Text → Text → Option Text
unfolding extract_from
extract w asset body =
    if has_suffix asset (codes ".tar.gz")
    then extract_from (codes "a2abridge") (w.untar body)
    else if has_suffix asset (codes ".zip")
    then extract_from (codes "a2abridge.exe") (w.unzip body)
    else none

-- The checked archive's binary; none is an error.
unfoldable pub verified : World → Text → Text → Text → Option Text
unfolding verify_checksum extract
verified w base_url asset body =
    if verify_checksum w base_url asset body then extract w asset body else none

unfoldable pub verified_download : World → Text → Text → Option Text → Option Text
unfolding verified
verified_download w base_url asset none = none
verified_download w base_url asset (some body) = verified w base_url asset body

-- `downloadAndReplace` up to the swap.
unfoldable pub download : World → Text → Text → Option Text
unfolding verified_download http_get_limited
download w base_url asset =
    verified_download w base_url asset
      (http_get_limited w (base_url ++ codes "/" ++ asset) max_archive_bytes)
