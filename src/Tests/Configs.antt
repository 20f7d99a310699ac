-- ===== src/Tests/Configs.antt =====
-- The theorems on internal/ideconfig/jsonmerge.go on concrete configurations.
use a2abridge.Prelude.{
  All, Text, codes, ◌≡◌, refl, Bool, true, false, none, some, List, [], ◌∷◌, arith,
}
use a2abridge.Config.Jsonc.{strip_json_comments}
use a2abridge.Config.Comments.{
  plain, escape, Piece, byte, literal, line, block, IsPiece, print, print_blanked,
  strip_json_comments-print,
}
use a2abridge.Config.Write.{Disk, Faults, Codec, write_json_config}
use a2abridge.Config.Safety.{Told, write_json_config-Told}

abbrev pieces : List Piece
pieces =
    byte 123
    ∷ literal (plain 47 ∷ plain 47 ∷ escape 34 ∷ [])
    ∷ line (codes " note")
    ∷ block (codes "* a *")
    ∷ byte 125
    ∷ []

pieces-IsPiece : All IsPiece pieces
pieces-IsPiece = (
  (omega arith, omega arith),
  (
    ((omega arith, omega arith), ((omega arith, omega arith), (tt, tt))),
    (
      (omega arith, (omega arith, (omega arith, (omega arith, (omega arith, tt))))),
      (refl, ((omega arith, omega arith), tt)),
    ),
  ),
)

strip_json_comments-print_example : strip_json_comments (print pieces) ≡ print_blanked pieces
strip_json_comments-print_example = strip_json_comments-print pieces pieces-IsPiece

-- Objects that are their own encoding.
abbrev raw_codec : Codec Text
raw_codec = record { nothing = codes "{}"; decode = λ b. some (some b); encode = λ o. some o }

abbrev rename_fault : Faults
rename_fault = record {
  read = false;
  mkdir = false;
  create = false;
  write = false;
  chmod = false;
  close = false;
  rename = true;
  remove = false;
  backup_read = false;
  backup_write = none;
}

abbrev disk : Disk
disk = record {
  target = some (record { content = codes "{}"; mode = 420 });
  backup = none;
  leftovers = 0;
}

abbrev add_entry : Text → Text × Bool
add_entry o = (codes "{a2a}", true)

write_json_config-Told_example :
    Told raw_codec rename_fault false add_entry disk
      (write_json_config raw_codec true rename_fault false add_entry disk)
write_json_config-Told_example =
    write_json_config-Told raw_codec rename_fault false add_entry true disk
