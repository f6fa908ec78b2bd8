-- ===== src/Trash/Record.antt =====
-- The .trashinfo record of a trashed file: writeTrashInfo and the reading in ListRoot of
-- internal/trash/trash.go. `stamp` and `time_of` are the time package's formatting and parsing in
-- the record's layout, on seconds.
pub mod ReadBack
use shfm.Common.{ℕ, List, [], ◌∷◌, ◌++◌, Bytes, codes, has_prefix, drop, if◌then◌else◌}
use shfm.Common.Split.{split_on}
use shfm.Trash.Encoding.{encode_trash_path, decode_trash_path}

abbrev pub newline : ℕ
newline = 10

-- What ListRoot takes out of a record.
pub record Fields : Type 0 where
  pub original_path : Bytes
  pub deletion_date : ℕ

abbrev pub fields : Bytes → ℕ → Fields
fields p now = record { original_path = p; deletion_date = now }

module _ (stamp : ℕ → Bytes) where
  unfoldable pub info_text : Bytes → ℕ → Bytes
  unfolding encode_trash_path
  info_text original_path now =
      codes "[Trash Info]"
      ++ newline
        ∷ ((codes "Path=" ++ encode_trash_path original_path)
            ++ newline ∷ ((codes "DeletionDate=" ++ stamp now) ++ newline ∷ []))

module _ (time_of : Bytes → ℕ) where
  unfoldable pub read_line : Bytes → Fields → Fields
  unfolding decode_trash_path
  read_line line f =
      if has_prefix line (codes "Path=")
      then record f { original_path = decode_trash_path (drop 5 line) }
      else if has_prefix line (codes "DeletionDate=")
      then record f { deletion_date = time_of (drop 13 line) }
      else f

  unfoldable pub read_lines : List Bytes → Fields → Fields
  unfolding read_line
  read_lines [] f = f
  read_lines (line ∷ lines) f = read_lines lines (read_line line f)

  -- The zero time where a record has no date.
  unfoldable pub read_info : Bytes → Fields
  unfolding read_lines
  read_info data_read = read_lines (split_on newline data_read) (fields [] 0)
