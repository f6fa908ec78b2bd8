-- ===== src/Trash/Tests.antt =====
-- A folder whose name has a space and an umlaut, beside an older item of the same name.
use shfm.Common.Decimal.{decimal}
use shfm.Common.{ℕ, ◌≡◌, refl, true, false, none, some, [], ◌∷◌, ◌++◌, Bytes, codes, ◌⊎◌, bytes_eq}
use shfm.Common.Dict.{lookup, alter}
use shfm.Common.Utf8.{valid_string, is_rune, runes}
use shfm.Common.Split.{is_free, is_free-All, split_on}
use shfm.Trash.Encoding.{encode_trash_path, decode_trash_path}
use shfm.Trash.Record.{info_text, read_info, fields, newline}
use shfm.Trash.Record.ReadBack.{IsLine, read-info_text}
use shfm.Trash.Can.{Content, World, Faults, move_to_trash, restore, item_of, list_root, empty_items}
use shfm.Trash.Can.Moving.{new_id, IsNear, move_to_trash-IsNear}
use shfm.Trash.Can.Ending.{IsTrashed, move_to_trash_kept}
use shfm.Trash.Can.Restoring.{IsFine, IsListed, IsSame, restore-move_to_trash}

abbrev stamp : ℕ → Bytes
stamp now = codes "2026-03-01T10:20:30"

abbrev time_of : Bytes → ℕ
time_of s = 7

-- "/home/a ä"
abbrev path : Bytes
path = codes "/home/a " ++ 195 ∷ 164 ∷ []

abbrev name : Bytes
name = codes "a " ++ 195 ∷ 164 ∷ []

abbrev notes : Content
notes = record { is_dir = true; parts = (codes "x", codes "one") ∷ (codes "y", codes "two") ∷ [] }

abbrev world : World
world = record {
  outside = (path, notes) ∷ [];
  files = (name, notes) ∷ [];
  infos = (name, codes "old") ∷ [];
  folders = [];
}

-- Another drive: a copy instead of a rename.
abbrev across : Faults
across = record {
  ready = true;
  opens = true;
  written = none;
  renames = false;
  copied = none;
  removed = none;
  tidies = true;
  makes = true;
  unlinks = true;
  flushes = true;
}

-- The second file can't be removed.
abbrev halfway : Faults
halfway = record across { removed = some 1 }

stamp-IsLine : IsLine (stamp 7)
unfolding is_free
stamp-IsLine = is_free-All newline (stamp 7) refl

path-valid : valid_string path ≡ true
unfolding valid_string is_rune
path-valid = refl

encoded : encode_trash_path path ≡ codes "/home/a%20%C3%A4"
unfolding encode_trash_path runes is_rune
encoded = refl

-- a digit and no digit
scanned : decode_trash_path (codes "%5G%41%") ≡ codes "\u{5}A%"
unfolding decode_trash_path
scanned = refl

read-info_text_example : read_info time_of (info_text stamp path 7) ≡ fields path 7
read-info_text_example = read-info_text stamp time_of path 7 path-valid stamp-IsLine refl

move_to_trash-IsNear_example :
    (lookup (new_id path world) world.files ≡ none)
    × IsNear path (new_id path world) world (move_to_trash stamp halfway 7 path world).1
move_to_trash-IsNear_example = move_to_trash-IsNear stamp halfway 7 path world

found : lookup path world.outside ≡ some notes
unfolding lookup bytes_eq
found = refl

move_to_trash_kept_example :
    let (done, w') = move_to_trash stamp across 7 path world in
    ((done ≡ true) × IsTrashed path (new_id path world) notes (info_text stamp path 7) w')
    ⊎ ((done ≡ false) × (lookup path w'.outside ≡ some notes))
move_to_trash_kept_example = move_to_trash_kept stamp across 7 path notes world found tt

moves : (move_to_trash stamp across 7 path world).0 ≡ true
unfolding move_to_trash lookup bytes_eq split_on
moves = refl

across-IsFine : IsFine across
across-IsFine = record {
  makes = refl;
  copied = refl;
  removed = refl;
  unlinks = refl;
  flushes = refl;
}

restore-move_to_trash_example :
    let w' = (move_to_trash stamp across 7 path world).1 in
    let it = item_of time_of (new_id path world) (info_text stamp path 7) w'.files in
    IsListed it (list_root time_of w')
    × (((restore across it w').0 ≡ true) × IsSame world (restore across it w').1)
restore-move_to_trash_example =
    restore-move_to_trash stamp time_of across across 7 path notes world found moves path-valid refl
      stamp-IsLine refl across-IsFine

-- what was removed before the error is nowhere
lost : (move_to_trash stamp halfway 7 path world).1 ≡ record world {
  outside = (path, record { is_dir = true; parts = (codes "y", codes "two") ∷ [] }) ∷ [];
}
unfolding move_to_trash bytes_eq split_on alter decimal
lost = refl

emptied : (empty_items (λ n. across) 0 (list_root time_of world) world).1.files ≡ []
unfolding empty_items list_root lookup bytes_eq
emptied = refl
