-- ===== src/Config/Tests.antt =====
-- A file of three lines, and keys as users spell them.
use shfm.Common.Dict.{alter}
use shfm.Common.Utf8.{is_rune}
use shfm.Common.{
  ◌≡◌, ◌↔◌, refl, sym, some, none, [], ◌∷◌, ◌++◌, Bytes, codes, List, bytes_eq, inl, inr,
  has_prefix,
}
use shfm.Common.Split.{split_on}
use shfm.Config.Keymap.{
  normalize_key, is_among, rebuild_reverse, action_for, keys_for, parse_key_map, default_key_map,
  all_but_last, assignment_of,
}
use shfm.Config.Keymap.Catalogue.{Action}
use shfm.Config.Keymap.Lookup.{IsBound, action_for-IsBound}
use shfm.Config.Keymap.Lines.{last_given, or_default, keys_for-parse_key_map}

abbrev mixed : Bytes
mixed = codes "shift+alt+fn+ctrl+v"

mixed_sorted : normalize_key mixed ≡ codes "ctrl+alt+shift+fn+v"
unfolding normalize_key bytes_eq has_prefix all_but_last split_on
mixed_sorted = refl

abbrev bindings : List (Action × List Bytes)
bindings =
    (codes "quit", codes "q" ∷ codes "ctrl+q" ∷ [])
    ∷ (codes "help", [])
    ∷ (codes "copy", codes "ctrl+c" ∷ [])
    ∷ []

only_quit : (b : Action) → IsBound (normalize_key (codes "q")) b bindings → b ≡ codes "quit"
unfolding normalize_key is_among bytes_eq
only_quit b (inl (e, h)) = sym e
only_quit b (inr (inl (e, h))) = cc
only_quit b (inr (inr (inl (e, h)))) = cc
only_quit b (inr (inr (inr h))) = absurd h

action_for-IsBound_example :
    (action_for (rebuild_reverse bindings) (codes "q") ≡ some (codes "quit"))
    ↔ IsBound (normalize_key (codes "q")) (codes "quit") bindings
action_for-IsBound_example = action_for-IsBound bindings (codes "q") (codes "quit") only_quit

abbrev file_content : Bytes
file_content =
    codes "# mine"
    ++ 10 ∷ (codes " copy = alt+ctrl+x, # two" ++ 10 ∷ (codes "help =" ++ 10 ∷ codes "nothing = y"))

keys_for-parse_key_map_example :
    keys_for (parse_key_map file_content) (codes "copy")
    ≡ or_default
        (last_given (codes "copy") (split_on 10 file_content))
        (keys_for default_key_map (codes "copy"))
keys_for-parse_key_map_example = keys_for-parse_key_map file_content (codes "copy")

copy_rebound : last_given (codes "copy") (split_on 10 file_content) ≡ some (codes "ctrl+alt+x" ∷ [])
unfolding last_given split_on assignment_of has_prefix is_rune bytes_eq all_but_last
copy_rebound = refl

help_disabled : last_given (codes "help") (split_on 10 file_content) ≡ some []
unfolding last_given split_on assignment_of has_prefix is_rune bytes_eq
help_disabled = refl

quit_untouched : last_given (codes "quit") (split_on 10 file_content) ≡ none
unfolding last_given split_on assignment_of has_prefix is_rune bytes_eq
quit_untouched = refl

default_help : action_for default_key_map (codes "alt+ctrl+h") ≡ some (codes "help")
unfolding action_for default_key_map alter bytes_eq has_prefix all_but_last split_on
default_help = refl
