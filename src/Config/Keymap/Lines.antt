-- ===== src/Config/Keymap/Lines.antt =====
-- What the lines of a file bind, for parseKeyMap of internal/config/keymap.go.
use shfm.Common.{
  ◌≡◌, refl, ap, ◌∙◌, Option, none, some, List, [], ◌∷◌, Bytes, bytes_eq, arith, if◌then◌else◌,
}
use shfm.Common.Dict.{lookup, insert, lookup-alter}
use shfm.Common.Split.{split_on}
use shfm.Config.Keymap.{
  assignment_of, assign, parse_lines, parse_key_map, default_key_map, rebuild_reverse, keys_for,
  or_no_keys,
}
use shfm.Config.Keymap.Catalogue.{Action}

-- The keys that a line gives to `a`.
abbrev given : Action → Option (Action × List Bytes) → Option (List Bytes)
given a none = none
given a (some (b, ks)) = if bytes_eq b a then some ks else none

abbrev or_earlier : Option (List Bytes) → Option (List Bytes) → Option (List Bytes)
or_earlier (some ks) o = some ks
or_earlier none o = o

-- The keys that the last of the lines that bind `a` gives to it.
unfoldable pub last_given : Action → List Bytes → Option (List Bytes)
last_given a [] = none
last_given a (line ∷ lines) = or_earlier (last_given a lines) (given a (assignment_of line))

abbrev pub or_default : Option (List Bytes) → List Bytes → List Bytes
or_default none ks = ks
or_default (some ks) default = ks

lookup-assign :
    (a : Action) (o : Option (Action × List Bytes)) (m : List (Action × List Bytes))
    → lookup a (assign o m) ≡ or_earlier (given a o) (lookup a m)
unfolding assign insert
lookup-assign a none m = refl
lookup-assign a (some (b, ks)) m = ground (arith, lookup-alter (λ _. ks) b a m)

or_earlier_assoc :
    (x y z : Option (List Bytes)) → or_earlier x (or_earlier y z) ≡ or_earlier (or_earlier x y) z
or_earlier_assoc none y z = refl
or_earlier_assoc (some ks) y z = refl

lookup-parse_lines :
    (a : Action) (lines : List Bytes) (m : List (Action × List Bytes))
    → lookup a (parse_lines lines m) ≡ or_earlier (last_given a lines) (lookup a m)
unfolding parse_lines last_given
lookup-parse_lines a [] m = refl
lookup-parse_lines a (line ∷ lines) m =
    lookup-parse_lines a lines (assign (assignment_of line) m)
    ∙ ap (or_earlier (last_given a lines)) (lookup-assign a (assignment_of line) m)
    ∙ or_earlier_assoc (last_given a lines) (given a (assignment_of line)) (lookup a m)

or_no_keys-or_earlier :
    (x y : Option (List Bytes)) → or_no_keys (or_earlier x y) ≡ or_default x (or_no_keys y)
unfolding or_no_keys
or_no_keys-or_earlier none y = refl
or_no_keys-or_earlier (some ks) y = refl

-- The last line that binds an action says its keys, none at all if it lists none; an action that
-- no line binds keeps its built-in keys. Lines without an `=`, comments and names that are not in
-- the catalogue bind nothing.
pub keys_for-parse_key_map :
    (content : Bytes) (a : Action)
    → keys_for (parse_key_map content) a
      ≡ or_default (last_given a (split_on 10 content)) (keys_for default_key_map a)
unfolding keys_for parse_key_map rebuild_reverse
keys_for-parse_key_map content a =
    ap or_no_keys (lookup-parse_lines a (split_on 10 content) default_key_map.bindings)
    ∙ or_no_keys-or_earlier (last_given a (split_on 10 content)) (lookup a default_key_map.bindings)
