-- ===== src/Config/Keymap.antt =====
-- Key bindings: NormalizeKey, KeyMap and parseKeyMap of internal/config/keymap.go. An action is its
-- name in the file.
pub mod Catalogue
pub mod Normal
pub mod Joined
pub mod Lookup
pub mod Lines
use shfm.Common.{
  ℕ, Bool, true, false, ◌&&◌, ◌||◌, not, Option, none, some, List, [], ◌∷◌, ◌++◌, Bytes, codes,
  ◌==◌, leb, if◌then◌else◌, length, bytes_eq, has_prefix, reverse, map,
}
use shfm.Common.Dict.{lookup, insert, alter}
use shfm.Common.Split.{split_on, last_of}
use shfm.Common.Trim.{trim_space}
use shfm.Config.Keymap.Catalogue.{Action, keybinding_defs}

abbrev pub plus : ℕ
plus = b'+'

abbrev pub modifier_order : List Bytes
modifier_order =
    codes "ctrl" ∷ codes "alt" ∷ codes "shift" ∷ codes "meta" ∷ codes "hyper" ∷ codes "super" ∷ []

unfoldable pub contains : ℕ → Bytes → Bool
contains c [] = false
contains c (x ∷ s) = x == c || contains c s

-- strings.HasSuffix(k, "++")
unfoldable pub ends_double : Bytes → Bool
ends_double s = has_prefix (reverse s) (codes "++")

unfoldable pub is_among : Bytes → List Bytes → Bool
is_among m [] = false
is_among m (w ∷ ws) = bytes_eq w m || is_among m ws

-- All but the last piece.
unfoldable pub all_but_last : List Bytes → List Bytes
all_but_last [] = []
all_but_last (w ∷ []) = []
all_but_last (w ∷ v ∷ ws) = w ∷ all_but_last (v ∷ ws)

-- The modifiers of `order` that are among `mods`, each once.
unfoldable pub known_mods : List Bytes → List Bytes → List Bytes
unfolding is_among
known_mods [] mods = []
known_mods (want ∷ order) mods =
    let rest = known_mods order mods in if is_among want mods then want ∷ rest else rest

-- The others, in their order.
unfoldable pub other_mods : List Bytes → List Bytes → List Bytes
unfolding is_among
other_mods order [] = []
other_mods order (m ∷ mods) =
    let rest = other_mods order mods in if is_among m order then rest else m ∷ rest

unfoldable pub sorted_mods : List Bytes → List Bytes
unfolding known_mods other_mods
sorted_mods mods = known_mods modifier_order mods ++ other_mods modifier_order mods

-- strings.Join(append(mods, key), "+")
unfoldable pub join_key : List Bytes → Bytes → Bytes
join_key [] key = key
join_key (m ∷ mods) key = m ++ plus ∷ join_key mods key

unfoldable pub is_single : Bytes → Bool
unfolding contains ends_double
is_single k = leb (length k) 1 || (not (contains plus k) || ends_double k)

unfoldable pub normalize_key : Bytes → Bytes
unfolding sorted_mods join_key is_single
normalize_key k =
    if bytes_eq k (codes " ")
    then codes "space"
    else if is_single k
    then k
    else join_key (sorted_mods (all_but_last (split_on plus k))) (last_of (split_on plus k))

-- `bindings` as the runtime's iteration over the map goes, which is in no set order.
pub record KeyMap : Type 0 where
  pub bindings : List (Action × List Bytes)
  pub reversed : List (Bytes × Action)

unfoldable pub bind_keys : Action → List Bytes → List (Bytes × Action) → List (Bytes × Action)
unfolding insert
bind_keys a [] r = r
bind_keys a (k ∷ ks) r = bind_keys a ks (insert k a r)

unfoldable pub reverse_loop :
    List (Action × List Bytes) → List (Bytes × Action) → List (Bytes × Action)
unfolding bind_keys
reverse_loop [] r = r
reverse_loop ((a, ks) ∷ m) r = reverse_loop m (bind_keys a ks r)

unfoldable pub rebuild_reverse : List (Action × List Bytes) → KeyMap
unfolding reverse_loop
rebuild_reverse bindings = record { bindings = bindings; reversed = reverse_loop bindings [] }

unfoldable pub action_for : KeyMap → Bytes → Option Action
unfolding normalize_key lookup
action_for km key = lookup (normalize_key key) km.reversed

or_no_keys : Option (List Bytes) → List Bytes
or_no_keys none = []
or_no_keys (some ks) = ks

unfoldable pub keys_for : KeyMap → Action → List Bytes
unfolding or_no_keys lookup
keys_for km a = or_no_keys (lookup a km.bindings)

unfoldable pub all_loop : KeyMap → List (Action × List Bytes) → List (Action × List Bytes)
unfolding keys_for
all_loop km [] = []
all_loop km ((a, keys) ∷ defs) = (a, keys_for km a) ∷ all_loop km defs

-- All, without the descriptions
unfoldable pub all_bindings : KeyMap → List (Action × List Bytes)
unfolding all_loop
all_bindings km = all_loop km keybinding_defs

unfoldable pub add_default : List Bytes → Option (List Bytes) → List Bytes
unfolding normalize_key or_no_keys
add_default keys o = or_no_keys o ++ map normalize_key keys

unfoldable pub default_loop :
    List (Action × List Bytes) → List (Action × List Bytes) → List (Action × List Bytes)
unfolding add_default
default_loop [] m = m
default_loop ((a, keys) ∷ defs) m = default_loop defs (alter (add_default keys) a m)

unfoldable pub default_key_map : KeyMap
unfolding rebuild_reverse default_loop
default_key_map = rebuild_reverse (default_loop keybinding_defs [])

unfoldable pub is_known_action : Action → List (Action × List Bytes) → Bool
is_known_action a [] = false
is_known_action a ((d, keys) ∷ defs) = bytes_eq d a || is_known_action a defs

-- strings.IndexByte: the text before the first `c` and the text after it.
unfoldable pub cut_at : ℕ → Bytes → Option (Bytes × Bytes)
cut_at c [] = none
cut_at c (x ∷ s) = let rest = cut_at c s in if x == c then some ([], s) else push x rest
  where
    push : ℕ → Option (Bytes × Bytes) → Option (Bytes × Bytes)
    push x none = none
    push x (some (before, behind)) = some (x ∷ before, behind)

before_comment : Bytes → Option (Bytes × Bytes) → Bytes
before_comment rest none = rest
before_comment rest (some (before, behind)) = before

unfoldable pub keys_of : List Bytes → List Bytes
unfolding trim_space normalize_key
keys_of [] = []
keys_of (part ∷ parts) =
    let rest = keys_of parts in
    let k = trim_space part in if is_empty k then rest else normalize_key k ∷ rest
  where
    is_empty : Bytes → Bool
    is_empty [] = true
    is_empty (c ∷ s) = false

-- What a line with an `=` says.
unfoldable pub assignment_at : Option (Bytes × Bytes) → Option (Action × List Bytes)
unfolding trim_space is_known_action before_comment keys_of cut_at
assignment_at none = none
assignment_at (some (name, rest)) =
    let action = trim_space name in
    if is_known_action action keybinding_defs
    then some (action, keys_of (split_on b',' (before_comment rest (cut_at b'#' rest))))
    else none

-- The action that a line binds and its keys, if it binds one. An empty line has no `=`.
unfoldable pub assignment_of : Bytes → Option (Action × List Bytes)
unfolding trim_space assignment_at cut_at
assignment_of line =
    let t = trim_space line in
    if has_prefix t (codes "#") then none else assignment_at (cut_at b'=' t)

assign : Option (Action × List Bytes) → List (Action × List Bytes) → List (Action × List Bytes)
unfolding insert
assign none m = m
assign (some (a, keys)) m = insert a keys m

unfoldable pub parse_lines : List Bytes → List (Action × List Bytes) → List (Action × List Bytes)
unfolding assignment_of assign
parse_lines [] m = m
parse_lines (line ∷ lines) m = parse_lines lines (assign (assignment_of line) m)

-- bufio.Scanner's lines, none too long for it: what it takes off their ends is trimmed anyway.
unfoldable pub parse_key_map : Bytes → KeyMap
unfolding parse_lines default_key_map rebuild_reverse
parse_key_map data_read =
    rebuild_reverse (parse_lines (split_on 10 data_read) default_key_map.bindings)
