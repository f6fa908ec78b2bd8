-- ===== src/LocalSend/Target.antt =====
-- Where a received file is saved: target of internal/localsend/receive.go. Stat and Mkdir may fail.
pub mod IsNew
use shfm.Common.{
  Bool, true, false, ◌&&◌, ◌||◌, Option, none, some, List, [], ◌∷◌, Bytes, map, bytes_eq,
  if◌then◌else◌, ◌⊎◌, inl, inr,
}
use shfm.Common.Dict.{lookup, insert}
use shfm.LocalSend.Names.{safe_path}
use shfm.LocalSend.Receiving.{TakenNames, free}

-- A path below the session's folder, its last segment first.
abbrev pub Place : Type 0
Place = List Bytes

-- `nodes` has what is there and whether it is a folder, and `hidden` where Stat fails, whatever is
-- there. `makes` is whether the next calls of Mkdir are served; later ones are, and fail only where
-- something is.
pub record Session : Type 0 where
  pub tops : List (Bytes × Bytes)
  pub claimed : List Place
  pub nodes : List (Place × Bool)
  pub hidden : List Place
  pub makes : List Bool

-- `panics`: a slice out of range when a name was cut.
pub data Refusal : Type 0 where
  panics : Refusal
  not_folder : Refusal
  not_made : Refusal

unfoldable pub place_eq : Place → Place → Bool
place_eq [] [] = true
place_eq [] (n ∷ q) = false
place_eq (n ∷ p) [] = false
place_eq (n ∷ p) (m ∷ q) = bytes_eq n m && place_eq p q

unfoldable pub node_at : Place → List (Place × Bool) → Option Bool
unfolding place_eq
node_at p [] = none
node_at p ((q, b) ∷ nodes) = if place_eq p q then some b else node_at p nodes

unfoldable pub names_in : Place → List Place → List Bytes
unfolding place_eq
names_in dir [] = []
names_in dir ([] ∷ ps) = names_in dir ps
names_in dir ((n ∷ d) ∷ ps) =
    let rest = names_in dir ps in if place_eq dir d then n ∷ rest else rest

unfoldable pub is_hidden : Place → List Place → Bool
unfolding place_eq
is_hidden p [] = false
is_hidden p (q ∷ qs) = place_eq p q || is_hidden p qs

-- What Stat finds; the source takes any error of it for nothing being there.
unfoldable pub seen_of : List Place → List (Place × Bool) → List (Place × Bool)
unfolding is_hidden
seen_of hidden [] = []
seen_of hidden ((q, b) ∷ nodes) =
    let rest = seen_of hidden nodes in if is_hidden q hidden then rest else (q, b) ∷ rest

abbrev pub seen : Session → List (Place × Bool)
seen s = seen_of s.hidden s.nodes

abbrev pub taken_in : Place → Session → TakenNames
taken_in dir s = record {
  claimed = names_in dir s.claimed;
  present = names_in dir (map (λ n. n.0) (seen s));
}

-- A folder sent whole has a free name, which its other files use as well.
unfoldable pub name_top : Option Bytes → Bytes → Session → Option Bytes × Session
name_top none seg s = (none, s)
name_top (some top) seg s = (some top, record s { tops = insert seg top s.tops })

unfoldable pub top_or_new : Option Bytes → Bytes → Session → Option Bytes × Session
unfolding name_top free seen_of
top_or_new (some top) seg s = (some top, s)
top_or_new none seg s = name_top (free (taken_in [] s) seg) seg s

unfoldable pub choose_top : Bytes → Session → Option Bytes × Session
unfolding top_or_new lookup
choose_top seg s = top_or_new (lookup seg s.tops) seg s

unfoldable pub made : Bool → Option Bool → Place → Session → Option Refusal × Session
made true none d s = (none, record s { nodes = (d, true) ∷ s.nodes })
made true (some b) d s = (some not_made, s)
made false o d s = (some not_made, s)

unfoldable pub make_folder : Place → List Bool → Session → Option Refusal × Session
unfolding made node_at
make_folder d [] s = made true (node_at d s.nodes) d s
make_folder d (b ∷ ms) s = made b (node_at d s.nodes) d (record s { makes = ms })

unfoldable pub enter_as : Option Bool → Place → Session → Option Refusal × Session
unfolding make_folder
enter_as (some true) d s = (none, s)
enter_as (some false) d s = (some not_folder, s)
enter_as none d s = make_folder d s.makes s

unfoldable pub enter : Place → Session → Option Refusal × Session
unfolding enter_as node_at seen_of
enter d s = enter_as (node_at d (seen s)) d s

abbrev pub Saved : Type 0
Saved = (Refusal ⊎ Place) × Session

unfoldable pub claim : Place → Option Bytes → Session → Saved
claim dir none s = (inl panics, s)
claim dir (some n) s = (inr (n ∷ dir), record s { claimed = (n ∷ dir) ∷ s.claimed })

unfoldable pub refuse_or : Option Refusal → Session → Saved → Saved
refuse_or none s rest = rest
refuse_or (some e) s rest = (inl e, s)

-- The folders, which are made if they are not there, and the file in the last one.
unfoldable pub place_in : Place → Bytes → List Bytes → Session → Saved
unfolding claim free enter refuse_or seen_of
place_in dir seg [] s = claim dir (free (taken_in dir s) seg) s
place_in dir seg (next ∷ segs) s =
    let rest = place_in (seg ∷ dir) next segs (enter (seg ∷ dir) s).1 in
    refuse_or (enter (seg ∷ dir) s).0 (enter (seg ∷ dir) s).1 rest

unfoldable pub under_top : Option Bytes × Session → Bytes → List Bytes → Saved
unfolding place_in
under_top (none, s) next segs = (inl panics, s)
under_top (some top, s) next segs = place_in [] top (next ∷ segs) s

-- safePath gives one segment or more.
unfoldable pub target_of : Option (List Bytes) → Session → Saved
unfolding under_top choose_top place_in
target_of none s = (inl panics, s)
target_of (some []) s = (inl panics, s)
target_of (some (seg ∷ [])) s = place_in [] seg [] s
target_of (some (seg ∷ (next ∷ segs))) s = under_top (choose_top seg s) next segs

unfoldable pub target : Bytes → Session → Saved
unfolding target_of safe_path
target name s = target_of (safe_path name) s
