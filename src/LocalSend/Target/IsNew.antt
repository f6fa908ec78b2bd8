-- ===== src/LocalSend/Target/IsNew.antt =====
-- No received file gets the place of another one: target of internal/localsend/receive.go.
use shfm.Common.{
  ℕ, zero, suc, ◌+◌, ◌≡◌, refl, sym, ap, ◌∙◌, Bool, true, false, ◌||◌, Option, none, some, List, [],
  ◌∷◌, Bytes, map, arith, Bool-cases, ◌⊎◌, inl, inr, if◌then◌else◌, length,
}
use mathlib.Core.Path.{subst}
use shfm.Common.Dict.{lookup}
use shfm.LocalSend.Names.{safe_path, numbered}
use shfm.LocalSend.Receiving.{TakenNames, is_in, is_taken, free_or, free_loop, free}
use shfm.LocalSend.Target.{
  seen, seen_of, made, Place, Session, Refusal, Saved, place_eq, node_at, names_in, taken_in,
  name_top, top_or_new, choose_top, make_folder, enter_as, enter, claim, refuse_or, place_in,
  under_top, target_of, target,
}

abbrev pub is_claimed : Place → List Place → Bool
is_claimed p [] = false
is_claimed p (q ∷ qs) = place_eq p q || is_claimed p qs

free_or-taken :
    (f : TakenNames) (o rest : Option Bytes) (s : Bytes)
    → (rest ≡ some s → is_taken f s ≡ false)
    → free_or f o rest ≡ some s
    → is_taken f s ≡ false
unfolding free_or
free_or-taken f none rest s h e = cc
free_or-taken f (some c) rest s h e = elim (Bool-cases (is_taken f c)) [
  | inl t ↦ h (sym (pick true (is_taken f c) t) ∙ e)
  | inr t ↦ subst (λ x. is_taken f x ≡ false) (some_eq (sym (pick false (is_taken f c) t) ∙ e)) t
]
  where
    pick : (a b : Bool) → b ≡ a → (if b then rest else some c) ≡ (if a then rest else some c)
    pick a b q = ap (λ b. if b then rest else some c) q

    some_eq : some c ≡ some s → c ≡ s
    some_eq q = cc

free_loop-taken :
    (f : TakenNames) (name s : Bytes) (fuel n : ℕ)
    → free_loop fuel f name n ≡ some s
    → is_taken f s ≡ false
unfolding free_loop
free_loop-taken f name s zero n e = cc
free_loop-taken f name s (suc fuel) n e =
    free_or-taken f (numbered name n) (free_loop fuel f name (n + 1)) s
      (free_loop-taken f name s fuel (n + 1)) e

free-free_or :
    (f : TakenNames) (name : Bytes)
    → free_or f (some name) (free_loop (suc (length f.claimed + length f.present)) f name 2)
      ≡ free f name
unfolding free free_or
free-free_or f name = refl

free-taken : (f : TakenNames) (name s : Bytes) → free f name ≡ some s → is_taken f s ≡ false
unfolding free
free-taken f name s e =
    let fuel = suc (length f.claimed + length f.present) in
    free_or-taken f (some name) (free_loop fuel f name 2) s (free_loop-taken f name s fuel 2)
      (free-free_or f name ∙ e)

-- A name that no place of the folder has.
names_in-is_claimed :
    (n : Bytes) (dir : Place) (ps : List Place)
    → is_in n (names_in dir ps) ≡ false
    → is_claimed (n ∷ dir) ps ≡ false
unfolding names_in is_in place_eq
names_in-is_claimed n dir [] h = refl
names_in-is_claimed n dir ([] ∷ ps) h = names_in-is_claimed n dir ps h
names_in-is_claimed n dir ((m ∷ d) ∷ ps) h = ground (arith, names_in-is_claimed n dir ps)

node_at-none :
    (p : Place) (nodes : List (Place × Bool))
    → is_claimed p (map (λ n. n.0) nodes) ≡ false
    → node_at p nodes ≡ none
unfolding node_at
node_at-none p [] h = refl
node_at-none p ((q, b) ∷ nodes) h = ground (arith, node_at-none p nodes)

or_false : (a b : Bool) → (a || b) ≡ false → (a ≡ false) × (b ≡ false)
or_false true b h = cc
or_false false b h = (refl, h)

-- What the claimed places and the places that are there may become before the file has its own.
abbrev Keeps : Session → Session → Type 0
Keeps s t =
    (t.claimed ≡ s.claimed) × ((p : Place) → node_at p (seen t) ≡ none → node_at p (seen s) ≡ none)

abbrev IsNew : Session → Saved → Type 0
IsNew s r =
    (p : Place)
    → r.0 ≡ inr p
    → (r.1.claimed ≡ p ∷ s.claimed) × (is_claimed p s.claimed ≡ false) × (node_at p (seen s) ≡ none)

inr_eq : {p q : Place} → ◌≡◌ {A = Refusal ⊎ Place} (inr p) (inr q) → p ≡ q
inr_eq h = cc

claim-IsNew :
    (dir : Place) (s : Session) (o : Option Bytes)
    → ((n : Bytes) → o ≡ some n → is_taken (taken_in dir s) n ≡ false)
    → IsNew s (claim dir o s)
unfolding claim is_taken
claim-IsNew dir s none h p e = cc
claim-IsNew dir s (some n) h p e =
    let (c, q) =
      or_false (is_in n (names_in dir s.claimed)) (is_in n (names_in dir (map (λ n. n.0) (seen s))))
        (h n refl) in
    subst
      (λ p.
        ((n ∷ dir) ∷ s.claimed ≡ p ∷ s.claimed)
        × (is_claimed p s.claimed ≡ false)
        × (node_at p (seen s) ≡ none))
      (inr_eq e)
      (
        refl,
        names_in-is_claimed n dir s.claimed c,
        node_at-none (n ∷ dir) (seen s) (names_in-is_claimed n dir (map (λ n. n.0) (seen s)) q),
      )

later-IsNew : (s t : Session) (r : Saved) → Keeps s t → IsNew t r → IsNew s r
later-IsNew s t r (same, less) new p e =
    let (a, b, c) = new p e in
    (a ∙ ap (λ cs. p ∷ cs) same, ap (is_claimed p) (sym same) ∙ b, less p c)

seen-before :
    (hidden : List Place) (d p : Place) (nodes : List (Place × Bool))
    → node_at p (seen_of hidden ((d, true) ∷ nodes)) ≡ none
    → node_at p (seen_of hidden nodes) ≡ none
unfolding node_at seen_of
seen-before hidden d p nodes h = ground arith

made-Keeps : (b : Bool) (o : Option Bool) (d : Place) (s : Session) → Keeps s (made b o d s).1
unfolding made
made-Keeps true none d s = (refl, λ p h. seen-before s.hidden d p s.nodes h)
made-Keeps true (some b) d s = (refl, λ p h. h)
made-Keeps false o d s = (refl, λ p h. h)

make_folder-Keeps : (d : Place) (ms : List Bool) (s : Session) → Keeps s (make_folder d ms s).1
unfolding make_folder
make_folder-Keeps d [] s = made-Keeps true (node_at d s.nodes) d s
make_folder-Keeps d (b ∷ ms) s = made-Keeps b (node_at d s.nodes) d (record s { makes = ms })

enter_as-Keeps : (o : Option Bool) (d : Place) (s : Session) → Keeps s (enter_as o d s).1
unfolding enter_as
enter_as-Keeps (some true) d s = (refl, λ p h. h)
enter_as-Keeps (some false) d s = (refl, λ p h. h)
enter_as-Keeps none d s = make_folder-Keeps d s.makes s

refuse_or-IsNew :
    (s : Session) (o : Option Refusal) (t : Session) (rest : Saved)
    → IsNew s rest
    → IsNew s (refuse_or o t rest)
unfolding refuse_or
refuse_or-IsNew s none t rest h = h
refuse_or-IsNew s (some e) t rest h = λ p q. cc

place_in-IsNew :
    (dir : Place) (seg : Bytes) (segs : List Bytes) (s : Session)
    → IsNew s (place_in dir seg segs s)
unfolding place_in enter
place_in-IsNew dir seg [] s =
    claim-IsNew dir s (free (taken_in dir s) seg) (λ n e. free-taken (taken_in dir s) seg n e)
place_in-IsNew dir seg (next ∷ segs) s =
    let (o, t) = enter (seg ∷ dir) s in
    refuse_or-IsNew s o t (place_in (seg ∷ dir) next segs t) (
      later-IsNew s t (place_in (seg ∷ dir) next segs t)
        (enter_as-Keeps (node_at (seg ∷ dir) (seen s)) (seg ∷ dir) s)
        (place_in-IsNew (seg ∷ dir) next segs t))

name_top-Keeps : (o : Option Bytes) (seg : Bytes) (s : Session) → Keeps s (name_top o seg s).1
unfolding name_top
name_top-Keeps none seg s = (refl, λ p h. h)
name_top-Keeps (some top) seg s = (refl, λ p h. h)

top_or_new-Keeps : (o : Option Bytes) (seg : Bytes) (s : Session) → Keeps s (top_or_new o seg s).1
unfolding top_or_new
top_or_new-Keeps (some top) seg s = (refl, λ p h. h)
top_or_new-Keeps none seg s = name_top-Keeps (free (taken_in [] s) seg) seg s

under_top-IsNew :
    (s : Session) (r : Option Bytes × Session) (next : Bytes) (segs : List Bytes)
    → Keeps s r.1
    → IsNew s (under_top r next segs)
unfolding under_top
under_top-IsNew s (none, t) next segs k = λ p q. cc
under_top-IsNew s (some top, t) next segs k =
    later-IsNew s t (place_in [] top (next ∷ segs) t) k (place_in-IsNew [] top (next ∷ segs) t)

target_of-IsNew : (o : Option (List Bytes)) (s : Session) → IsNew s (target_of o s)
unfolding target_of choose_top
target_of-IsNew none s = λ p q. cc
target_of-IsNew (some []) s = λ p q. cc
target_of-IsNew (some (seg ∷ [])) s = place_in-IsNew [] seg [] s
target_of-IsNew (some (seg ∷ (next ∷ segs))) s =
    under_top-IsNew s (choose_top seg s) next segs (top_or_new-Keeps (lookup seg s.tops) seg s)

-- The place that a received file gets is one that no file of the session was given before and where
-- Stat finds nothing, whatever the file's name is and whichever calls of Stat and Mkdir fail, and it
-- is claimed for the files that come next. Where Stat fails, something may be there.
pub target-IsNew :
    (name : Bytes) (s : Session) (p : Place)
    → (target name s).0 ≡ inr p
    → ((target name s).1.claimed ≡ p ∷ s.claimed)
      × (is_claimed p s.claimed ≡ false)
      × (node_at p (seen s) ≡ none)
unfolding target
target-IsNew name s p h = target_of-IsNew (safe_path name) s p h
