-- ===== src/Trash/Can/Restoring.antt =====
-- Restore after MoveToTrash, for internal/trash/trash.go.
use shfm.Common.{
  ℕ, ◌≡◌, refl, sym, ap, ◌∙◌, Bool, true, false, ◌&&◌, not, none, some, List, [], ◌∷◌, Bytes,
  is_some, arith, Bool-cases, inl, inr, if◌then◌else◌, ◌⊎◌, bytes_eq, bytes_eq_iff,
}
use shfm.Common.Dict.{lookup, insert, erase, lookup-alter, lookup-erase}
use shfm.Common.Utf8.{valid_string, both}
use shfm.Trash.Record.{info_text}
use shfm.Trash.Record.ReadBack.{IsLine, read-info_text}
use shfm.Trash.Can.{
  Content, World, Faults, Result, Item, is_empty, write_info_as, write_info, move_there,
  move_to_trash, item_of, items_of, list_root, finish_restore, put_back, copy_out, remove_trashed,
  restore,
}
use shfm.Trash.Can.FreeName.{not_some}
use shfm.Trash.Can.Moving.{new_id, Near, IsNear, move_to_trash-IsNear}
use shfm.Trash.Can.Ending.{move_to_trash-IsTrashed}

-- No call of Restore fails; the rename may be refused, since a copy stands in for it.
pub record IsFine (g : Faults) : Type 0 where
  pub makes : g.makes ≡ true
  pub copied : g.copied ≡ none
  pub removed : g.removed ≡ none
  pub unlinks : g.unlinks ≡ true
  pub flushes : g.flushes ≡ true

abbrev restored : Item → Content → World → World
restored it v w = record w {
  outside = insert it.original_path v w.outside;
  files = erase it.id w.files;
  infos = erase it.id w.infos;
  folders = it.original_path ∷ w.folders;
}

finish_restore_done :
    (g : Faults) (it : Item) (w : World)
    → IsFine g
    → is_some (lookup it.id w.infos) ≡ true
    → finish_restore g it w ≡ (true, record w { infos = erase it.id w.infos })
unfolding finish_restore
finish_restore_done g it w h e = simp (h.unlinks, h.flushes, e)

put_back_done :
    (g : Faults) (it : Item) (v : Content) (w : World)
    → IsFine g
    → is_some (lookup it.id w.infos) ≡ true
    → put_back (some v) g it w ≡ (
      true,
      record w {
        outside = insert it.original_path v w.outside;
        files = erase it.id w.files;
        infos = erase it.id w.infos;
      },
    )
unfolding put_back copy_out remove_trashed
put_back_done g it v w h e =
    let w' = record w {
      outside = insert it.original_path v w.outside;
      files = erase it.id w.files;
    } in
    elim (Bool-cases g.renames) [
      | inl r ↦ simp (r, finish_restore_done g it w' h e)
      | inr r ↦ simp (r, h.copied, h.removed, finish_restore_done g it w' h e)
    ]

restore_done :
    (g : Faults) (it : Item) (v : Content) (w : World)
    → IsFine g
    → is_empty it.original_path ≡ false
    → lookup it.original_path w.outside ≡ none
    → lookup it.id w.files ≡ some v
    → is_some (lookup it.id w.infos) ≡ true
    → restore g it w ≡ (true, restored it v w)
unfolding restore
restore_done g it v w h ne free there e =
    let w' = record w { folders = it.original_path ∷ w.folders } in
    simp (ne, free, h.makes, there, put_back_done g it v w' h e)

-- Every lookup gives the same.
abbrev pub SameMap : {V : Type 0} → List (Bytes × V) → List (Bytes × V) → Type 0
SameMap m m' = (j : Bytes) → lookup j m' ≡ lookup j m

module _ {V : Type 0} where
  insert-SameMap :
      (k : Bytes) (v : V) (m m' : List (Bytes × V))
      → Near k m m'
      → lookup k m ≡ some v
      → SameMap m (insert k v m')
  unfolding insert
  insert-SameMap k v m m' near e j =
      rw (lookup-alter (λ _. v) k j m') (elim (Bool-cases (bytes_eq k j)) [
        | inl q ↦ rw q (sym (ap (λ i. lookup i m) (sym ((bytes_eq_iff k j).0 q)) ∙ e))
        | inr q ↦ rw q (near j (λ r. ground (arith, bytes_eq_iff k j)))
      ])

  erase-SameMap :
      (k : Bytes) (m m' : List (Bytes × V))
      → Near k m m'
      → lookup k m ≡ none
      → SameMap m (erase k m')
  erase-SameMap k m m' near e j = rw (lookup-erase k j m') (elim (Bool-cases (bytes_eq k j)) [
    | inl q ↦ rw q (sym (ap (λ i. lookup i m) (sym ((bytes_eq_iff k j).0 q)) ∙ e))
    | inr q ↦ rw q (near j (λ r. ground (arith, bytes_eq_iff k j)))
  ])

if_done : (b : Bool) (x : Result) (w : World) → (if b then x else (false, w)).0 ≡ true → b ≡ true
if_done true x w h = refl
if_done false x w h = h

then_done :
    (b : Bool) (x : Result) (w : World) → (if b then x else (false, w)).0 ≡ true → x.0 ≡ true
then_done true x w h = h
then_done false x w h = cc

write_info_new :
    (f : Faults) (p : Bytes) (v : Content) (id content : Bytes) (w : World)
    → (write_info f p v id content w).0 ≡ true
    → lookup id w.infos ≡ none
unfolding write_info
write_info_new f p v id content w h =
    let taken = is_some (lookup id w.infos) in
    not_some (lookup id w.infos) (
      negated taken
        (both (if_done (f.opens && not taken) (write_info_as f.written f p v id content w) w h)).1)
  where
    negated : (b : Bool) → not b ≡ true → b ≡ false
    negated true e = cc
    negated false e = refl

-- `it` is in the listing.
abbrev pub IsListed : Item → List Item → Type 0
IsListed it [] = ⊥
IsListed it (i ∷ items) = (i ≡ it) ⊎ IsListed it items

module _ (time_of : Bytes → ℕ) where
  item_of-IsListed :
      (id content : Bytes) (infos : List (Bytes × Bytes)) (files : List (Bytes × Content))
      → lookup id infos ≡ some content
      → IsListed (item_of time_of id content files) (items_of time_of infos files)
  unfolding items_of lookup
  item_of-IsListed id content [] files h = cc
  item_of-IsListed id content ((j, c) ∷ infos) files h = elim (Bool-cases (bytes_eq j id)) [
    | inl q ↦ inl (named j c ((bytes_eq_iff j id).0 q) (head_is c content (bytes_eq j id) q h))
    | inr q ↦ inr (item_of-IsListed id content infos files (tail_is c (bytes_eq j id) q h))
  ]
    where
      named :
          (j c : Bytes)
          → j ≡ id
          → c ≡ content
          → item_of time_of j c files ≡ item_of time_of id content files
      named j c hj hc = cc

      head_is :
          (c d : Bytes) (b : Bool)
          → b ≡ true
          → (if b then some c else lookup id infos) ≡ some d
          → c ≡ d
      head_is c d true e h = cc
      head_is c d false e h = cc

      tail_is :
          (c : Bytes) (b : Bool)
          → b ≡ false
          → (if b then some c else lookup id infos) ≡ some content
          → lookup id infos ≡ some content
      tail_is c true e h = cc
      tail_is c false e h = h

-- Two worlds with the same content outside the can and in it.
pub record IsSame (w w' : World) : Type 0 where
  pub outs : SameMap w.outside w'.outside
  pub contents : SameMap w.files w'.files
  pub records : SameMap w.infos w'.infos

module _ (stamp : ℕ → Bytes) (time_of : Bytes → ℕ) where
  move_to_trash_new :
      (f : Faults) (now : ℕ) (p : Bytes) (v : Content) (w : World)
      → lookup p w.outside ≡ some v
      → (move_to_trash stamp f now p w).0 ≡ true
      → lookup (new_id p w) w.infos ≡ none
  unfolding move_to_trash move_there
  move_to_trash_new f now p v w hp = rw hp (λ h.
      write_info_new f p v (new_id p w) (info_text stamp p now) w
        (then_done f.ready (write_info f p v (new_id p w) (info_text stamp p now) w) w h))

  restored-IsSame :
      (p : Bytes) (v : Content) (w w' : World) (it : Item)
      → it.original_path ≡ p
      → it.id ≡ new_id p w
      → lookup p w.outside ≡ some v
      → lookup (new_id p w) w.files ≡ none
      → lookup (new_id p w) w.infos ≡ none
      → IsNear p (new_id p w) w w'
      → IsSame w (restored it v w')
  restored-IsSame p v w w' it hq hi hp hf hn near = rw hq (
      rw hi (record {
        outs = insert-SameMap p v w.outside w'.outside near.outs hp;
        contents = erase-SameMap (new_id p w) w.files w'.files near.contents hf;
        records = erase-SameMap (new_id p w) w.infos w'.infos near.records hn;
      }))

  -- Restoring an item that was just trashed takes it all back: the listing of the can has the
  -- item, restoring it succeeds, and every lookup outside and in the can gives what it gave. The
  -- path is valid UTF-8, its date is read back from its text, and no call of Restore fails.
  pub restore-move_to_trash :
      (f g : Faults) (now : ℕ) (p : Bytes) (v : Content) (w : World)
      → lookup p w.outside ≡ some v
      → (move_to_trash stamp f now p w).0 ≡ true
      → valid_string p ≡ true
      → is_empty p ≡ false
      → IsLine (stamp now)
      → time_of (stamp now) ≡ now
      → IsFine g
      → let w' = (move_to_trash stamp f now p w).1 in
        let it = item_of time_of (new_id p w) (info_text stamp p now) w'.files in
        IsListed it (list_root time_of w')
        × (((restore g it w').0 ≡ true) × IsSame w (restore g it w').1)
  unfolding list_root item_of
  restore-move_to_trash f g now p v w hp h valid ne line date fine =
      let w' = (move_to_trash stamp f now p w).1 in
      let content = info_text stamp p now in
      let it = item_of time_of (new_id p w) content w'.files in
      let trashed = move_to_trash-IsTrashed stamp f now p v w hp h in
      let path = ap (λ i. i.original_path) (read-info_text stamp time_of p now valid line date) in
      let near = move_to_trash-IsNear stamp f now p w in
      let back =
        restore_done g it v w' fine (ap is_empty path ∙ ne)
          (ap (λ q. lookup q w'.outside) path ∙ trashed.gone) trashed.kept
          (ap is_some trashed.info) in
      (
        item_of-IsListed time_of (new_id p w) content w'.infos w'.files trashed.info,
        (
          ap (λ r. r.0) back,
          rw back (
              restored-IsSame p v w w' it path refl hp near.0 (move_to_trash_new f now p v w hp h)
                near.1),
        ),
      )
