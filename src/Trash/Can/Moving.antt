-- ===== src/Trash/Can/Moving.antt =====
-- What MoveToTrash leaves, on success and on every error, for internal/trash/trash.go.
use shfm.Common.{
  ℕ, ◌≡◌, ◌≢◌, refl, Bool, true, false, ◌&&◌, not, Option, none, some, List, Bytes, drop, take,
  is_some, Bool-cases, inl, inr, bytes_eq-ne, bytes_eq_refl, if◌then◌else◌,
}
use shfm.Common.Dict.{lookup, insert, erase, lookup-alter, lookup-erase}
use shfm.Trash.Record.{info_text}
use shfm.Trash.Can.{
  Content, World, Faults, Result, some_parts, with_outside, with_files, with_infos, drop_info,
  drop_file, remove_original, copy_in, put_away, write_info_as, write_info, move_there,
  move_to_trash, free_id, base_name,
}
use shfm.Trash.Can.FreeName.{free_id_free}

module _ {V : Type 0} where
  -- The maps differ at `k` at most.
  abbrev pub Near : Bytes → List (Bytes × V) → List (Bytes × V) → Type 0
  Near k m m' = (j : Bytes) → k ≢ j → lookup j m' ≡ lookup j m

  Near-insert :
      (k : Bytes) (v : V) (m m' : List (Bytes × V)) → Near k m m' → Near k m (insert k v m')
  unfolding insert
  Near-insert k v m m' h j ne = rw (lookup-alter (λ _. v) k j m') (rw (bytes_eq-ne k j ne) (h j ne))

  Near-erase : (k : Bytes) (m m' : List (Bytes × V)) → Near k m m' → Near k m (erase k m')
  Near-erase k m m' h j ne = rw (lookup-erase k j m') (rw (bytes_eq-ne k j ne) (h j ne))

  pub lookup-insert_self :
      (k : Bytes) (v : V) (m : List (Bytes × V)) → lookup k (insert k v m) ≡ some v
  unfolding insert
  lookup-insert_self k v m = rw (lookup-alter (λ _. v) k k m) (rw (bytes_eq_refl k) refl)

  pub lookup-erase_self : (k : Bytes) (m : List (Bytes × V)) → lookup k (erase k m) ≡ none
  lookup-erase_self k m = rw (lookup-erase k k m) (rw (bytes_eq_refl k) refl)

-- Outside the worlds differ at `p` at most, and in the can at `id`.
pub record IsNear (p id : Bytes) (w w' : World) : Type 0 where
  pub outs : Near p w.outside w'.outside
  pub contents : Near id w.files w'.files
  pub records : Near id w.infos w'.infos

module _ (p id : Bytes) (w₀ : World) where
  out-IsNear :
      (o : List (Bytes × Content)) (w : World)
      → Near p w₀.outside o
      → IsNear p id w₀ w
      → IsNear p id w₀ (with_outside o w)
  out-IsNear o w h n = record { outs = h; contents = n.contents; records = n.records }

  files-IsNear :
      (m : List (Bytes × Content)) (w : World)
      → Near id w₀.files m
      → IsNear p id w₀ w
      → IsNear p id w₀ (with_files m w)
  files-IsNear m w h n = record { outs = n.outs; contents = h; records = n.records }

  infos-IsNear :
      (m : List (Bytes × Bytes)) (w : World)
      → Near id w₀.infos m
      → IsNear p id w₀ w
      → IsNear p id w₀ (with_infos m w)
  infos-IsNear m w h n = record { outs = n.outs; contents = n.contents; records = h }

  drop_info-IsNear : (f : Faults) (w : World) → IsNear p id w₀ w → IsNear p id w₀ (drop_info f id w)
  unfolding drop_info
  drop_info-IsNear f w n = elim (Bool-cases f.tidies) [
    | inl e ↦ rw e (infos-IsNear (erase id w.infos) w (Near-erase id w₀.infos w.infos n.records) n)
    | inr e ↦ rw e n
  ]

  drop_file-IsNear : (f : Faults) (w : World) → IsNear p id w₀ w → IsNear p id w₀ (drop_file f id w)
  unfolding drop_file
  drop_file-IsNear f w n = elim (Bool-cases f.tidies) [
    | inl e ↦ rw e (files-IsNear (erase id w.files) w (Near-erase id w₀.files w.files n.contents) n)
    | inr e ↦ rw e n
  ]

  remove_original-IsNear :
      (o : Option ℕ) (f : Faults) (v : Content) (w : World)
      → IsNear p id w₀ w
      → IsNear p id w₀ (remove_original o f p v id w).1
  unfolding remove_original
  remove_original-IsNear none f v w n =
      out-IsNear (erase p w.outside) w (Near-erase p w₀.outside w.outside n.outs) n
  remove_original-IsNear (some k) f v w n =
      let o = insert p (some_parts (drop k v.parts) v) w.outside in
      drop_info-IsNear f (drop_file f id (with_outside o w)) (
        drop_file-IsNear f (with_outside o w) (
          out-IsNear o w (Near-insert p (some_parts (drop k v.parts) v) w₀.outside w.outside n.outs)
            n))

  copy_in-IsNear :
      (o : Option ℕ) (f : Faults) (v : Content) (w : World)
      → IsNear p id w₀ w
      → IsNear p id w₀ (copy_in o f p v id w).1
  unfolding copy_in
  copy_in-IsNear none f v w n =
      remove_original-IsNear f.removed f v (with_files (insert id v w.files) w)
        (files-IsNear (insert id v w.files) w (Near-insert id v w₀.files w.files n.contents) n)
  copy_in-IsNear (some k) f v w n =
      let t = some_parts (take k v.parts) v in
      drop_info-IsNear f (with_files (insert id t w.files) w)
        (files-IsNear (insert id t w.files) w (Near-insert id t w₀.files w.files n.contents) n)

  if-IsNear :
      (b : Bool) (x y : Result)
      → IsNear p id w₀ x.1
      → IsNear p id w₀ y.1
      → IsNear p id w₀ (if b then x else y).1
  if-IsNear true x y hx hy = hx
  if-IsNear false x y hx hy = hy

  put_away-IsNear :
      (f : Faults) (v : Content) (w : World)
      → IsNear p id w₀ w
      → IsNear p id w₀ (put_away f p v id w).1
  unfolding put_away
  put_away-IsNear f v w n =
      if-IsNear f.renames
        (true, record w { outside = erase p w.outside; files = insert id v w.files })
        (copy_in f.copied f p v id w)
        (out-IsNear (erase p w.outside) (with_files (insert id v w.files) w)
          (Near-erase p w₀.outside w.outside n.outs)
          (files-IsNear (insert id v w.files) w (Near-insert id v w₀.files w.files n.contents) n))
        (copy_in-IsNear f.copied f v w n)

  write_info_as-IsNear :
      (o : Option ℕ) (f : Faults) (v : Content) (content : Bytes) (w : World)
      → IsNear p id w₀ w
      → IsNear p id w₀ (write_info_as o f p v id content w).1
  unfolding write_info_as
  write_info_as-IsNear none f v content w n =
      put_away-IsNear f v (with_infos (insert id content w.infos) w) (
        infos-IsNear (insert id content w.infos) w
          (Near-insert id content w₀.infos w.infos n.records) n)
  write_info_as-IsNear (some k) f v content w n =
      infos-IsNear (insert id (take k content) w.infos) w
        (Near-insert id (take k content) w₀.infos w.infos n.records) n

  IsNear-refl : IsNear p id w₀ w₀
  IsNear-refl = record { outs = λ j ne. refl; contents = λ j ne. refl; records = λ j ne. refl }

  write_info-IsNear :
      (f : Faults) (v : Content) (content : Bytes)
      → IsNear p id w₀ (write_info f p v id content w₀).1
  unfolding write_info
  write_info-IsNear f v content =
      if-IsNear (f.opens && not (is_some (lookup id w₀.infos)))
        (write_info_as f.written f p v id content w₀) (false, w₀)
        (write_info_as-IsNear f.written f v content w₀ IsNear-refl) IsNear-refl

-- The ID that the item gets.
abbrev pub new_id : Bytes → World → Bytes
new_id p w = free_id w.files (base_name p)

module _ (stamp : ℕ → Bytes) where
  move_there-IsNear :
      (f : Faults) (now : ℕ) (p : Bytes) (o : Option Content) (w : World)
      → IsNear p (new_id p w) w (move_there stamp f now p o w).1
  unfolding move_there
  move_there-IsNear f now p none w = IsNear-refl p (new_id p w) w
  move_there-IsNear f now p (some v) w =
      if-IsNear p (new_id p w) w f.ready (write_info f p v (new_id p w) (info_text stamp p now) w)
        (false, w) (write_info-IsNear p (new_id p w) w f v (info_text stamp p now))
        (IsNear-refl p (new_id p w) w)

  -- Whatever fails, trashing a path changes nothing but that path and the item it makes: its ID
  -- is one that files/ did not have.
  pub move_to_trash-IsNear :
      (f : Faults) (now : ℕ) (p : Bytes) (w : World)
      → (lookup (new_id p w) w.files ≡ none)
        × IsNear p (new_id p w) w (move_to_trash stamp f now p w).1
  unfolding move_to_trash
  move_to_trash-IsNear f now p w =
      (free_id_free w.files (base_name p), move_there-IsNear f now p (lookup p w.outside) w)
