-- ===== src/Trash/Can/Ending.antt =====
-- The path that MoveToTrash is given, and its item, for internal/trash/trash.go.
use shfm.Common.{
  ℕ, ◌≡◌, refl, ap, ◌∙◌, Bool, true, false, ◌&&◌, not, Option, none, some, List, Bytes, drop, take,
  is_some, arith, Bool-cases, inl, inr, if◌then◌else◌, zero, suc, ◌⊎◌,
}
use shfm.Common.Dict.{lookup, insert, erase}
use shfm.Trash.Record.{info_text}
use shfm.Trash.Can.{
  Content, World, Faults, Result, some_parts, with_outside, with_files, with_infos, drop_info,
  drop_file, remove_original, copy_in, put_away, write_info_as, write_info, move_there,
  move_to_trash,
}
use shfm.Trash.Can.Moving.{new_id, lookup-insert_self, lookup-erase_self}

-- Removing all of the original, where it fails, fails before it has removed anything.
abbrev pub RemovesNothing : Option ℕ → Type 0
RemovesNothing none = Unit
RemovesNothing (some k) = k ≡ 0

nothing_removed : (o : Option ℕ) (k : ℕ) → RemovesNothing o → o ≡ some k → k ≡ 0
nothing_removed none k h e = cc
nothing_removed (some j) k h e = cc

module _ (p id : Bytes) (v : Content) (content : Bytes) where
  -- The content is in the can with its record, and no more at its path.
  pub record IsTrashed (w : World) : Type 0 where
    pub gone : lookup p w.outside ≡ none
    pub kept : lookup id w.files ≡ some v
    pub info : lookup id w.infos ≡ some content

  -- How a call ends that has the faults `f`.
  abbrev Ends : Faults → Result → Type 0
  Ends f (true, w) = IsTrashed w
  Ends f (false, w) = RemovesNothing f.removed → lookup p w.outside ≡ some v

  Ends-if :
      (f : Faults) (b : Bool) (x y : Result)
      → (b ≡ true → Ends f x)
      → Ends f y
      → Ends f (if b then x else y)
  Ends-if f true x y hx hy = hx refl
  Ends-if f false x y hx hy = hy

  drop_info-outside : (f : Faults) (w : World) → (drop_info f id w).outside ≡ w.outside
  unfolding drop_info
  drop_info-outside f w = elim (Bool-cases f.tidies) [ inl e ↦ simp e | inr e ↦ simp e ]

  drop_file-outside : (f : Faults) (w : World) → (drop_file f id w).outside ≡ w.outside
  unfolding drop_file
  drop_file-outside f w = elim (Bool-cases f.tidies) [ inl e ↦ simp e | inr e ↦ simp e ]

  rest_kept :
      (k : ℕ) (o : List (Bytes × Content))
      → k ≡ 0
      → lookup p (insert p (some_parts (drop k v.parts) v) o) ≡ some v
  rest_kept zero o h = lookup-insert_self p v o
  rest_kept (suc k) o h = absurd (omega arith)

  remove_original-Ends :
      (o : Option ℕ) (f : Faults) (w : World)
      → f.removed ≡ o
      → lookup id w.files ≡ some v
      → lookup id w.infos ≡ some content
      → Ends f (remove_original o f p v id w)
  unfolding remove_original
  remove_original-Ends none f w e hf hi = record {
    gone = lookup-erase_self p w.outside;
    kept = hf;
    info = hi;
  }
  remove_original-Ends (some k) f w e hf hi = λ r.
      let o = insert p (some_parts (drop k v.parts) v) w.outside in
      let w' = with_outside o w in
      ap (lookup p) (drop_info-outside f (drop_file f id w') ∙ drop_file-outside f w')
      ∙ rest_kept k w.outside (nothing_removed f.removed k r e)

  copy_in-Ends :
      (o : Option ℕ) (f : Faults) (w : World)
      → lookup p w.outside ≡ some v
      → lookup id w.infos ≡ some content
      → Ends f (copy_in o f p v id w)
  unfolding copy_in
  copy_in-Ends none f w hp hi =
      remove_original-Ends f.removed f (with_files (insert id v w.files) w) refl
        (lookup-insert_self id v w.files) hi
  copy_in-Ends (some k) f w hp hi = λ r.
      ap (lookup p)
        (drop_info-outside f (with_files (insert id (some_parts (take k v.parts) v) w.files) w))
      ∙ hp

  put_away-Ends :
      (f : Faults) (w : World)
      → lookup p w.outside ≡ some v
      → lookup id w.infos ≡ some content
      → Ends f (put_away f p v id w)
  unfolding put_away
  put_away-Ends f w hp hi =
      Ends-if f f.renames
        (true, record w { outside = erase p w.outside; files = insert id v w.files })
        (copy_in f.copied f p v id w)
        (λ e. record {
          gone = lookup-erase_self p w.outside;
          kept = lookup-insert_self id v w.files;
          info = hi;
        })
        (copy_in-Ends f.copied f w hp hi)

  write_info_as-Ends :
      (o : Option ℕ) (f : Faults) (w : World)
      → lookup p w.outside ≡ some v
      → Ends f (write_info_as o f p v id content w)
  unfolding write_info_as
  write_info_as-Ends none f w hp =
      put_away-Ends f (with_infos (insert id content w.infos) w) hp
        (lookup-insert_self id content w.infos)
  write_info_as-Ends (some k) f w hp = λ r. hp

  write_info-Ends :
      (f : Faults) (w : World)
      → lookup p w.outside ≡ some v
      → Ends f (write_info f p v id content w)
  unfolding write_info
  write_info-Ends f w hp =
      Ends-if f (f.opens && not (is_some (lookup id w.infos)))
        (write_info_as f.written f p v id content w) (false, w)
        (λ e. write_info_as-Ends f.written f w hp) (λ r. hp)

module _ (stamp : ℕ → Bytes) where
  move_there-Ends :
      (f : Faults) (now : ℕ) (p : Bytes) (v : Content) (w : World)
      → lookup p w.outside ≡ some v
      → Ends p (new_id p w) v (info_text stamp p now) f (move_there stamp f now p (some v) w)
  unfolding move_there
  move_there-Ends f now p v w hp =
      Ends-if p (new_id p w) v (info_text stamp p now) f f.ready
        (write_info f p v (new_id p w) (info_text stamp p now) w) (false, w)
        (λ e. write_info-Ends p (new_id p w) v (info_text stamp p now) f w hp) (λ r. hp)

  move_to_trash-Ends :
      (f : Faults) (now : ℕ) (p : Bytes) (v : Content) (w : World)
      → lookup p w.outside ≡ some v
      → Ends p (new_id p w) v (info_text stamp p now) f (move_to_trash stamp f now p w)
  unfolding move_to_trash
  move_to_trash-Ends f now p v w hp = rw hp (move_there-Ends f now p v w hp)

  -- A path is trashed or it is kept: without an error, its content is in the can under the new
  -- ID with its record and nothing is left at the path; with an error, the path has its content
  -- still, if removing it, where that is what failed, has removed nothing.
  pub move_to_trash_kept :
      (f : Faults) (now : ℕ) (p : Bytes) (v : Content) (w : World)
      → lookup p w.outside ≡ some v
      → RemovesNothing f.removed
      → let (done, w') = move_to_trash stamp f now p w in
        ((done ≡ true) × IsTrashed p (new_id p w) v (info_text stamp p now) w')
        ⊎ ((done ≡ false) × (lookup p w'.outside ≡ some v))
  move_to_trash_kept f now p v w hp hr =
      split (move_to_trash stamp f now p w) (move_to_trash-Ends f now p v w hp)
    where
      split :
          (r : Result)
          → Ends p (new_id p w) v (info_text stamp p now) f r
          → ((r.0 ≡ true) × IsTrashed p (new_id p w) v (info_text stamp p now) r.1)
            ⊎ ((r.0 ≡ false) × (lookup p r.1.outside ≡ some v))
      split (true, w') h = inl (refl, h)
      split (false, w') h = inr (refl, h hr)

  pub move_to_trash-IsTrashed :
      (f : Faults) (now : ℕ) (p : Bytes) (v : Content) (w : World)
      → lookup p w.outside ≡ some v
      → (move_to_trash stamp f now p w).0 ≡ true
      → IsTrashed p (new_id p w) v (info_text stamp p now) (move_to_trash stamp f now p w).1
  move_to_trash-IsTrashed f now p v w hp h =
      done (move_to_trash stamp f now p w) (move_to_trash-Ends f now p v w hp) h
    where
      done :
          (r : Result)
          → Ends p (new_id p w) v (info_text stamp p now) f r
          → r.0 ≡ true
          → IsTrashed p (new_id p w) v (info_text stamp p now) r.1
      done (true, w') k e = k
      done (false, w') k e = cc
