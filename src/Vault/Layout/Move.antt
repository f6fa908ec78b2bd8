-- ===== src/Vault/Layout/Move.antt =====
-- The folder after moveFile of internal/vault/layout.go.
use mathlib.Core.Path.{subst}
use shfm.Common.{◌≡◌, ◌≢◌, refl, sym, ap, ◌∙◌, Bool, true, false, Option, none, some, Bytes}
use shfm.Backend.{Disk, ok, Written, written, not_opened, broken, read, create, rename}
use shfm.Backend.Nodes.{find}
use shfm.Backend.Frame.{
  nodes-stat, nodes-read, read-eq_some, find-create_ne, find-create_written, find-remove_ne,
  find-rename_ne, find-rename_ok, nodes-rename_unsupported,
}
use shfm.Backend.Rules.{Ensures-if_unsupported}
use shfm.Vault.Store.Replace.{find-remove_if_exists_ne, Holds}
use shfm.Vault.Layout.{after_copy, ask_size, create_copy, copy_file, move_file}

module _ (from to : Bytes) where
  module _ (k : Bytes) (nf : from ≢ k) (nt : to ≢ k) where
    after_copy_ne :
        (w : Written) (d : Disk) → find k (after_copy w from to d).1.nodes ≡ find k d.nodes
    unfolding after_copy
    after_copy_ne written d = find-remove_ne from d k nf
    after_copy_ne not_opened d = refl
    after_copy_ne broken d = find-remove_if_exists_ne to d k nt

    create_copy_ne :
        (b : Bool) (c : Bytes) (d : Disk)
        → find k (create_copy b c from to d).1.nodes ≡ find k d.nodes
    unfolding create_copy
    create_copy_ne false c d = refl
    create_copy_ne true c d =
        after_copy_ne (create to c d).0 (create to c d).1 ∙ find-create_ne to c d k nt

    nodes-ask_size : (b : Bool) (d : Disk) → (ask_size b from d).1.nodes ≡ d.nodes
    unfolding ask_size
    nodes-ask_size true d = nodes-stat from d
    nodes-ask_size false d = refl

    copy_file_ne :
        (o : Option Bytes) (d : Disk) → find k (copy_file o from to d).1.nodes ≡ find k d.nodes
    unfolding copy_file
    copy_file_ne none d = refl
    copy_file_ne (some c) d =
        create_copy_ne (ask_size d.sized from d).0 c (ask_size d.sized from d).1
        ∙ ap (find k) (nodes-ask_size d.sized d)

    -- A name that is neither the old nor the new one keeps its node.
    pub find-move_file_ne : (d : Disk) → find k (move_file from to d).1.nodes ≡ find k d.nodes
    unfolding move_file
    find-move_file_ne d =
        let d1 = (rename from to d).1 in
        let same = find-rename_ne from to d k nf nt in
        Ensures-if_unsupported (λ r e. find k e.nodes ≡ find k d.nodes) _ (rename from to d).0 d1
          (λ _.
            copy_file_ne (read from d1).0 (read from d1).1
            ∙ ap (find k) (nodes-read from d1)
            ∙ same)
          (λ _. same)

  module _ (c : Bytes) (ne : from ≢ to) where
    after_copy_ok :
        (w : Written) (d : Disk)
        → (w ≡ written → Holds to c d)
        → (after_copy w from to d).0 ≡ ok
        → Holds to c (after_copy w from to d).1
    unfolding after_copy
    after_copy_ok written d h e = let (t, p) = h refl in (t, find-remove_ne from d to ne ∙ p)
    after_copy_ok not_opened d h e = cc
    after_copy_ok broken d h e = cc

    create_copy_ok :
        (b : Bool) (d : Disk)
        → (create_copy b c from to d).0 ≡ ok
        → Holds to c (create_copy b c from to d).1
    unfolding create_copy
    create_copy_ok false d e = cc
    create_copy_ok true d e =
        after_copy_ok (create to c d).0 (create to c d).1
          (λ w. (d.clock, find-create_written to c d w)) e

    copy_file_ok :
        (o : Option Bytes) (d : Disk)
        → ((b : Bytes) → o ≡ some b → b ≡ c)
        → (copy_file o from to d).0 ≡ ok
        → Holds to c (copy_file o from to d).1
    unfolding copy_file
    copy_file_ok none d same e = cc
    copy_file_ok (some b) d same e =
        let known = (ask_size d.sized from d).0 in
        let d1 = (ask_size d.sized from d).1 in
        let q = same b refl in
        subst (λ t. Holds to c (create_copy known t from to d1).1) (sym q)
          (create_copy_ok known d1 (subst (λ t. (create_copy known t from to d1).0 ≡ ok) q e))

    read_back : (d : Disk) (b : Bytes) → Holds from c d → (read from d).0 ≡ some b → b ≡ c
    read_back d b (t, h) e = let (u, g) = read-eq_some from d b e in cc (h, g)

    -- A move that succeeds leaves the file's content under the new name.
    pub move_file_ok :
        (d : Disk)
        → Holds from c d
        → (move_file from to d).0 ≡ ok
        → Holds to c (move_file from to d).1
    unfolding move_file
    move_file_ok d (t, h) =
        let d1 = (rename from to d).1 in
        Ensures-if_unsupported (λ r e. r ≡ ok → Holds to c e) _ (rename from to d).0 d1
          (λ u.
            let h1 : Holds from c d1 =
              (t, ap (find from) (nodes-rename_unsupported from to d u) ∙ h) in
            copy_file_ok (read from d1).0 (read from d1).1 (λ b. read_back d1 b h1))
          (λ _ done. (t, find-rename_ok from to d done ∙ h))
