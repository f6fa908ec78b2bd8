-- ===== src/Vault/Layout/Plain/Writes.antt =====
-- Writing a file of a plain vault, for plainLayout of internal/vault/layout.go and the writer of
-- internal/vault/cryptfs.go.
use shfm.Common.{
  ◌++◌, ◌≡◌, ◌≢◌, refl, sym, ap, ◌∙◌, Bool, true, false, Option, none, some, Bytes, codes,
  has_prefix, if◌then◌else◌, [], ◌∷◌, arith,
}
use shfm.Backend.{
  Disk, M, Reply, ok, failed, not_supported, Written, written, not_opened, broken, pure, ◌>>=◌,
  stat, create,
}
use shfm.Backend.Nodes.{Node, find}
use shfm.Backend.Frame.{nodes-stat, find-create_ne, find-create_written}
use shfm.Vault.Store.{remove_if_exists}
use shfm.Vault.Store.Replace.{find-remove_if_exists_ne, Holds}
use shfm.Vault.Layout.{move_file}
use shfm.Vault.Layout.Move.{find-move_file_ne, move_file_ok}
use shfm.Vault.Layout.Names.{
  PlainLayout, Done, check, blob_path, temp_blob, temp_prefix, age, is_locked, vault_signature,
  backend, vault_in_vault, is_directory,
}
use shfm.Vault.Layout.Plain.{
  done_of, then_do, branch, if_none, if_live, begin_write, commit, abort, abort_if, after_create,
  write_plain, is_folder, signature_clash, clash_with,
}
use shfm.Vault.Layout.Names.Listed.{check-IsStored, prefix-age}

-- The call leaves every node as it was.
abbrev Reads : {A : Type 0} → M A → Type 0
Reads m = (d : Disk) → (m d).1.nodes ≡ d.nodes

stat_then :
    {A : Type 0} (n : Bytes) (k : Option Node → M A)
    → ((o : Option Node) → Reads (k o))
    → Reads (stat n >>= k)
stat_then n k h d = h (stat n d).0 (stat n d).1 ∙ nodes-stat n d

branch-Reads : (b : Bool) (m k : M Done) → Reads m → Reads k → Reads (branch b m k)
branch-Reads true m k hm hk d = hm d
branch-Reads false m k hm hk d = hk d

module _ (l : PlainLayout) where
  clash_with-Reads : (o : Option Bytes) → Reads (clash_with l o)
  unfolding clash_with
  clash_with-Reads none d = refl
  clash_with-Reads (some other) d = nodes-stat (blob_path other) d

  if_none-Reads : (o : Done) (m : M Done) → Reads m → Reads (if_none l o m)
  if_none-Reads none m h d = h d
  if_none-Reads (some e) m h d = refl

  if_live-Reads : (m : M Done) → Reads m → Reads (if_live l m)
  if_live-Reads m h d = live l.locked
    where
      live : (b : Bool) → (if b then (some is_locked, d) else m d).1.nodes ≡ d.nodes
      live true = refl
      live false = h d

  abbrev refuse_clash : Bool → Done
  refuse_clash clash = if clash then some vault_in_vault else none

  abbrev then_clash : Bytes → M Done
  then_clash n = do clash ← signature_clash l n; pure (refuse_clash clash)

  abbrev after_stat : Bytes → Option Node → M Done
  after_stat n o = branch (is_folder o) (pure (some is_directory)) (then_clash n)

  then_clash-Reads : (n : Bytes) → Reads (then_clash n)
  unfolding signature_clash
  then_clash-Reads n d = clash_with-Reads (vault_signature n) d

  begin_write-Reads : (n : Bytes) → Reads (begin_write l n)
  unfolding begin_write
  begin_write-Reads n = if_live-Reads (if_none l (check l n false) (stat n >>= after_stat n)) (
      if_none-Reads (check l n false) (stat n >>= after_stat n) (
        stat_then n (after_stat n) (λ o.
          branch-Reads (is_folder o) (pure (some is_directory)) (then_clash n) (λ d. refl)
            (then_clash-Reads n))))

  if_none-passed : (o : Done) (m : M Done) (d : Disk) → (if_none l o m d).0 ≡ none → o ≡ none
  if_none-passed none m d h = refl
  if_none-passed (some e) m d h = cc

  begin_write-check : (n : Bytes) (d : Disk) → (begin_write l n d).0 ≡ none → check l n false ≡ none
  unfolding begin_write
  begin_write-check n d h = live l.locked h
    where
      live :
          (b : Bool)
          → (if b
              then (some is_locked, d)
              else if_none l (check l n false) (stat n >>= after_stat n) d).0
            ≡ none
          → check l n false ≡ none
      live true e = cc
      live false e = if_none-passed (check l n false) (stat n >>= after_stat n) d e

-- The new file's name while it is written is not its name then.
has_prefix_self : (p s : Bytes) → has_prefix (p ++ s) p ≡ true
unfolding has_prefix
has_prefix_self [] [] = refl
has_prefix_self [] (c ∷ s) = refl
has_prefix_self (c ∷ p) s = ground (arith, has_prefix_self p s)

clash : (s t : Bytes) → has_prefix s temp_prefix ≡ true → has_prefix t temp_prefix ≡ false → s ≢ t
clash s t h k e = cc

temp_blob-ne :
    (l : PlainLayout) (id n : Bytes) → check l n false ≡ none → temp_blob id ≢ blob_path n
unfolding temp_blob blob_path
temp_blob-ne l id n h =
    let s = check-IsStored l n false h in
    clash (temp_prefix ++ (id ++ codes ".part")) (n ++ age)
      (has_prefix_self temp_prefix (id ++ codes ".part")) (prefix-age n s.named s.no_temp)

done_ok : (r : Reply) → done_of r ≡ none → r ≡ ok
done_ok ok h = refl
done_ok failed h = cc
done_ok not_supported h = cc

module _ (l : PlainLayout) (id n c : Bytes) (ne : temp_blob id ≢ blob_path n) where
  abbrev tmp : Bytes
  tmp = temp_blob id

  abbrev final : Bytes
  final = blob_path n

  then_move-Holds :
      (r : Reply) (d : Disk)
      → Holds tmp c d
      → (then_do r (move_file tmp final) d).0 ≡ none
      → Holds final c (then_do r (move_file tmp final) d).1
  then_move-Holds ok d h e = move_file_ok tmp final c ne d h (done_ok (move_file tmp final d).0 e)
  then_move-Holds failed d h e = cc
  then_move-Holds not_supported d h e = cc

  commit-Holds :
      (d : Disk) → Holds tmp c d → (commit l id n d).0 ≡ none → Holds final c (commit l id n d).1
  unfolding commit
  commit-Holds d (t, h) =
      then_move-Holds (remove_if_exists final d).0 (remove_if_exists final d).1
        (t, find-remove_if_exists_ne final d tmp (λ e. ne (sym e)) ∙ h)

  abort_if-Holds :
      (o : Done) (d : Disk)
      → (o ≡ none → Holds final c d)
      → (abort_if l id o d).0 ≡ none
      → Holds final c (abort_if l id o d).1
  unfolding abort_if
  abort_if-Holds none d h e = h refl
  abort_if-Holds (some f) d h e = cc

  after_create-Holds :
      (w : Written) (d : Disk)
      → (w ≡ written → Holds tmp c d)
      → (after_create l w id n d).0 ≡ none
      → Holds final c (after_create l w id n d).1
  unfolding after_create
  after_create-Holds written d h e =
      abort_if-Holds (commit l id n d).0 (commit l id n d).1 (commit-Holds d (h refl)) e
  after_create-Holds not_opened d h e = cc
  after_create-Holds broken d h e = abort_if-Holds (some (backend failed)) d (λ q. cc) e

  abbrev create_new : M Done
  create_new = do w ← create tmp c; after_create l w id n

  create_new-Holds :
      (o : Done) (d : Disk)
      → (if_none l o create_new d).0 ≡ none
      → Holds final c (if_none l o create_new d).1
  create_new-Holds none d e =
      after_create-Holds (create tmp c d).0 (create tmp c d).1
        (λ w. (d.clock, find-create_written tmp c d w)) e
  create_new-Holds (some f) d e = cc

module _ (l : PlainLayout) (id n c : Bytes) where
  abbrev then_create : M Done
  then_create = do w ← create (temp_blob id) c; after_create l w id n

  -- A file that was written without an error has the content that was written, whatever the
  -- backend did in between.
  pub write_plain-Holds :
      (d : Disk)
      → (write_plain l id n c d).0 ≡ none
      → Holds (blob_path n) c (write_plain l id n c d).1
  unfolding write_plain
  write_plain-Holds d h =
      let o = (begin_write l n d).0 in
      let d1 = (begin_write l n d).1 in
      let free = begin_write-check l n d (if_none-passed l o then_create d1 h) in
      create_new-Holds l id n c (temp_blob-ne l id n free) o d1 h

  module _ (k : Bytes) (nt : temp_blob id ≢ k) (nf : blob_path n ≢ k) where
    abbrev Keeps : M Done → Type 0
    Keeps m = (d : Disk) → find k (m d).1.nodes ≡ find k d.nodes

    then_move_ne : (r : Reply) → Keeps (then_do r (move_file (temp_blob id) (blob_path n)))
    then_move_ne ok d = find-move_file_ne (temp_blob id) (blob_path n) k nt nf d
    then_move_ne failed d = refl
    then_move_ne not_supported d = refl

    commit_ne : Keeps (commit l id n)
    unfolding commit
    commit_ne d =
        then_move_ne (remove_if_exists (blob_path n) d).0 (remove_if_exists (blob_path n) d).1
        ∙ find-remove_if_exists_ne (blob_path n) d k nf

    abort_if_ne : (o : Done) → Keeps (abort_if l id o)
    unfolding abort_if abort
    abort_if_ne none d = refl
    abort_if_ne (some f) d = find-remove_if_exists_ne (temp_blob id) d k nt

    after_create_ne : (w : Written) → Keeps (after_create l w id n)
    unfolding after_create
    after_create_ne written d = abort_if_ne (commit l id n d).0 (commit l id n d).1 ∙ commit_ne d
    after_create_ne not_opened d = refl
    after_create_ne broken d = abort_if_ne (some (backend failed)) d

    if_none_ne : (o : Done) → Keeps (if_none l o then_create)
    if_none_ne none d =
        after_create_ne (create (temp_blob id) c d).0 (create (temp_blob id) c d).1
        ∙ find-create_ne (temp_blob id) c d k nt
    if_none_ne (some f) d = refl

    -- Writing a file changes no name of the folder but the file's own and that of the new
    -- temporary file, whatever fails.
    write_plain_ne : Keeps (write_plain l id n c)
    unfolding write_plain
    write_plain_ne d =
        if_none_ne (begin_write l n d).0 (begin_write l n d).1
        ∙ ap (find k) (begin_write-Reads l n d)
