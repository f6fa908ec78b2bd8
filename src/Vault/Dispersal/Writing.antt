-- ===== src/Vault/Dispersal/Writing.antt =====
-- store, writeStream and removeShards of internal/vault/dispersal.go: files written to and removed from
-- the three parts, all connected. What is written is spooled first, so that the content is known as a
-- whole when the shards are made. The three writes at once share no state and are one after another.
pub mod Removal
pub mod Failure
pub mod Success
pub mod ReadBack
pub mod Reopened
use shfm.Common.{
  ℕ, zero, suc, ◌+◌, Bool, true, false, ◌&&◌, not, Option, none, some, List, [], ◌∷◌, ◌++◌, Bytes,
  codes, bytes_eq, length, if◌then◌else◌,
}
use shfm.Backend.{
  Disk, M, pure, ◌>>=◌, ◌>>◌, Reply, ok, failed, not_supported, Written, written, not_opened,
  broken, create, remove,
}
use shfm.Vault.Store.{remove_if_exists}
use shfm.Vault.Layout.{move_file}
use shfm.Vault.Dispersal.Names.{Kind, shard_name, parse_shard}
use shfm.Vault.Dispersal.Generation.{Three, three, at, set_at}
use shfm.Vault.Dispersal.Generation.Laws.{pad_for}
use shfm.Vault.Dispersal.Xor.{shards}
use shfm.Vault.Dispersal.Open.{Parts}
use shfm.Vault.Dispersal.Listing.{
  Listing, Listed, listed, not_listed, list_parts, Found, dir, generation, nothing, lookup_entry,
}

abbrev pub shard_temp : Bytes
shard_temp = codes ".shfm-split-"

abbrev pub temp_name : Bytes → ℕ → Bytes
temp_name gen i = shard_temp ++ (gen ++ (48 + i) ∷ [])

-- The name and the generation of a shard are `name`, and not `keep`.
is_stale_as : Bytes → Bytes → Option (Bytes × Bytes × Kind) → Bool
is_stale_as name keep none = false
is_stale_as name keep (some (n, gen, k)) = bytes_eq n name && not (bytes_eq gen keep)

unfoldable pub is_stale : Bytes → Bytes → Bytes → Bool
unfolding is_stale_as
is_stale name keep raw = is_stale_as name keep (parse_shard raw)

abbrev pub first_error : Reply → Reply → Reply
first_error ok r = r
first_error failed r = failed
first_error not_supported r = not_supported

remove_if : Bool → Bytes → M Reply
remove_if true raw = remove raw
remove_if false raw = pure ok

pub remove_names : Bytes → Bytes → List Bytes → Reply → M Reply
unfolding remove_if
remove_names name keep [] first = pure first
remove_names name keep (raw ∷ rs) first = do
  r ← remove_if (is_stale name keep raw) raw
  remove_names name keep rs (first_error first r)

pub remove_on : Bytes → Bytes → List Bytes → Reply → Option Disk → Reply × Option Disk
unfolding remove_names
remove_on name keep raws first none = (first, none)
remove_on name keep raws first (some d) =
    let (r, d') = remove_names name keep raws first d in (r, some d')

-- Every shard of the file of a generation other than `keep` goes; the first error is returned.
unfoldable pub remove_shards : Listing → Bytes → Bytes → Parts → Reply × Parts
unfolding remove_on
remove_shards l name keep p =
    let (r0, d0) = remove_on name keep l.raw.p0 ok p.p0 in
    let (r1, d1) = remove_on name keep l.raw.p1 r0 p.p1 in
    let (r2, d2) = remove_on name keep l.raw.p2 r1 p.p2 in (r2, three d0 d1 d2)

abbrev reply_of : Written → Reply
reply_of written = ok
reply_of not_opened = failed
reply_of broken = failed

unfoldable pub write_stream : Bytes → Bytes → M Reply
write_stream p c = do w ← create p c; pure (reply_of w)

abbrev pub connected : Three Disk → Parts
connected ds = three (some ds.p0) (some ds.p1) (some ds.p2)

module _ (name gen c : Bytes) where
  abbrev pub final_name : ℕ → Bytes
  final_name i = shard_name name gen i (pad_for (length c))

  pub write_temps : Three Disk → Three Reply × Three Disk
  unfolding write_stream
  write_temps ds =
      let (r0, d0) = write_stream (temp_name gen 0) (shards c).p0 ds.p0 in
      let (r1, d1) = write_stream (temp_name gen 1) (shards c).p1 ds.p1 in
      let (r2, d2) = write_stream (temp_name gen 2) (shards c).p2 ds.p2 in
      (three r0 r1 r2, three d0 d1 d2)

  pub clean_part : ℕ → Disk → Disk
  clean_part i d = ((do remove_if_exists (temp_name gen i); remove_if_exists (final_name i)) d).1

  pub clean_up : Three Disk → Parts
  unfolding clean_part
  clean_up ds = connected (three (clean_part 0 ds.p0) (clean_part 1 ds.p1) (clean_part 2 ds.p2))

  -- Generations other than the new one are removed, if the parts can be listed.
  tidy_as : Listed → Parts → Parts
  tidy_as (listed l) p = (remove_shards l name gen p).1
  tidy_as (not_listed e) p = p

  pub tidy : Three Disk → Parts
  unfolding tidy_as
  tidy ds = let (l, p) = list_parts (connected ds) in tidy_as l p

  unfoldable pub move_part : ℕ → M Reply
  move_part i = move_file (temp_name gen i) (final_name i)

  after_third : Reply → Three Disk → Reply × Parts
  unfolding clean_up tidy
  after_third ok ds = (ok, tidy ds)
  after_third failed ds = (failed, clean_up ds)
  after_third not_supported ds = (failed, clean_up ds)

  after_second : Reply → Three Disk → Reply × Parts
  unfolding after_third move_part
  after_second ok ds = let (r, d) = move_part 2 ds.p2 in after_third r (three ds.p0 ds.p1 d)
  after_second failed ds = (failed, clean_up ds)
  after_second not_supported ds = (failed, clean_up ds)

  after_first : Reply → Three Disk → Reply × Parts
  unfolding after_second
  after_first ok ds = let (r, d) = move_part 1 ds.p1 in after_second r (three ds.p0 d ds.p2)
  after_first failed ds = (failed, clean_up ds)
  after_first not_supported ds = (failed, clean_up ds)

  pub move_parts : Three Disk → Reply × Parts
  unfolding after_first
  move_parts ds = let (r, d) = move_part 0 ds.p0 in after_first r (three d ds.p1 ds.p2)

  -- The first part whose shard could not be written ends it.
  pub after_temps : Three Reply → Three Disk → Reply × Parts
  unfolding move_parts
  after_temps r ds = elim r.p0 [
    | ok ↦ elim r.p1 [
      | ok ↦ elim r.p2 [ ok ↦ move_parts ds | _ ↦ (failed, clean_up ds) ]
      | _ ↦ (failed, clean_up ds)
    ]
    | _ ↦ (failed, clean_up ds)
  ]

  -- `gen` is the new generation's random name.
  unfoldable pub store : Three Disk → Reply × Parts
  unfolding write_temps after_temps
  store ds = let (r, ds') = write_temps ds in after_temps r ds'
