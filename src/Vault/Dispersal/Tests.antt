-- ===== src/Vault/Dispersal/Tests.antt =====
-- The split vault's storage on three empty folders, and on a file of five bytes.
use shfm.Common.{
  zero, suc, ℕ, Bool, ◌≤◌, ◌≢◌, ◌≡◌, refl, sym, ◌∙◌, inl, inr, true, false, ◌||◌, none, some, [],
  ◌∷◌, Bytes, codes, bytes_eq, bytes_eq_iff, arith, take, drop, ltb, leb, ◌-◌, length,
  if◌then◌else◌,
}
use shfm.Vault.Layout.{move_file}
use shfm.Backend.{list, Disk, create, rename, remove, read, ok, failed, refused}
use shfm.Backend.Nodes.{delete, file, find, put}
use shfm.Vault.Dispersal.Names.{b, shard_name, is_hex, is_name, parse_shard, part_of, pad_of}
use shfm.Vault.Dispersal.Names.RoundTrip.{IsGen, kind_of, parse-shard_name}
use shfm.Vault.Dispersal.Names.Sound.{parse_shard_sound}
use shfm.Vault.Dispersal.Generation.{Three, three, at, Generation, count, consistent, halves}
use shfm.Vault.Dispersal.Generation.Laws.{len_a, len_b}
use shfm.Vault.Dispersal.Xor.{shards}
use shfm.Vault.Dispersal.Reader.{limited, copy_all}
use shfm.Vault.Dispersal.Reader.Drain.{copy_all-AllGive, fresh-AllGive}
use shfm.Vault.Dispersal.Open.{open_reader, open_shard}
use shfm.Vault.Dispersal.Open.AnyTwo.{HoldsShards, copy-open_any_two}
use shfm.Vault.Dispersal.Random.{DispersedRandom, read_at}
use shfm.Vault.Dispersal.Random.Slice.{IsOpened, read_at-slice}
use shfm.Vault.Dispersal.Listing.{
  Listing, listed, list_parts, merge, lookup_entry, generation, empty_listing, is_readable,
  is_better, best,
}
use shfm.Vault.Dispersal.Listing.Best.{In, best_maximal}
use shfm.Vault.Dispersal.Writing.{
  store, connected, final_name, is_stale, remove_shards, write_stream, move_part,
}
use shfm.Vault.Dispersal.Writing.Removal.{find_on, find-remove_shards, remove_shards-gone}
use shfm.Vault.Dispersal.Writing.Failure.{IsUntouched, store-IsUntouched}
use shfm.Vault.Dispersal.Writing.Success.{HoldsAll, store-HoldsAll}
use shfm.Vault.Dispersal.Writing.ReadBack.{reached_parts}
use shfm.Vault.Dispersal.Writing.Reopened.{HasOnly, open_file-stored}
use shfm.Vault.Dispersal.Generation.Laws.{IsWrite}
use shfm.Vault.Dispersal.Opening.{listing_for, open_file, copy_opened}
use shfm.Vault.Dispersal.Renaming.{rename_shards}
use shfm.Vault.Dispersal.Renaming.Back.{IsFair, AllBack}
use shfm.Vault.Dispersal.Renaming.Moved.{AllMoved, AllElse, rename_shards-AllMoved}
use shfm.Common.Dict.{alter, lookup}
use shfm.Vault.Dispersal.Removing.{reply, remove_entry}
use shfm.Vault.Dispersal.Removing.Gone.{remove_entry-gone}
use shfm.Vault.Dispersal.Repair.{rebuild, asked}
use shfm.Vault.Dispersal.Repair.Rebuilt.{AllWhole, rebuild-AllWhole}

abbrev name : Bytes
name = codes "f"

abbrev gen : Bytes
gen = codes "0123abcd"

abbrev content : Bytes
content = codes "hello"

abbrev empty_disk : Disk
empty_disk = record { nodes = []; script = []; sized = false; clock = 0 }

abbrev disks : Three Disk
disks = three empty_disk empty_disk empty_disk

-- the third part refuses every call of the write
abbrev bad_disks : Three Disk
bad_disks = three empty_disk empty_disk (record empty_disk { script = refused ∷ [] })

gen-IsGen : IsGen gen
unfolding is_hex
gen-IsGen = record {
  len = refl;
  hex = (refl, (refl, (refl, (refl, (refl, (refl, (refl, (refl, tt))))))));
}

stored : (store name gen content disks).0 ≡ ok
unfolding store create move_file rename find put bytes_eq
stored = refl

not_stored : (store name gen content bad_disks).0 ≡ failed
unfolding store create
not_stored = refl

store-HoldsAll_example : HoldsAll name gen content (store name gen content disks).1
store-HoldsAll_example = store-HoldsAll name gen content gen-IsGen disks stored

store-IsUntouched_example :
    IsUntouched name gen content bad_disks (store name gen content bad_disks).1
store-IsUntouched_example =
    store-IsUntouched name gen content bad_disks
      (λ e. let f : failed ≡ ok = sym not_stored ∙ e in cc f)

-- two shards on their parts, and an empty third part
abbrev with_shard : ℕ → Disk
with_shard i = record empty_disk {
  nodes = (final_name name gen content i, file (at i (shards content)) 0) ∷ [];
}

abbrev two_disks : Three Disk
two_disks = three (with_shard 0) (with_shard 1) empty_disk

abbrev two_shards : Generation
two_shards = record {
  gen = gen;
  have = three true true false;
  size = three 3 2 0;
  pad = 0;
  mtime = 0;
}

two-IsWrite : IsWrite (length content) two_shards
two-IsWrite = record { size_a = λ e. refl; size_b = λ e. refl; size_c = λ e. cc; padding = λ e. cc }

two_counted : 2 ≤ count two_shards
unfolding count
two_counted = omega arith

two-HoldsShards : HoldsShards (connected two_disks) name content two_shards
unfolding open_shard read find bytes_eq shard_name
two-HoldsShards = record { shard_a = λ e. refl; shard_b = λ e. refl; shard_c = λ e. cc }

copy-open_any_two_example :
    copy_all 6 4 (open_reader (connected two_disks) name two_shards) [] ≡ some content
copy-open_any_two_example =
    copy-open_any_two (connected two_disks) name content two_shards two-IsWrite two_counted
      two-HoldsShards 6 4 (omega arith) (omega arith)

copy_all-AllGive_example :
    copy_all 6 2 (record { steps = some (limited content 5) ∷ []; cur = none }) [] ≡ some content
copy_all-AllGive_example =
    copy_all-AllGive 6 2 (record { steps = some (limited content 5) ∷ []; cur = none }) content []
      (omega arith) (omega arith)
      (fresh-AllGive (some (limited content 5) ∷ []) content (content, [], refl, refl, refl))

two-is_readable : is_readable two_shards ≡ true
unfolding is_readable consistent count
two-is_readable = refl

best_maximal_example :
    (b : Generation) × (best ((gen, two_shards) ∷ []) ≡ some b)
    × In b ((gen, two_shards) ∷ [])
    × (is_readable b ≡ true)
    × (is_better two_shards b ≡ false)
best_maximal_example = best_maximal ((gen, two_shards) ∷ []) two_shards (inl refl) two-is_readable

-- opened without B
abbrev opened : DispersedRandom
opened = record {
  len_a = len_a (length content);
  len_b = len_b (length content);
  shard = three (some (shards content).p0) none (some (shards content).p2);
}

opened-IsOpened : IsOpened opened content
opened-IsOpened = record {
  size_a = refl;
  size_b = refl;
  half_a = inl refl;
  half_b = inr (refl, refl, refl);
}

read_at-slice_example :
    read_at opened 3 1
    ≡ some (take 3 (drop 1 content), leb (length content) 1 || ltb (length content - 1) 3)
read_at-slice_example = read_at-slice opened content opened-IsOpened 3 1

parse-shard_name_example :
    parse_shard (shard_name name gen 2 1)
    ≡ (if is_name name then some (name, gen, kind_of 2 1) else none)
parse-shard_name_example = parse-shard_name name gen 2 1 gen-IsGen (omega arith)

parsed : parse_shard (codes "f.0123abcd.b") ≡ some (name, gen, b)
unfolding parse_shard
parsed = refl

parse_shard_sound_example :
    (codes "f.0123abcd.b" ≡ shard_name name gen (part_of b) (pad_of b))
    × (is_name name ≡ true)
    × IsGen gen
parse_shard_sound_example = parse_shard_sound (codes "f.0123abcd.b") name gen b parsed

-- a part with a shard of an older write
abbrev old_shard : Bytes
old_shard = codes "f.89abcdef.a"

abbrev old_listing : Listing
old_listing = record empty_listing { raw = three (old_shard ∷ []) [] [] }

abbrev old_disks : Three Disk
old_disks = record disks {
  p0 = record empty_disk { nodes = (old_shard, file (codes "hel") 0) ∷ [] };
}

is_old : is_stale name gen old_shard ≡ true
unfolding is_stale parse_shard bytes_eq
is_old = refl

is_kept : is_stale name gen (codes "g.89abcdef.a") ≡ false
unfolding is_stale parse_shard bytes_eq
is_kept = refl

old_removed : (remove_shards old_listing name gen (connected old_disks)).0 ≡ ok
unfolding remove_shards is_stale parse_shard bytes_eq remove find
old_removed = refl

remove_shards-gone_example :
    find_on old_shard (remove_shards old_listing name gen (connected old_disks)).1.p0 ≡ none
remove_shards-gone_example =
    remove_shards-gone name gen old_listing (connected old_disks) 0 old_shard (inl refl) is_old
      old_removed

find-remove_shards_example :
    find_on (codes "g.89abcdef.a") (remove_shards old_listing name gen (connected old_disks)).1.p0
    ≡ find_on (codes "g.89abcdef.a") (some old_disks.p0)
find-remove_shards_example =
    find-remove_shards name gen old_listing (connected old_disks) 0 (codes "g.89abcdef.a") is_kept

apart_by : (s t : Bytes) → bytes_eq s t ≡ false → s ≢ t
apart_by s t h e = ground (arith, bytes_eq_iff s t)

names_differ : name ≢ codes "g"
unfolding bytes_eq
names_differ = apart_by name (codes "g") refl

rename_shards-AllMoved_example :
    let (r, es) = rename_shards name (codes "g") two_shards two_disks in
    (r ≡ ok → AllMoved name (codes "g") two_shards two_disks es)
    × (r ≢ ok
        → IsFair two_disks.p0 × IsFair two_disks.p1 × IsFair two_disks.p2
        → AllBack name (codes "g") two_shards two_disks es)
    × AllElse name (codes "g") two_shards two_disks es
rename_shards-AllMoved_example =
    rename_shards-AllMoved name (codes "g") two_shards names_differ two_disks

-- both shards get their new names
renamed : (rename_shards name (codes "g") two_shards two_disks).0 ≡ ok
unfolding rename_shards rename find put bytes_eq shard_name
renamed = refl

-- the listing of the two shards
abbrev listing_two : Listing
listing_two = record {
  listed = 3;
  dirs = [];
  files = (name, (gen, two_shards) ∷ []) ∷ [];
  raw = three (final_name name gen content 0 ∷ []) (final_name name gen content 1 ∷ []) [];
}

two_listed : (list_parts (connected two_disks)).0 ≡ listed listing_two
unfolding list_parts list merge alter bytes_eq shard_name parse_shard shards
two_listed = refl

two_found : lookup_entry listing_two name ≡ generation two_shards
unfolding lookup_entry lookup bytes_eq best count consistent
two_found = refl

rebuilt : (rebuild name two_shards none 6 4 two_disks).0 ≡ ok
unfolding rebuild create move_file rename find put bytes_eq open_shard read shard_name shards halves
    write_stream move_part list_parts list lookup_entry lookup parse_shard alter count consistent
    copy_all open_reader asked
rebuilt = refl

two_asked-HoldsShards :
    HoldsShards (listing_for none (connected two_disks)).1 name content two_shards
unfolding open_shard read find bytes_eq shard_name listing_for list_parts list
two_asked-HoldsShards = record { shard_a = λ e. refl; shard_b = λ e. refl; shard_c = λ e. cc }

two_looked_up : (listing_for none (connected two_disks)).0 ≡ listed listing_two
unfolding listing_for
two_looked_up = two_listed

rebuild-AllWhole_example :
    AllWhole name two_shards content gen-IsGen two_disks
      (rebuild name two_shards none 6 4 two_disks).1
rebuild-AllWhole_example =
    rebuild-AllWhole name two_shards content gen-IsGen two_disks none listing_two two_shards 6 4
      two_looked_up two_found two-IsWrite two_asked-HoldsShards (omega arith) (omega arith) rebuilt

-- the third part is away after the write
abbrev without_third : Three Bool
without_third = three true true false

stored_listed :
    (listing_for none (reached_parts without_third (store name gen content disks).1)).0
    ≡ listed (record listing_two { listed = 2 })
unfolding listing_for list_parts store create move_file rename find put bytes_eq list delete
    remove_shards is_stale parse_shard shard_name alter shards
stored_listed = refl

stored_found : lookup_entry (record listing_two { listed = 2 }) name ≡ generation two_shards
unfolding lookup_entry lookup bytes_eq count consistent
stored_found = refl

stored_only : (i : ℕ) → HasOnly name gen content i (at i (store name gen content disks).1)
unfolding store create move_file rename find put bytes_eq list delete remove_shards is_stale
    parse_shard shard_name alter shards list_parts
stored_only zero = (λ e. (refl, refl, refl), tt)
stored_only (suc zero) = (λ e. (refl, refl, refl), tt)
stored_only (suc (suc i)) = (λ e. (refl, refl, refl), tt)

name-is_name : is_name name ≡ true
unfolding is_name
name-is_name = refl

open_file-stored_example :
    copy_opened 6 2
      (open_file none name (reached_parts without_third (store name gen content disks).1))
    ≡ some content
open_file-stored_example =
    open_file-stored name gen content disks without_third 6 2 gen-IsGen name-is_name stored
      (stored_only 0) (stored_only 1) (stored_only 2) (omega arith) (omega arith) (omega arith)

two_stale : is_stale name [] (final_name name gen content 0) ≡ true
unfolding is_stale parse_shard bytes_eq shard_name
two_stale = refl

two_removed : (remove_entry name two_disks).0 ≡ reply ok
unfolding remove_entry list_parts list merge alter lookup_entry lookup best count consistent
    remove_shards is_stale parse_shard bytes_eq shard_name remove find shards
two_removed = refl

remove_entry-gone_example :
    find_on (final_name name gen content 0) (remove_entry name two_disks).1.p0 ≡ none
remove_entry-gone_example =
    remove_entry-gone name two_disks listing_two two_shards 0 (final_name name gen content 0)
      two_listed two_found refl two_stale two_removed
