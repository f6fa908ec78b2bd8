-- ===== src/Vault/Dispersal/Listing.antt =====
-- list and lookup: a dispersed folder, merged from the listings of its parts. The two-second cache
-- of listings is not modelled: every listing here is fresh.
pub mod Best
pub mod Raw
pub mod Ours
pub mod Stored
use shfm.Common.{
  ℕ, zero, suc, ◌+◌, Bool, true, false, ◌&&◌, ◌||◌, not, Option, none, some, List, [], ◌∷◌, ◌++◌,
  Bytes, ◌==◌, ltb, leb, max, length, if◌then◌else◌,
}
use shfm.Common.Dict.{lookup, alter}
use shfm.Backend.{Disk, list}
use shfm.Backend.Nodes.{Node, file, folder}
use shfm.Vault.Dispersal.Names.{Kind, c1, part_of, parse_shard, pad_of}
use shfm.Vault.Dispersal.Generation.{Three, three, at, set_at, Generation, count, consistent}
use shfm.Vault.Dispersal.Open.{Parts}

abbrev pub Gens : Type 0
Gens = List (Bytes × Generation)

-- How many parts have a folder, and its latest modification.
pub record DirInfo : Type 0 where
  pub parts_with : ℕ
  pub dtime : ℕ

pub record Listing : Type 0 where
  pub listed : ℕ
  pub dirs : List (Bytes × DirInfo)
  pub files : List (Bytes × Gens)
  pub raw : Three (List Bytes)

abbrev pub empty_listing : Listing
empty_listing = record { listed = 0; dirs = []; files = []; raw = three [] [] [] }

abbrev new_generation : Bytes → Generation
new_generation gen = record {
  gen = gen;
  have = three false false false;
  size = three 0 0 0;
  pad = 0;
  mtime = 0;
}

abbrev pub generation_or_new : Bytes → Option Generation → Generation
generation_or_new gen none = new_generation gen
generation_or_new gen (some g) = g

abbrev gens_or_new : Option Gens → Gens
gens_or_new none = []
gens_or_new (some m) = m

-- A shard of kind `k` and `n` bytes is found on part `i`.
pub mark : ℕ → Kind → ℕ → ℕ → Generation → Generation
mark i k n t g = record g {
  have = set_at i true g.have;
  size = set_at i n g.size;
  pad = elim k [ c1 ↦ 1 | _ ↦ g.pad ];
  mtime = max g.mtime t;
}

add_dir : ℕ → Option DirInfo → DirInfo
add_dir t none = record { parts_with = 1; dtime = t }
add_dir t (some d) = record { parts_with = d.parts_with + 1; dtime = max d.dtime t }

-- What a file named like a shard adds; on the wrong part it is none of ours.
pub add_shard :
    ℕ → Option (Bytes × Bytes × Kind) → ℕ → ℕ → List (Bytes × Gens) → List (Bytes × Gens)
unfolding mark
add_shard i none n t files = files
add_shard i (some (name, gen, k)) n t files =
    if part_of k == i
    then alter (λ m. alter (λ g. mark i k n t (generation_or_new gen g)) gen (gens_or_new m)) name
        files
    else files

pub add_file : ℕ → Bytes → Bytes → ℕ → List (Bytes × Gens) → List (Bytes × Gens)
unfolding add_shard
add_file i n c t files = add_shard i (parse_shard n) (length c) t files

-- One entry of part `i`'s listing.
unfoldable pub add_entry : ℕ → Bytes × Node → Listing → Listing
unfolding add_file add_dir
add_entry i (n, folder t) l = record l {
  raw = set_at i (at i l.raw ++ n ∷ []) l.raw;
  dirs = alter (add_dir t) n l.dirs;
}
add_entry i (n, file c t) l = record l {
  raw = set_at i (at i l.raw ++ n ∷ []) l.raw;
  files = add_file i n c t l.files;
}

unfoldable pub add_entries : ℕ → List (Bytes × Node) → Listing → Listing
unfolding add_entry
add_entries i [] l = l
add_entries i (e ∷ es) l = add_entries i es (add_entry i e l)

-- Why a part has no listing: it is not connected, or its backend failed.
pub data ListError : Type 0 where
  unavailable backend_failed : ListError

pub data Answer : Type 0 where
  entries : List (Bytes × Node) → Answer
  no_answer : ListError → Answer

-- Each connected part is asked, all at once; the parts share no state.
unfoldable pub ask_part : Option Disk → Answer × Option Disk
ask_part none = (no_answer unavailable, none)
ask_part (some d) =
    let (r, d') = list d in
    (elim r [ none ↦ no_answer backend_failed | some m ↦ entries m ], some d')

add_error : ListError → Option ListError → Option ListError
add_error e none = some e
add_error e (some unavailable) = some e
add_error e (some backend_failed) = some backend_failed

unfoldable pub add_answer : ℕ → Answer → Listing × Option ListError → Listing × Option ListError
unfolding add_error add_entries
add_answer i (no_answer e) (l, first) = (l, add_error e first)
add_answer i (entries m) (l, first) = (add_entries i m (record l { listed = l.listed + 1 }), first)

unfoldable pub merge : Three Answer → Listing × Option ListError
unfolding add_answer
merge a = add_answer 2 a.p2 (add_answer 1 a.p1 (add_answer 0 a.p0 (empty_listing, none)))

pub data Listed : Type 0 where
  listed : Listing → Listed
  not_listed : Option ListError → Listed

-- At least two parts must answer.
unfoldable pub enough : Listing × Option ListError → Listed
enough (l, first) = if ltb l.listed 2 then not_listed first else listed l

unfoldable pub list_parts : Parts → Listed × Parts
unfolding ask_part merge enough
list_parts p =
    let (a0, d0) = ask_part p.p0 in
    let (a1, d1) = ask_part p.p1 in
    let (a2, d2) = ask_part p.p2 in (enough (merge (three a0 a1 a2)), three d0 d1 d2)

unfoldable pub is_readable : Generation → Bool
is_readable g = not (ltb (count g) 2) && consistent g

-- `g.count() > b.count()`, or as many shards and a later modification
pub is_better : Generation → Generation → Bool
is_better g b = ltb (count b) (count g) || count g == count b && ltb b.mtime g.mtime

pub choose : Generation → Option Generation → Option Generation
unfolding is_better is_readable
choose g none = if is_readable g then some g else none
choose g (some b) = if is_readable g && is_better g b then some g else some b

pub best_loop : Gens → Option Generation → Option Generation
unfolding choose
best_loop [] b = b
best_loop ((k, g) ∷ m) b = best_loop m (choose g b)

-- The generation that is read: none if no generation is readable.
unfoldable pub best : Gens → Option Generation
unfolding best_loop
best m = best_loop m none

-- What lookup finds: a folder, a file's generation, or nothing.
pub data Found : Type 0 where
  dir : Found
  generation : Generation → Found
  nothing : Found

unfoldable pub best_found : Option Generation → Found
best_found none = nothing
best_found (some g) = generation g

unfoldable pub found_file : Option Gens → Found
unfolding best_found best
found_file none = nothing
found_file (some m) = best_found (best m)

unfoldable pub found_dir : Option DirInfo → Bool
found_dir none = false
found_dir (some d) = leb 2 d.parts_with

unfoldable pub lookup_entry : Listing → Bytes → Found
unfolding found_file found_dir
lookup_entry l name =
    if found_dir (lookup name l.dirs) then dir else found_file (lookup name l.files)
