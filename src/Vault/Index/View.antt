-- ===== src/Vault/Index/View.antt =====
-- The index of internal/vault/index.go as a map from names to entries.
use shfm.Common.{
  ℕ, zero, suc, ◌+◌, ◌≡◌, refl, sym, ap, ◌∙◌, Option, none, some, List, [], ◌∷◌, ◌++◌, Bytes,
  bytes_eq, bytes_eq_iff, length, arith, if◌then◌else◌,
}
use shfm.Common.Dict.{lookup, insert, alter, lookup-alter}
use shfm.Vault.Index.{
  IndexEntry, Index, reindex_from, reindex, entry_at, set_entry, cut_entry, get_as, get, put_as,
  put_entry, remove_as, remove_name,
}

abbrev pub after_one : Option ℕ → Option ℕ
after_one none = none
after_one (some i) = some (suc i)

-- Where the first entry with the name is, and the entry.
unfoldable pub position : Bytes → List IndexEntry → Option ℕ
position n [] = none
position n (e ∷ es) = if bytes_eq e.name n then some 0 else after_one (position n es)

unfoldable pub find_entry : Bytes → List IndexEntry → Option IndexEntry
find_entry n [] = none
find_entry n (e ∷ es) = if bytes_eq e.name n then some e else find_entry n es

abbrev pub HasUniqueNames : List IndexEntry → Type 0
HasUniqueNames [] = Unit
HasUniqueNames (e ∷ es) = (position e.name es ≡ none) × HasUniqueNames es

-- No name is twice in the index, and the map gives each name its position.
abbrev pub IsIndex : Index → Type 0
IsIndex x = HasUniqueNames x.entries × ((n : Bytes) → lookup n x.by_name ≡ position n x.entries)

entry_at-position : (n : Bytes) (es : List IndexEntry) → get_as (position n es) es ≡ find_entry n es
unfolding position find_entry get_as entry_at
entry_at-position n [] = refl
entry_at-position n (e ∷ es) = ground (arith, entry_at-position n es)

position-set_entry :
    (e : IndexEntry) (i : ℕ) (es : List IndexEntry) (m : Bytes)
    → position e.name es ≡ some i
    → position m (set_entry i e es) ≡ position m es
unfolding position set_entry
position-set_entry e i [] m h = cc
position-set_entry e zero (d ∷ es) m h =
    ground (arith, bytes_eq_iff d.name e.name, bytes_eq_iff e.name m, bytes_eq_iff d.name m)
position-set_entry e (suc i) (d ∷ es) m h = ground (arith, position-set_entry e i es m)

find-set_entry :
    (e : IndexEntry) (i : ℕ) (es : List IndexEntry) (m : Bytes)
    → position e.name es ≡ some i
    → find_entry m (set_entry i e es) ≡ (if bytes_eq e.name m then some e else find_entry m es)
unfolding position set_entry find_entry
find-set_entry e i [] m h = cc
find-set_entry e zero (d ∷ es) m h =
    ground (arith, bytes_eq_iff d.name e.name, bytes_eq_iff e.name m, bytes_eq_iff d.name m)
find-set_entry e (suc i) (d ∷ es) m h = ground (
  arith,
  find-set_entry e i es m,
  bytes_eq_iff d.name e.name,
  bytes_eq_iff e.name m,
  bytes_eq_iff d.name m,
)

set_entry_unique :
    (e : IndexEntry) (i : ℕ) (es : List IndexEntry)
    → position e.name es ≡ some i
    → HasUniqueNames es
    → HasUniqueNames (set_entry i e es)
unfolding position set_entry
set_entry_unique e i [] h u = cc
set_entry_unique e zero (d ∷ es) h u = ground (arith, bytes_eq_iff d.name e.name)
set_entry_unique e (suc i) (d ∷ es) h u =
    ground (arith, position-set_entry e i es d.name, set_entry_unique e i es)

position-append :
    (e : IndexEntry) (es : List IndexEntry) (m : Bytes)
    → position e.name es ≡ none
    → position m (es ++ e ∷ []) ≡ (if bytes_eq e.name m then some (length es) else position m es)
unfolding position
position-append e [] m h = refl
position-append e (d ∷ es) m h = ground (
  arith,
  position-append e es m,
  bytes_eq_iff d.name e.name,
  bytes_eq_iff e.name m,
  bytes_eq_iff d.name m,
)

find-append :
    (e : IndexEntry) (es : List IndexEntry) (m : Bytes)
    → position e.name es ≡ none
    → find_entry m (es ++ e ∷ []) ≡ (if bytes_eq e.name m then some e else find_entry m es)
unfolding position find_entry
find-append e [] m h = refl
find-append e (d ∷ es) m h = ground (
  arith,
  find-append e es m,
  bytes_eq_iff d.name e.name,
  bytes_eq_iff e.name m,
  bytes_eq_iff d.name m,
)

append_unique :
    (e : IndexEntry) (es : List IndexEntry)
    → position e.name es ≡ none
    → HasUniqueNames es
    → HasUniqueNames (es ++ e ∷ [])
unfolding position
append_unique e [] h u = (refl, tt)
append_unique e (d ∷ es) h u = ground (
  arith,
  position-append e es d.name,
  append_unique e es,
  bytes_eq_iff d.name e.name,
  bytes_eq_iff e.name d.name,
)

find-none : (n : Bytes) (es : List IndexEntry) → position n es ≡ none → find_entry n es ≡ none
unfolding position find_entry
find-none n [] h = refl
find-none n (d ∷ es) h = ground (arith, find-none n es)

find-cut_entry :
    (n : Bytes) (i : ℕ) (es : List IndexEntry) (m : Bytes)
    → HasUniqueNames es
    → position n es ≡ some i
    → find_entry m (cut_entry i es) ≡ (if bytes_eq n m then none else find_entry m es)
unfolding position find_entry cut_entry
find-cut_entry n i [] m u h = cc
find-cut_entry n zero (d ∷ es) m u h =
    ground
      (arith, bytes_eq_iff d.name n, bytes_eq_iff d.name m, bytes_eq_iff n m, find-none d.name es)
find-cut_entry n (suc i) (d ∷ es) m u h =
    ground (
      arith,
      bytes_eq_iff d.name n,
      bytes_eq_iff d.name m,
      bytes_eq_iff n m,
      find-cut_entry n i es m,
    )

cut_entry-absent :
    (m : Bytes) (i : ℕ) (es : List IndexEntry)
    → position m es ≡ none
    → position m (cut_entry i es) ≡ none
unfolding position cut_entry
cut_entry-absent m i [] h = refl
cut_entry-absent m zero (d ∷ es) h = ground arith
cut_entry-absent m (suc i) (d ∷ es) h = ground (arith, cut_entry-absent m i es)

cut_entry_unique :
    (i : ℕ) (es : List IndexEntry) → HasUniqueNames es → HasUniqueNames (cut_entry i es)
unfolding cut_entry
cut_entry_unique i [] u = tt
cut_entry_unique zero (d ∷ es) u = u.1
cut_entry_unique (suc i) (d ∷ es) u = (cut_entry-absent d.name i es u.0, cut_entry_unique i es u.1)

abbrev shifted : ℕ → Option ℕ → Option ℕ → Option ℕ
shifted k none o = o
shifted k (some i) o = some (k + i)

lookup-reindex_from :
    (k : ℕ) (es : List IndexEntry) (acc : List (Bytes × ℕ)) (m : Bytes)
    → HasUniqueNames es
    → lookup m (reindex_from k es acc) ≡ shifted k (position m es) (lookup m acc)
unfolding reindex_from position insert
lookup-reindex_from k [] acc m u = refl
lookup-reindex_from k (e ∷ es) acc m u = ground (
  arith,
  lookup-reindex_from (suc k) es (alter (λ _. k) e.name acc) m u.1,
  lookup-alter (λ _. k) e.name m acc,
  bytes_eq_iff e.name m,
)

pub get-find_entry : (x : Index) (n : Bytes) → IsIndex x → get x n ≡ find_entry n x.entries
unfolding get
get-find_entry x n (u, h) = ap (λ o. get_as o x.entries) (h n) ∙ entry_at-position n x.entries

put_as-IsIndex :
    (o : Option ℕ) (e : IndexEntry) (x : Index)
    → lookup e.name x.by_name ≡ o
    → IsIndex x
    → IsIndex (put_as o e x)
      × ((m : Bytes)
          → find_entry m (put_as o e x).entries
            ≡ (if bytes_eq e.name m then some e else find_entry m x.entries))
unfolding put_as insert
put_as-IsIndex (some i) e x l (u, h) =
    let there : position e.name x.entries ≡ some i = sym (h e.name) ∙ l in
    (
      (
        set_entry_unique e i x.entries there u,
        λ n. h n ∙ sym (position-set_entry e i x.entries n there),
      ),
      λ m. find-set_entry e i x.entries m there,
    )
put_as-IsIndex none e x l (u, h) =
    let away : position e.name x.entries ≡ none = sym (h e.name) ∙ l in
    (
      (
        append_unique e x.entries away u,
        λ n.
            lookup-alter (λ _. length x.entries) e.name n x.by_name
            ∙ ap (λ o. if bytes_eq e.name n then some (length x.entries) else o) (h n)
            ∙ sym (position-append e x.entries n away),
      ),
      λ m. find-append e x.entries m away,
    )

-- Putting an entry keeps the names unique and the map right; the index then has the entry under
-- its name, in place of one that was there, and every other name as before.
pub put_entry-IsIndex :
    (e : IndexEntry) (x : Index)
    → IsIndex x
    → IsIndex (put_entry e x)
      × ((m : Bytes) → get (put_entry e x) m ≡ (if bytes_eq e.name m then some e else get x m))
unfolding put_entry
put_entry-IsIndex e x h =
    let o = lookup e.name x.by_name in
    let (ix, view) = put_as-IsIndex o e x refl h in
    (
      ix,
      λ m.
          get-find_entry (put_as o e x) m ix
          ∙ view m
          ∙ ap (λ t. if bytes_eq e.name m then some e else t) (sym (get-find_entry x m h)),
    )

shifted-zero : (o : Option ℕ) → shifted 0 o none ≡ o
shifted-zero none = refl
shifted-zero (some i) = ap some (omega arith)

remove_as-IsIndex :
    (o : Option ℕ) (n : Bytes) (x : Index)
    → lookup n x.by_name ≡ o
    → IsIndex x
    → IsIndex (remove_as o x)
      × ((m : Bytes)
          → find_entry m (remove_as o x).entries
            ≡ (if bytes_eq n m then none else find_entry m x.entries))
unfolding remove_as reindex lookup
remove_as-IsIndex none n x l (u, h) =
    let away : position n x.entries ≡ none = sym (h n) ∙ l in
    ((u, h), λ m. ground (arith, bytes_eq_iff n m, find-none n x.entries))
remove_as-IsIndex (some i) n x l (u, h) =
    let there : position n x.entries ≡ some i = sym (h n) ∙ l in
    let v = cut_entry_unique i x.entries u in
    (
      (
        v,
        λ k.
            lookup-reindex_from 0 (cut_entry i x.entries) [] k v
            ∙ shifted-zero (position k (cut_entry i x.entries)),
      ),
      λ m. find-cut_entry n i x.entries m u there,
    )

-- Removing a name keeps the index right; the name is gone, and every other is as before.
pub remove_name-IsIndex :
    (n : Bytes) (x : Index)
    → IsIndex x
    → IsIndex (remove_name n x)
      × ((m : Bytes) → get (remove_name n x) m ≡ (if bytes_eq n m then none else get x m))
unfolding remove_name
remove_name-IsIndex n x h =
    let o = lookup n x.by_name in
    let (ix, view) = remove_as-IsIndex o n x refl h in
    (
      ix,
      λ m.
          get-find_entry (remove_as o x) m ix
          ∙ view m
          ∙ ap (λ t. if bytes_eq n m then none else t) (sym (get-find_entry x m h)),
    )

-- An index that was read, with no name twice, has a right map after reindexing.
pub reindex-IsIndex : (x : Index) → HasUniqueNames x.entries → IsIndex (reindex x)
unfolding reindex lookup
reindex-IsIndex x u =
    (u, λ k. lookup-reindex_from 0 x.entries [] k u ∙ shifted-zero (position k x.entries))
