-- ===== src/Vault/Layout/Indexed/Sorted.antt =====
-- The sorted entries of a sealed index, for sealIndex of internal/vault/index.go.
use shfm.Common.{
  ℕ, ◌≡◌, refl, sym, ap, ◌∙◌, Bool, false, ◌||◌, Option, none, some, List, [], ◌∷◌, Bytes, bytes_eq,
  bytes_eq_iff, is_some, arith, if◌then◌else◌, Bool-cases, inl, inr,
}
use shfm.Mirror.Plan.{str_ltb}
use shfm.Vault.Index.{IndexEntry}
use shfm.Vault.Index.View.{find_entry, position, HasUniqueNames, after_one}
use shfm.Vault.Layout.Indexed.{insert_entry, sort_entries}

-- whether a name is among the entries, here or further on
has_name : Bytes → List IndexEntry → Bool
has_name n [] = false
has_name n (e ∷ es) = bytes_eq e.name n || has_name n es

has_name-position : (n : Bytes) (es : List IndexEntry) → is_some (position n es) ≡ has_name n es
unfolding position has_name
has_name-position n [] = refl
has_name-position n (e ∷ es) = elim (Bool-cases (bytes_eq e.name n)) [
  | inl q ↦ rw q refl
  | inr q ↦ rw q (later (position n es) ∙ has_name-position n es)
]
  where
    later : (o : Option ℕ) → is_some (after_one o) ≡ is_some o
    later none = refl
    later (some i) = refl

has_name-insert_entry :
    (n : Bytes) (e : IndexEntry) (es : List IndexEntry)
    → has_name n (insert_entry e es) ≡ (bytes_eq e.name n || has_name n es)
unfolding has_name insert_entry
has_name-insert_entry n e [] = refl
has_name-insert_entry n e (d ∷ es) = elim (Bool-cases (str_ltb d.name e.name)) [
  | inl q ↦ rw q (ground (arith, has_name-insert_entry n e es))
  | inr q ↦ rw q refl
]

no_name : (n : Bytes) (es : List IndexEntry) → position n es ≡ none → has_name n es ≡ false
no_name n es h = sym (has_name-position n es) ∙ ap is_some h

no_position : (n : Bytes) (es : List IndexEntry) → has_name n es ≡ false → position n es ≡ none
no_position n es h = empty (position n es) (has_name-position n es ∙ h)
  where
    empty : (o : Option ℕ) → is_some o ≡ false → o ≡ none
    empty none e = refl
    empty (some i) e = cc

find-insert_entry :
    (m : Bytes) (e : IndexEntry) (es : List IndexEntry)
    → has_name e.name es ≡ false
    → find_entry m (insert_entry e es) ≡ (if bytes_eq e.name m then some e else find_entry m es)
unfolding has_name insert_entry find_entry
find-insert_entry m e [] h = refl
find-insert_entry m e (d ∷ es) h = elim (Bool-cases (str_ltb d.name e.name)) [
  | inl q ↦ rw q (
      ground (
        arith,
        find-insert_entry m e es,
        bytes_eq_iff d.name m,
        bytes_eq_iff e.name m,
        bytes_eq_iff d.name e.name,
      ))
  | inr q ↦ rw q refl
]

insert_entry_unique :
    (e : IndexEntry) (es : List IndexEntry)
    → has_name e.name es ≡ false
    → HasUniqueNames es
    → HasUniqueNames (insert_entry e es)
unfolding has_name insert_entry
insert_entry_unique e [] h u = (no_position e.name [] (unfold has_name in refl), tt)
insert_entry_unique e (d ∷ es) h u = elim (Bool-cases (str_ltb d.name e.name)) [
  | inl q ↦ rw q (
    no_position d.name (insert_entry e es) (
        ground (
          arith,
          has_name-insert_entry d.name e es,
          no_name d.name es u.0,
          bytes_eq_iff d.name e.name,
          bytes_eq_iff e.name d.name,
        )),
    insert_entry_unique e es (ground arith) u.1,
  )
  | inr q ↦ rw q (no_position e.name (d ∷ es) (unfold has_name in h), u)
]

has_name-sort_entries :
    (n : Bytes) (es : List IndexEntry) → has_name n (sort_entries es) ≡ has_name n es
unfolding sort_entries has_name
has_name-sort_entries n [] = refl
has_name-sort_entries n (e ∷ es) =
    has_name-insert_entry n e (sort_entries es)
    ∙ ap (λ b. bytes_eq e.name n || b) (has_name-sort_entries n es)

pub sort_entries_unique :
    (es : List IndexEntry) → HasUniqueNames es → HasUniqueNames (sort_entries es)
unfolding sort_entries
sort_entries_unique [] u = tt
sort_entries_unique (e ∷ es) u =
    insert_entry_unique e (sort_entries es)
      (has_name-sort_entries e.name es ∙ no_name e.name es u.0) (sort_entries_unique es u.1)

-- Sorting changes no lookup.
pub find-sort_entries :
    (m : Bytes) (es : List IndexEntry)
    → HasUniqueNames es
    → find_entry m (sort_entries es) ≡ find_entry m es
unfolding sort_entries find_entry
find-sort_entries m [] u = refl
find-sort_entries m (e ∷ es) u =
    find-insert_entry m e (sort_entries es)
      (has_name-sort_entries e.name es ∙ no_name e.name es u.0)
    ∙ ap (λ o. if bytes_eq e.name m then some e else o) (find-sort_entries m es u.1)
