-- ===== src/Mirror/Plan/Order.antt =====
-- sortedKeys and isDeleted of internal/mirror/generic.go: the order of the plan.
use mathlib.Core.Path.{subst}
use shfm.Common.{
  ◌≡◌, refl, sym, ap, ◌∙◌, inl, inr, true, false, ◌||◌, List, [], ◌∷◌, ◌++◌, append_assoc,
  append-nil, Bytes, bytes_eq, bytes_eq_iff, arith, Bool-cases, All, Among, is_some,
}
use shfm.Common.Dict.{lookup}
use shfm.Mirror.Tree.{Entry, Tree, unknown}
use shfm.Mirror.Plan.{str_ltb, insert_key, sorted_keys, is_deleted, delete_loop, must_delete, under}

str_ltb_irrefl : (x : Bytes) → str_ltb x x ≡ false
unfolding str_ltb
str_ltb_irrefl [] = refl
str_ltb_irrefl (c ∷ x) = ground (arith, str_ltb_irrefl x)

str_ltb_asym : (x y : Bytes) → str_ltb x y ≡ true → str_ltb y x ≡ false
unfolding str_ltb
str_ltb_asym [] [] h = cc
str_ltb_asym [] (d ∷ y) h = refl
str_ltb_asym (c ∷ x) [] h = cc
str_ltb_asym (c ∷ x) (d ∷ y) h = ground (arith, str_ltb_asym x y)

str_ltb_connex : (x y : Bytes) → str_ltb x y ≡ false → str_ltb y x ≡ false → x ≡ y
unfolding str_ltb
str_ltb_connex [] [] h k = refl
str_ltb_connex [] (d ∷ y) h k = cc
str_ltb_connex (c ∷ x) [] h k = cc
str_ltb_connex (c ∷ x) (d ∷ y) h k =
    let q : c ≡ d = ground arith in
    let r : x ≡ y = str_ltb_connex x y (ground arith) (ground arith) in cc

-- not being below goes through
str_leb_trans : (x y z : Bytes) → str_ltb y x ≡ false → str_ltb z y ≡ false → str_ltb z x ≡ false
unfolding str_ltb
str_leb_trans [] y z h k = refl
str_leb_trans (c ∷ x) [] z h k = cc
str_leb_trans (c ∷ x) (d ∷ y) [] h k = cc
str_leb_trans (c ∷ x) (d ∷ y) (e ∷ z) h k = ground (arith, str_leb_trans x y z)

abbrev pub IsSorted : List Bytes → Type 0
IsSorted [] = Unit
IsSorted (k ∷ ks) = All (λ x. str_ltb x k ≡ false) ks × IsSorted ks

All-leb :
    (j k : Bytes) (ks : List Bytes)
    → str_ltb k j ≡ false
    → All (λ x. str_ltb x k ≡ false) ks
    → All (λ x. str_ltb x j ≡ false) ks
All-leb j k [] h a = tt
All-leb j k (x ∷ ks) h (p, a) = (str_leb_trans j k x h p, All-leb j k ks h a)

All-insert_key :
    (k j : Bytes) (ks : List Bytes)
    → str_ltb k j ≡ false
    → All (λ x. str_ltb x j ≡ false) ks
    → All (λ x. str_ltb x j ≡ false) (insert_key k ks)
unfolding insert_key
All-insert_key k j [] h a = (h, tt)
All-insert_key k j (x ∷ ks) h (p, a) = elim (Bool-cases (str_ltb x k)) [
  | inl e ↦ rw e (p, All-insert_key k j ks h a)
  | inr e ↦ rw e (h, (p, a))
]

insert_key-IsSorted : (k : Bytes) (ks : List Bytes) → IsSorted ks → IsSorted (insert_key k ks)
unfolding insert_key
insert_key-IsSorted k [] s = (tt, tt)
insert_key-IsSorted k (x ∷ ks) (a, s) = elim (Bool-cases (str_ltb x k)) [
  | inl e ↦ rw e (All-insert_key k x ks (str_ltb_asym x k e) a, insert_key-IsSorted k ks s)
  | inr e ↦ rw e ((e, All-leb k x ks e a), (a, s))
]

pub sorted_keys-IsSorted : (m : List (Bytes × Entry)) → IsSorted (sorted_keys m)
unfolding sorted_keys
sorted_keys-IsSorted [] = tt
sorted_keys-IsSorted ((k, v) ∷ m) = insert_key-IsSorted k (sorted_keys m) (sorted_keys-IsSorted m)

Among-insert_key_self : (k : Bytes) (ks : List Bytes) → Among k (insert_key k ks)
unfolding insert_key
Among-insert_key_self k [] = inl refl
Among-insert_key_self k (x ∷ ks) = elim (Bool-cases (str_ltb x k)) [
  | inl e ↦ rw e (inr (Among-insert_key_self k ks))
  | inr e ↦ rw e (inl refl)
]

Among-insert_key : (k j : Bytes) (ks : List Bytes) → Among j ks → Among j (insert_key k ks)
unfolding insert_key
Among-insert_key k j [] i = absurd i
Among-insert_key k j (x ∷ ks) i = elim (Bool-cases (str_ltb x k)) [
  | inl e ↦ rw e (elim i [ inl q ↦ inl q | inr i' ↦ inr (Among-insert_key k j ks i') ])
  | inr e ↦ rw e (inr i)
]

pub Among-sorted_keys :
    (k : Bytes) (m : List (Bytes × Entry)) → is_some (lookup k m) ≡ true → Among k (sorted_keys m)
unfolding sorted_keys lookup
Among-sorted_keys k [] h = absurd cc
Among-sorted_keys k ((j, v) ∷ m) h = elim (Bool-cases (bytes_eq j k)) [
  | inl e ↦
      subst (λ t. Among k (insert_key t (sorted_keys m))) (sym ((bytes_eq_iff j k).0 e))
        (Among-insert_key_self k (sorted_keys m))
  | inr e ↦ Among-insert_key j k (sorted_keys m) (Among-sorted_keys k m (ground arith))
]

All-Among : (P : Bytes → Type 0) (k : Bytes) (ks : List Bytes) → All P ks → Among k ks → P k
All-Among P k [] a i = absurd i
All-Among P k (x ∷ ks) (p, a) (inl q) = subst P q p
All-Among P k (x ∷ ks) (p, a) (inr i) = All-Among P k ks a i

-- A search in a sorted list finds what is there.
pub is_deleted-Among :
    (ks : List Bytes) (k : Bytes) → IsSorted ks → Among k ks → is_deleted k ks ≡ true
unfolding is_deleted
is_deleted-Among [] k s i = absurd i
is_deleted-Among (x ∷ ks) k (a, s) i = elim (Bool-cases (str_ltb x k)) [
  | inr e ↦
      let q : x ≡ k = elim i [
        | inl q ↦ q
        | inr i' ↦ str_ltb_connex x k e (All-Among (λ t. str_ltb t x ≡ false) k ks a i')
      ] in
      rw e ((bytes_eq_iff x k).1 q)
  | inl e ↦
      let j : Among k ks = elim i [
        | inr i' ↦ i'
        | inl q ↦
            let f : true ≡ false = sym e ∙ ap (λ t. str_ltb t k) q ∙ str_ltb_irrefl k in
            absurd (cc f)
      ] in
      rw e (is_deleted-Among ks k s j)
]

All-drop :
    (P : Bytes → Type 0) (r : Bytes) (ds rs : List Bytes) → All P (ds ++ r ∷ rs) → All P (ds ++ rs)
All-drop P r [] rs a = a.1
All-drop P r (d ∷ ds) rs (p, a) = (p, All-drop P r ds rs a)

IsSorted-drop : (r : Bytes) (ds rs : List Bytes) → IsSorted (ds ++ r ∷ rs) → IsSorted (ds ++ rs)
IsSorted-drop r [] rs s = s.1
IsSorted-drop r (d ∷ ds) rs (a, s) =
    (All-drop (λ x. str_ltb x d ≡ false) r ds rs a, IsSorted-drop r ds rs s)

-- The deletions are in order.
pub delete_loop-IsSorted :
    (st dt : Tree) (ks ds : List Bytes) → IsSorted (ds ++ ks) → IsSorted (delete_loop st dt ks ds)
unfolding delete_loop
delete_loop-IsSorted st dt [] ds s = subst IsSorted (append-nil ds) s
delete_loop-IsSorted st dt (r ∷ rs) ds s =
    let skip = delete_loop-IsSorted st dt rs ds (IsSorted-drop r ds rs s) in
    elim (Bool-cases (under r ds || unknown st r)) [
      | inl e ↦ rw e skip
      | inr e ↦ elim (Bool-cases (must_delete (lookup r st.entries) (lookup r dt.entries))) [
        | inl f ↦ rw e (
            rw f (
              delete_loop-IsSorted st dt rs (ds ++ r ∷ [])
                (subst IsSorted (sym (append_assoc ds (r ∷ []) rs)) s)))
        | inr f ↦ rw e (rw f skip)
      ]
    ]
