-- ===== src/Config/Keymap/Lookup.antt =====
-- The action of a key, for KeyMap of internal/config/keymap.go.
use shfm.Common.{
  ◌≡◌, ◌↔◌, refl, sym, ap, ◌∙◌, Bool, true, false, none, some, List, [], ◌∷◌, Bytes, inl, inr, ◌⊎◌,
  arith, if◌then◌else◌,
}
use shfm.Common.Dict.{lookup, insert, lookup-alter}
use shfm.Config.Keymap.{
  is_among, normalize_key, bind_keys, reverse_loop, rebuild_reverse, action_for,
}
use shfm.Config.Keymap.Catalogue.{Action}

-- `k` is one of the keys of `a`.
abbrev pub IsBound : Bytes → Action → List (Action × List Bytes) → Type 0
IsBound k a [] = ⊥
IsBound k a ((b, ks) ∷ m) = ((b ≡ a) × (is_among k ks ≡ true)) ⊎ IsBound k a m

lookup-bind_keys :
    (k : Bytes) (a : Action) (ks : List Bytes) (r : List (Bytes × Action))
    → lookup k (bind_keys a ks r) ≡ (if is_among k ks then some a else lookup k r)
unfolding bind_keys insert is_among
lookup-bind_keys k a [] r = refl
lookup-bind_keys k a (j ∷ ks) r =
    ground (arith, lookup-bind_keys k a ks (insert j a r), lookup-alter (λ _. a) j k r)

some_eq : {a b : Action} → some a ≡ some b → a ≡ b
some_eq h = cc

clash : (t : Bool) → t ≡ true → t ≡ false → ⊥
clash t u v = cc

nothing : {a : Action} → none ≡ some a → ⊥
nothing h = cc

reverse_loop_sound :
    (k : Bytes) (a : Action) (m : List (Action × List Bytes)) (r : List (Bytes × Action))
    → lookup k (reverse_loop m r) ≡ some a
    → IsBound k a m ⊎ (lookup k r ≡ some a)
unfolding reverse_loop
reverse_loop_sound k a [] r h = inr h
reverse_loop_sound k a ((b, ks) ∷ m) r h = elim (reverse_loop_sound k a m (bind_keys b ks r) h) [
  | inl bound ↦ inl (inr bound)
  | inr e ↦ here (is_among k ks) refl (sym (lookup-bind_keys k b ks r) ∙ e)
]
  where
    here :
        (t : Bool)
        → is_among k ks ≡ t
        → (if t then some b else lookup k r) ≡ some a
        → IsBound k a ((b, ks) ∷ m) ⊎ (lookup k r ≡ some a)
    here true t e = inl (inl (some_eq e, t))
    here false t e = inr e

reverse_loop_complete :
    (k : Bytes) (a : Action) (m : List (Action × List Bytes)) (r : List (Bytes × Action))
    → ((b : Action) → IsBound k b m → b ≡ a)
    → IsBound k a m ⊎ (lookup k r ≡ some a)
    → lookup k (reverse_loop m r) ≡ some a
unfolding reverse_loop
reverse_loop_complete k a [] r only (inl h) = absurd h
reverse_loop_complete k a [] r only (inr h) = h
reverse_loop_complete k a ((b, ks) ∷ m) r only h =
    reverse_loop_complete k a m (bind_keys b ks r) (λ c q. only c (inr q))
      (now h (is_among k ks) refl)
  where
    now :
        IsBound k a ((b, ks) ∷ m) ⊎ (lookup k r ≡ some a)
        → (t : Bool) → is_among k ks ≡ t
        → IsBound k a m ⊎ (lookup k (bind_keys b ks r) ≡ some a)
    now q true t = inr (rw (lookup-bind_keys k b ks r) (rw t (ap some (only b (inl (refl, t))))))
    now (inl (inl (e, u))) false t = absurd (clash (is_among k ks) u t)
    now (inl (inr q)) false t = inl q
    now (inr q) false t = inr (rw (lookup-bind_keys k b ks r) (rw t q))

-- A key that belongs to at most the action `a`, in its normal form, gives `a` just where it is
-- bound to it, in whatever order the map of the bindings is gone through.
pub action_for-IsBound :
    (m : List (Action × List Bytes)) (key : Bytes) (a : Action)
    → ((b : Action) → IsBound (normalize_key key) b m → b ≡ a)
    → (action_for (rebuild_reverse m) key ≡ some a) ↔ IsBound (normalize_key key) a m
unfolding action_for rebuild_reverse lookup
action_for-IsBound m key a only = (
  λ h. sound (reverse_loop_sound (normalize_key key) a m [] h),
  λ h. reverse_loop_complete (normalize_key key) a m [] only (inl h),
)
  where
    sound :
        IsBound (normalize_key key) a m ⊎ (lookup (normalize_key key) [] ≡ some a)
        → IsBound (normalize_key key) a m
    sound (inl h) = h
    sound (inr e) = absurd (nothing e)
