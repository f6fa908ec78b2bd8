-- ===== src/LocalSend/Names/Apart.antt =====
-- Different numbers give different names, for `numbered` of internal/localsend/names.go.
use shfm.Common.{
  ℕ, ◌+◌, if◌then◌else◌, Bool, true, false, ◌≤◌, ◌≡◌, ◌≢◌, sym, ◌∙◌, Option, none, some, [], ◌∷◌,
  ◌++◌, Bytes, All, ltb, length, append_assoc, arith, codes, All-append,
}
use mathlib.Core.List.{append_cancel_right}
use shfm.Common.Int.{sub_ℕ}
use shfm.Common.Decimal.{decimal, decimal_injective, decimal-All}
use shfm.LocalSend.Names.{
  max_name_bytes, truncate_name, last_index, extension_at, suffix_of, append_to, number_parts,
  numbered,
}

tail_eq : {c d : ℕ} {s t : Bytes} → c ∷ s ≡ d ∷ t → s ≡ t
tail_eq h = cc

head_eq : {c d : ℕ} {s t : Bytes} → c ∷ s ≡ d ∷ t → c ≡ d
head_eq h = cc

abbrev IsClear : Bytes → Type 0
IsClear s = All (λ c. 41 ≤ c) s

clear-cut : (w t s : Bytes) → IsClear s → s ≢ w ++ b'(' ∷ t
clear-cut [] t [] h e = cc
clear-cut [] t (c ∷ s) (hc, h) e = absurd (omega (arith, head_eq e))
clear-cut (x ∷ w) t [] h e = cc
clear-cut (x ∷ w) t (c ∷ s) (hc, h) e = clear-cut w t s h (tail_eq e)

-- What is behind the last parenthesis that opens.
behind_last : (w v s t : Bytes) → IsClear s → IsClear t → w ++ b'(' ∷ s ≡ v ++ b'(' ∷ t → s ≡ t
behind_last [] [] s t hs ht e = tail_eq e
behind_last [] (d ∷ v) s t hs ht e = absurd (clear-cut v t s hs (tail_eq e))
behind_last (c ∷ w) [] s t hs ht e = absurd (clear-cut w s t ht (sym (tail_eq e)))
behind_last (c ∷ w) (d ∷ v) s t hs ht e = behind_last w v s t hs ht (tail_eq e)

decimal-IsClear : (n : ℕ) → IsClear (decimal n ++ codes ")")
decimal-IsClear n =
    All-append (λ c. 41 ≤ c) (decimal n) (codes ")") (wider (decimal n) (decimal-All n))
      (omega arith, tt)
  where
    wider : (s : Bytes) → All (λ c. 48 ≤ c) s → IsClear s
    wider [] h = tt
    wider (c ∷ s) (hc, h) = (omega arith, wider s h)

suffix_of_apart :
    (b d e : Bytes) (n m : ℕ) → b ++ (suffix_of n ++ e) ≡ d ++ (suffix_of m ++ e) → n ≡ m
unfolding suffix_of
suffix_of_apart b d e n m h =
    let cut =
      append_cancel_right (b ++ suffix_of n) (d ++ suffix_of m) e
        (append_assoc b (suffix_of n) e ∙ (h ∙ sym (append_assoc d (suffix_of m) e))) in
    let behind =
      behind_last (b ++ codes " ") (d ++ codes " ") (decimal n ++ codes ")")
        (decimal m ++ codes ")") (decimal-IsClear n) (decimal-IsClear m)
        (append_assoc b (codes " ") (codes "(" ++ (decimal n ++ codes ")"))
          ∙ (cut ∙ sym (append_assoc d (codes " ") (codes "(" ++ (decimal m ++ codes ")"))))) in
    decimal_injective n m (append_cancel_right (decimal n) (decimal m) (codes ")") behind)

-- A numbered name ends in its number and the extension.
append_to-Ends :
    (suffix ext : Bytes) (o : Option Bytes) (s : Bytes)
    → append_to suffix ext o ≡ some s
    → (b : Bytes) × (s ≡ b ++ (suffix ++ ext))
unfolding append_to
append_to-Ends suffix ext none s h = cc
append_to-Ends suffix ext (some base) s h = (base, cc)

number_parts-Ends :
    (base ext suffix s : Bytes)
    → number_parts (base, ext) suffix ≡ some s
    → (b : Bytes) × (s ≡ b ++ (suffix ++ ext))
unfolding number_parts
number_parts-Ends base ext suffix s h =
    picked (ltb max_name_bytes (length base + (length suffix + length ext)))
      (truncate_name base (sub_ℕ max_name_bytes (length suffix + length ext))) h
  where
    picked :
        (t : Bool) (o : Option Bytes)
        → (if t then append_to suffix ext o else some (base ++ (suffix ++ ext))) ≡ some s
        → (b : Bytes) × (s ≡ b ++ (suffix ++ ext))
    picked true o e = append_to-Ends suffix ext o s e
    picked false o e = (base, cc)

-- Two numbers that give the same name are the same.
pub numbered_injective :
    (name : Bytes) (n m : ℕ) (s : Bytes)
    → numbered name n ≡ some s
    → numbered name m ≡ some s
    → n ≡ m
unfolding numbered
numbered_injective name n m s hn hm =
    let (base, ext) = extension_at name (last_index b'.' name) in
    let (b, p) = number_parts-Ends base ext (suffix_of n) s hn in
    let (d, q) = number_parts-Ends base ext (suffix_of m) s hm in
    suffix_of_apart b d ext n m (sym p ∙ q)
