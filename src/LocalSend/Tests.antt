-- ===== src/LocalSend/Tests.antt =====
-- TakenNames as a sender may write them.
use shfm.Common.Decimal.{decimal}
use shfm.Common.Utf8.{runes, is_rune, text_of}
use shfm.Common.{
  inl, inr, true, ℕ, zero, suc, ◌+◌, false, ◌≤◌, ◌≡◌, refl, none, some, [], ◌∷◌, ◌++◌, Bytes, codes,
  List, length, replicate, arith, bytes_eq,
}
use shfm.LocalSend.Names.{safe_path, max_name_bytes, suffix_of, extension_at, last_index, numbered}
use shfm.LocalSend.Names.Safe.{IsSafePath, safe_path-IsSafePath}
use shfm.LocalSend.Receiving.{TakenNames, free, is_taken}
use shfm.LocalSend.Receiving.Free.{free-IsFound}
use shfm.Common.Dict.{alter, lookup, insert}
use shfm.LocalSend.Target.{Session, Place, target, node_at, seen, names_in, not_made}
use shfm.LocalSend.Target.IsNew.{is_claimed, target-IsNew}

abbrev climbing : Bytes
climbing = codes "../../etc//a" ++ 27 ∷ 226 ∷ codes "\\."

safe_path-IsSafePath_example :
    (segs : List Bytes) × (safe_path climbing ≡ some segs) × IsSafePath segs
safe_path-IsSafePath_example = safe_path-IsSafePath climbing

-- an escape and a byte that is no text are replaced
tamed : safe_path climbing ≡ some (codes "etc" ∷ codes "a__" ∷ [])
unfolding safe_path runes bytes_eq is_rune text_of
tamed = refl

abbrev photo : Bytes
photo = codes "photo.jpg"

second : numbered photo 2 ≡ some (codes "photo (2).jpg")
unfolding numbered decimal
second = refl

-- an extension that leaves no room
too_long : numbered (codes "a." ++ replicate 253 b'x') 2 ≡ none
unfolding numbered decimal
too_long = refl

-- A session that claimed a name and a folder that has another.
abbrev names : TakenNames
names = record { claimed = codes "photo.jpg" ∷ []; present = codes "photo (2).jpg" ∷ [] }

few :
    (n : ℕ)
    → n ≤ 4
    → length (suffix_of n) + length (extension_at photo (last_index b'.' photo)).1 ≤ 239
unfolding suffix_of extension_at last_index decimal
few zero h = omega arith
few (suc zero) h = omega arith
few (suc (suc zero)) h = omega arith
few (suc (suc (suc zero))) h = omega arith
few (suc (suc (suc (suc zero)))) h = omega arith
few (suc (suc (suc (suc (suc n))))) h = absurd (omega arith)

free-IsFound_example :
    (s : Bytes) × (free names photo ≡ some s)
    × (is_taken names s ≡ false)
    × (length s ≤ max_name_bytes)
free-IsFound_example = free-IsFound names photo (omega arith) few

third : free names photo ≡ some (codes "photo (3).jpg")
unfolding free numbered decimal bytes_eq
third = refl

-- A folder that is sent whole, to where one of its name is: Mkdir of the inner folder fails once.
abbrev session : Session
session = record {
  tops = [];
  claimed = [];
  nodes = ((codes "trip" ∷ []), true) ∷ [];
  hidden = [];
  makes = true ∷ (false ∷ []);
}

abbrev new_place : Place
new_place = codes "photo.jpg" ∷ codes "trip (2)" ∷ []

placed : (target (codes "trip/photo.jpg") session).0 ≡ inr new_place
unfolding target safe_path runes bytes_eq is_rune text_of numbered decimal lookup insert free
    names_in
placed = refl

target-IsNew_example :
    ((target (codes "trip/photo.jpg") session).1.claimed ≡ new_place ∷ [])
    × (is_claimed new_place [] ≡ false)
    × (node_at new_place (seen session) ≡ none)
target-IsNew_example = target-IsNew (codes "trip/photo.jpg") session new_place placed

-- The second file goes to the same folder; the inner one of a third is not made.
again :
    (target (codes "trip/photo.jpg") (target (codes "trip/photo.jpg") session).1).0
    ≡ inr (codes "photo (2).jpg" ∷ codes "trip (2)" ∷ [])
unfolding target safe_path runes bytes_eq is_rune text_of numbered decimal lookup insert free
    names_in alter
again = refl

not_made_there :
    (target (codes "trip/in/a") (target (codes "trip/photo.jpg") session).1).0 ≡ inl not_made
unfolding target safe_path runes bytes_eq is_rune text_of numbered decimal lookup insert free
    names_in alter
not_made_there = refl

-- Stat fails on a file that is there: its place is given to another one.
abbrev unseen : Session
unseen = record {
  tops = [];
  claimed = [];
  nodes = ((codes "photo.jpg" ∷ []), false) ∷ [];
  hidden = (codes "photo.jpg" ∷ []) ∷ [];
  makes = [];
}

given_again : (target (codes "photo.jpg") unseen).0 ≡ inr (codes "photo.jpg" ∷ [])
unfolding target safe_path runes bytes_eq is_rune text_of numbered decimal lookup insert free
    names_in alter
given_again = refl
