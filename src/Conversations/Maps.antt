-- ===== src/Conversations/Maps.antt =====
-- client.go: the laws of the map of session ids.
use text.Mathlib.Text.{◌==◌ as str_eq}
use text.Mathlib.TextEquality.{eq_iff}
use thalovant_go_sdk.Prelude.{
  ℕ, zero, suc, ◌≤◌, ◌<◌, true, ◌||◌, none, some, String, List, [], ◌∷◌, ◌++◌, ◌≡◌, refl,
  Bool-cases, inl, inr, length, take, if◌then◌else◌, arith,
}
use thalovant_go_sdk.Conversations.{Ids, find, erase, erase_all, put_all, is_seen}

pub is_seen-append :
    (xs ys : List String) (k : String) → is_seen (xs ++ ys) k ≡ (is_seen xs k || is_seen ys k)
unfolding is_seen
is_seen-append [] ys k = refl
is_seen-append (x ∷ xs) ys k = ground (arith, is_seen-append xs ys k)

pub is_seen-take :
    (n : ℕ) (xs : List String) (k : String) → is_seen (take n xs) k ≡ true → is_seen xs k ≡ true
unfolding is_seen
is_seen-take zero xs k h = cc
is_seen-take (suc n) [] k h = cc
is_seen-take (suc n) (x ∷ xs) k h = ground (arith, is_seen-take n xs k)

pub is_seen-take_append :
    (n : ℕ) (xs ys : List String) (k : String)
    → is_seen (take n xs) k ≡ true
    → is_seen (take n (xs ++ ys)) k ≡ true
unfolding is_seen
is_seen-take_append zero xs ys k h = h
is_seen-take_append (suc n) [] ys k h = cc
is_seen-take_append (suc n) (x ∷ xs) ys k h = ground (arith, is_seen-take_append n xs ys k)

pub find-erase :
    (m : Ids) (k j : String) → find (erase m k) j ≡ (if str_eq k j then none else find m j)
unfolding find erase
find-erase [] k j = ground arith
find-erase ((i, r) ∷ m) k j = ground (arith, eq_iff i k, eq_iff k j, eq_iff i j, find-erase m k j)

pub find-erase_all :
    (m : Ids) (ks : List String) (j : String)
    → find (erase_all m ks) j ≡ (if is_seen ks j then none else find m j)
unfolding erase_all is_seen
find-erase_all m [] j = refl
find-erase_all m (k ∷ ks) j = ground (arith, find-erase_all (erase m k) ks j, find-erase m k j)

pub find-put_all :
    (m : Ids) (ks : List String) (r : ℕ) (j : String)
    → find (put_all m ks r) j ≡ (if is_seen ks j then some r else find m j)
unfolding put_all is_seen find
find-put_all m [] r j = refl
find-put_all m (k ∷ ks) r j =
    ground (arith, find-put_all ((k, r) ∷ erase m k) ks r j, find-erase m k j)

pub length-erase-le : (m : Ids) (k : String) → length (erase m k) ≤ length m
unfolding erase
length-erase-le [] k = omega arith
length-erase-le ((i, r) ∷ m) k = ground (arith, length-erase-le m k)

pub length-erase-lt :
    (m : Ids) (k : String) (r : ℕ) → find m k ≡ some r → length (erase m k) < length m
unfolding erase find
length-erase-lt [] k r h = cc
length-erase-lt ((i, q) ∷ m) k r h = ground (arith, length-erase-le m k, length-erase-lt m k r)

pub length-erase_all-le : (m : Ids) (ks : List String) → length (erase_all m ks) ≤ length m
unfolding erase_all
length-erase_all-le m [] = omega arith
length-erase_all-le m (k ∷ ks) =
    omega (arith, length-erase-le m k, length-erase_all-le (erase m k) ks)

-- Dropping keys of which one is listed shortens the map.
pub length-erase_all-lt :
    (m : Ids) (ks : List String) (k : String) (r : ℕ)
    → find m k ≡ some r
    → is_seen ks k ≡ true
    → length (erase_all m ks) < length m
unfolding erase_all is_seen
length-erase_all-lt m [] k r h e = cc
length-erase_all-lt m (j ∷ ks) k r h e = elim (Bool-cases (str_eq j k)) [
  | inl same ↦ ground (arith, eq_iff j k, length-erase-lt m j r, length-erase_all-le (erase m j) ks)
  | inr other ↦
      ground (arith, length-erase-le m j, find-erase m j k, length-erase_all-lt (erase m j) ks k r)
]

-- No key stands twice.
abbrev pub IsMap : Ids → Type 0
IsMap [] = Unit {0}
IsMap ((k, r) ∷ m) = (find m k ≡ none) × IsMap m

pub erase-IsMap : (m : Ids) (k : String) → IsMap m → IsMap (erase m k)
unfolding erase
erase-IsMap [] k h = tt
erase-IsMap ((i, r) ∷ m) k h = elim (Bool-cases (str_eq i k)) [
  | inl e ↦ rw e (erase-IsMap m k h.1)
  | inr e ↦ rw e (ground (arith, find-erase m k i, h.0), erase-IsMap m k h.1)
]

pub erase_all-IsMap : (m : Ids) (ks : List String) → IsMap m → IsMap (erase_all m ks)
unfolding erase_all
erase_all-IsMap m [] h = h
erase_all-IsMap m (k ∷ ks) h = erase_all-IsMap (erase m k) ks (erase-IsMap m k h)

pub put_all-IsMap : (m : Ids) (ks : List String) (r : ℕ) → IsMap m → IsMap (put_all m ks r)
unfolding put_all
put_all-IsMap m [] r h = h
put_all-IsMap m (k ∷ ks) r h =
    put_all-IsMap ((k, r) ∷ erase m k) ks r
      (ground (arith, find-erase m k k, eq_iff k k), erase-IsMap m k h)
