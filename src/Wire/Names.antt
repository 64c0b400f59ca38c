-- ===== src/Wire/Names.antt =====
-- wire.go: the names and the numbers of frame types.
use text.Mathlib.Text.{◌==◌ as str_eq}
use text.Mathlib.TextEquality.{eq_iff}
use mathlib.Core.Path.{subst}
use thalovant_go_sdk.Prelude.{
  ℕ, ◌<◌, false, none, some, String, List, [], ◌∷◌, ◌≡◌, inl, inr, refl, sym, arith, Bool-cases,
  Option-cases, All,
}
use thalovant_go_sdk.Wire.{hive_type_to_int, entry, name_of, type_number, type_name}
use thalovant_go_sdk.Wire.Frames.{wire_name}

-- What holds of a type's name and number.
unfoldable pub Agree : String × ℕ → Type 0
Agree (name, number) =
    (type_name number ≡ wire_name name)
    × (number < 32)
    × (str_eq (type_name number) "bin" ≡ str_eq name "bin")

table-Agree : All Agree hive_type_to_int
unfolding Agree type_name name_of wire_name entry
table-Agree = ground arith

entry-All :
    (P : String × ℕ → Type 0) (m : List (String × ℕ)) (key : String) (n : ℕ)
    → All P m
    → entry m key ≡ some n
    → P (key, n)
unfolding entry
entry-All P [] key n all e = cc
entry-All P ((k, m) ∷ ms) key n (p, all) e = elim (Bool-cases (str_eq k key)) [
  | inl same ↦
      let found : m ≡ n = cc in
      subst (λ x. P (x, n)) ((eq_iff k key).0 same) (subst (λ x. P (k, x)) found p)
  | inr other ↦ let further : entry ms key ≡ some n = cc in entry-All P ms key n all further
]

-- A name without a number is none of the table's.
unlisted :
    (name listed : String) (n : ℕ)
    → entry hive_type_to_int name ≡ none
    → entry hive_type_to_int listed ≡ some n
    → str_eq name listed ≡ false
unlisted name listed n e l = elim (Bool-cases (str_eq name listed)) [
  | inl same ↦ let equal : name ≡ listed = (eq_iff name listed).0 same in cc
  | inr other ↦ other
]

handshake_listed : entry hive_type_to_int "handshake" ≡ some 0
unfolding entry
handshake_listed = refl

bin_listed : entry hive_type_to_int "bin" ≡ some 12
unfolding entry
bin_listed = refl

unlisted-Agree : (name : String) → entry hive_type_to_int name ≡ none → Agree (name, 11)
unfolding Agree wire_name type_name name_of
unlisted-Agree name e =
    let no_handshake : str_eq name "handshake" ≡ false =
      unlisted name "handshake" 0 e handshake_listed in
    let no_bin : str_eq name "bin" ≡ false = unlisted name "bin" 12 e bin_listed in
    rw (no_handshake, no_bin, e) (refl, omega arith, refl)

type_number-some :
    (name : String) (n : ℕ) → entry hive_type_to_int name ≡ some n → type_number name ≡ n
unfolding type_number
type_number-some name n e = rw (type_number, e) refl

type_number-none : (name : String) → entry hive_type_to_int name ≡ none → type_number name ≡ 11
unfolding type_number
type_number-none name e = rw (type_number, e) refl

pub type_number-Agree : (name : String) → Agree (name, type_number name)
type_number-Agree name = elim (Option-cases (entry hive_type_to_int name)) [
  | inl e ↦ subst (λ n. Agree (name, n)) (sym (type_number-none name e)) (unlisted-Agree name e)
  | inr (n, e) ↦
      subst (λ n. Agree (name, n)) (sym (type_number-some name n e))
        (entry-All Agree hive_type_to_int name n table-Agree e)
]
