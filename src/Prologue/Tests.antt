-- ===== src/Prologue/Tests.antt =====
-- The offers, the canonical strings and the prologue of noise.go on concrete input.
use thalovant_go_sdk.Prelude.{
  ℕ, Bool, true, false, none, some, String, List, [], ◌∷◌, ◌≡◌, ◌⊎◌, refl, arith, ltb, ◌==◌, ◌&&◌,
  if◌then◌else◌,
}
use thalovant_go_sdk.Prologue.{
  Text, Json, object, number, Members, no_members, member, text_eq, contains_string,
  noise_pattern_kk, select_noise_options, select_pattern, first_suite, build_prologue, keys,
}
use thalovant_go_sdk.Prologue.Offers.{cha_cha_poly, select_noise_options_kept}
use thalovant_go_sdk.Prologue.Order.{
  objects, atom, SameAt, neither, both, value_at, build_prologue-Same,
}

abbrev patterns : List String
patterns = "XXpsk2" ∷ "KKpsk0" ∷ []

abbrev suites : List String
suites = "25519_AESGCM_SHA256" ∷ "25519_ChaChaPoly_SHA256" ∷ []

abbrev pinned_key : String
pinned_key = "ab"

select_noise_options_kept_example :
    (contains_string patterns "KKpsk0" ≡ true)
    × (contains_string suites cha_cha_poly ≡ true)
    × ((cha_cha_poly ≡ cha_cha_poly) ⊎ (contains_string suites cha_cha_poly ≡ false))
    × ((noise_pattern_kk ≡ noise_pattern_kk)
        ⊎ (pinned_key ≡ "")
        ⊎ (contains_string patterns noise_pattern_kk ≡ false))
unfolding select_noise_options select_pattern first_suite contains_string
select_noise_options_kept_example =
    select_noise_options_kept patterns suites pinned_key "KKpsk0" cha_cha_poly refl

abbrev text_before : Text → Text → Bool
text_before [] t = true
text_before (c ∷ s) [] = false
text_before (c ∷ s) (d ∷ t) = let rest = text_before s t in if c == d then rest else ltb c d

abbrev place : Text → List Text → List Text
place t [] = t ∷ []
place t (u ∷ us) = let rest = place t us in if text_before t u then t ∷ u ∷ us else u ∷ rest

abbrev sort_texts : List Text → List Text
sort_texts [] = []
sort_texts (t ∷ ts) = place t (sort_texts ts)

-- {"a":1,"b":2} in both orders.
abbrev one_two : Members ℕ
one_two = member (97 ∷ []) (number (49 ∷ [])) (member (98 ∷ []) (number (50 ∷ [])) no_members)

abbrev two_one : Members ℕ
two_one = member (98 ∷ []) (number (50 ∷ [])) (member (97 ∷ []) (number (49 ∷ [])) no_members)

either_first :
    (p q : Bool) (v w : Json ℕ)
    → (p && q) ≡ false
    → SameAt sort_texts
        (if p then some v else (if q then some w else none))
        (if q then some w else (if p then some v else none))
either_first true true v w e = cc
either_first true false v w e = both v v (atom v)
either_first false true v w e = both w w (atom w)
either_first false false v w e = neither

one_key : (k : Text) → (text_eq (97 ∷ []) k && text_eq (98 ∷ []) k) ≡ false
one_key [] = refl
one_key (c ∷ t) = ground arith

abbrev no_floats : ℕ → Text
no_floats f = []

same_values : (k : Text) → SameAt sort_texts (value_at one_two k) (value_at two_one k)
unfolding value_at
same_values k =
    either_first (text_eq (97 ∷ []) k) (text_eq (98 ∷ []) k) (number (49 ∷ [])) (number (50 ∷ []))
      (one_key k)

build_prologue-Same_example :
    build_prologue no_floats sort_texts one_two two_one (88 ∷ [])
    ≡ build_prologue no_floats sort_texts two_one two_one (88 ∷ [])
unfolding keys
build_prologue-Same_example =
    build_prologue-Same no_floats sort_texts one_two two_one two_one two_one (88 ∷ [])
      (objects one_two two_one refl same_values) (atom (object two_one))
