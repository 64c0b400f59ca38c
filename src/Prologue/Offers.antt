-- ===== src/Prologue/Offers.antt =====
-- noise.go: what is selected of a server's offers.
use text.Mathlib.Text.{◌==◌ as str_eq}
use text.Mathlib.TextEquality.{eq_iff}
use thalovant_go_sdk.Prelude.{
  true, false, none, some, String, List, ◌≡◌, ◌⊎◌, inl, inr, refl, sym, ◌∙◌, arith, Bool-cases,
}
use thalovant_go_sdk.Prologue.{
  noise_pattern_kk, noise_suites, contains_string, first_suite, select_noise_options,
  select_pattern,
}

abbrev pub cha_cha_poly : String
cha_cha_poly = "25519_ChaChaPoly_SHA256"

abbrev aes_gcm : String
aes_gcm = "25519_AESGCM_SHA256"

suite-cases :
    (suites : List String)
    → ((first_suite suites noise_suites ≡ cha_cha_poly)
        × (contains_string suites cha_cha_poly ≡ true))
      ⊎ ((first_suite suites noise_suites ≡ aes_gcm)
          × (contains_string suites aes_gcm ≡ true)
          × (contains_string suites cha_cha_poly ≡ false))
      ⊎ (first_suite suites noise_suites ≡ "")
unfolding first_suite
suite-cases suites = elim (Bool-cases (contains_string suites cha_cha_poly)) [
  | inl e ↦ inl (rw e refl, e)
  | inr e ↦ inr (elim (Bool-cases (contains_string suites aes_gcm)) [
    | inl f ↦ inl (rw (e, f) refl, f, e)
    | inr f ↦ inr (rw (e, f) refl)
  ])
]

-- What is selected when the suite is one.
pattern_kept :
    (patterns : List String) (pinned suite chosen pattern : String)
    → select_pattern patterns pinned suite ≡ some (pattern, chosen)
    → (chosen ≡ suite)
      × (contains_string patterns pattern ≡ true)
      × ((pattern ≡ noise_pattern_kk)
          ⊎ (pinned ≡ "")
          ⊎ (contains_string patterns noise_pattern_kk ≡ false))
unfolding select_pattern
pattern_kept patterns pinned suite chosen pattern h = ground (arith, eq_iff pinned "")

module _ (patterns suites : List String) (pinned : String) where
  selected :
      (suite : String)
      → first_suite suites noise_suites ≡ suite
      → str_eq suite "" ≡ false
      → select_noise_options patterns suites pinned ≡ select_pattern patterns pinned suite
  unfolding select_noise_options
  selected suite e f = rw (e, f) refl

  none_selected :
      first_suite suites noise_suites ≡ "" → select_noise_options patterns suites pinned ≡ none
  unfolding select_noise_options
  none_selected e = rw e refl

-- A selected pattern and suite are both on offer. The suite is ChaChaPoly when that is on offer,
-- and the pattern is XX only when no key is pinned or KK is not on offer.
pub select_noise_options_kept :
    (patterns suites : List String) (pinned pattern suite : String)
    → select_noise_options patterns suites pinned ≡ some (pattern, suite)
    → (contains_string patterns pattern ≡ true)
      × (contains_string suites suite ≡ true)
      × ((suite ≡ cha_cha_poly) ⊎ (contains_string suites cha_cha_poly ≡ false))
      × ((pattern ≡ noise_pattern_kk)
          ⊎ (pinned ≡ "")
          ⊎ (contains_string patterns noise_pattern_kk ≡ false))
select_noise_options_kept patterns suites pinned pattern suite h = elim (suite-cases suites) [
  | inl (e, c) ↦
      let (same, offered, kept) =
        pattern_kept patterns pinned cha_cha_poly suite pattern
          (sym (selected patterns suites pinned cha_cha_poly e refl) ∙ h) in
      (offered, rw same c, inl same, kept)
  | inr (inl (e, c, d)) ↦
      let (same, offered, kept) =
        pattern_kept patterns pinned aes_gcm suite pattern
          (sym (selected patterns suites pinned aes_gcm e refl) ∙ h) in
      (offered, rw same c, inr d, kept)
  | inr (inr e) ↦ let nothing = none_selected patterns suites pinned e in cc
]
