-- ===== src/Languages/Closest.antt =====
-- language_matching.go: what `ClosestLanguage` chooses.
use mathlib.Core.Path.{subst}
use text.Mathlib.Text.{◌==◌ as str_eq}
use text.Mathlib.TextEquality.{eq_iff}
use thalovant_go_sdk.Prelude.{
  ℕ, ◌≤◌, ◌<◌, ◌^◌, ◌-◌, true, some, String, List, [], ◌∷◌, ◌≡◌, sym, ◌⊎◌, inl, inr, Bool-cases,
  ltb, leb, ltb→lt, leb→le, false, All, arith,
}
use thalovant_go_sdk.Carry.Fields.{has_name}
use thalovant_go_sdk.Languages.{
  LanguageTag, LanguageMatchingData, TagText, tag_distance, language_distance, closest_from,
  closest_language,
}

module _ (g : TagText) (d : LanguageMatchingData) (target : String) where
  abbrev dist : String → ℕ
  dist c = language_distance g d target c

  -- What the loop returns: the best that it began with, or one of the rest that is better.
  abbrev Kept : String → ℕ → List String → String → Type 0
  Kept best minimum cs t = (t ≡ best) × (minimum ≤ 10) × All (λ c. minimum ≤ dist c) cs

  abbrev Better : ℕ → List String → String → Type 0
  Better minimum cs t =
      (has_name cs t ≡ true) × (dist t ≤ 10) × (dist t < minimum) × All (λ c. dist t ≤ dist c) cs

  nearer :
      (minimum : ℕ) (c : String) (cs : List String) (t : String)
      → dist c < minimum
      → Kept c (dist c) cs t ⊎ Better (dist c) cs t
      → Better minimum (c ∷ cs) t
  nearer minimum c cs t lt (inl (same, low, all)) =
      subst (Better minimum (c ∷ cs)) (sym same)
        (ground (arith, eq_iff c c), low, lt, (omega arith, all))
  nearer minimum c cs t lt (inr (listed, low, less, all)) =
      (ground arith, low, omega arith, (omega arith, all))

  not_nearer :
      (best : String) (minimum : ℕ) (c : String) (cs : List String) (t : String)
      → minimum ≤ dist c
      → Kept best minimum cs t ⊎ Better minimum cs t
      → Kept best minimum (c ∷ cs) t ⊎ Better minimum (c ∷ cs) t
  not_nearer best minimum c cs t le (inl (same, low, all)) = inl (same, low, (le, all))
  not_nearer best minimum c cs t le (inr (listed, low, less, all)) =
      inr (ground arith, low, less, (omega arith, all))

  closest_from-some :
      (best : String) (minimum : ℕ) (cs : List String) (t : String)
      → closest_from g d target best minimum cs ≡ some t
      → Kept best minimum cs t ⊎ Better minimum cs t
  unfolding closest_from
  closest_from-some best minimum [] t h = inl (ground arith, ground arith, tt)
  closest_from-some best minimum (c ∷ cs) t h = elim (Bool-cases (ltb (dist c) minimum)) [
    | inl less ↦
        inr
          (nearer minimum c cs t (ltb→lt _ _ less) (closest_from-some c (dist c) cs t (taken less)))
    | inr not_less ↦
        not_nearer best minimum c cs t (ground arith)
          (closest_from-some best minimum cs t (passed not_less))
  ]
    where
      taken : ltb (dist c) minimum ≡ true → closest_from g d target c (dist c) cs ≡ some t
      taken less = ground arith

      passed : ltb (dist c) minimum ≡ false → closest_from g d target best minimum cs ≡ some t
      passed less = ground arith

  -- The language that is chosen is one of those on offer, at a distance of at most 10, and none on
  -- offer is nearer.
  pub closest_language-nearest :
      (available : List String) (t : String)
      → closest_language g d target available ≡ some t
      → (has_name available t ≡ true) × (dist t ≤ 10) × All (λ c. dist t ≤ dist c) available
  unfolding closest_language
  closest_language-nearest available t h = elim (closest_from-some "" (2 ^ 63 - 1) available t h) [
    | inl (same, low, all) ↦ absurd (omega arith)
    | inr (listed, low, less, all) ↦ (listed, low, all)
  ]

  tag_distance_self : (a : LanguageTag) → tag_distance g d a a ≡ 0
  unfolding tag_distance
  tag_distance_self a =
      ground
        (arith, eq_iff a.language a.language, eq_iff a.script a.script, eq_iff a.region a.region)

  found_from :
      (best : String) (minimum : ℕ) (cs : List String)
      → minimum ≤ 10
      → (t : String) × (closest_from g d target best minimum cs ≡ some t)
  unfolding closest_from
  found_from best minimum [] h = (best, ground arith)
  found_from best minimum (c ∷ cs) h = elim (Bool-cases (ltb (dist c) minimum)) [
    | inl less ↦
        let (t, e) = found_from c (dist c) cs (ground arith) in (t, rw (closest_from, less) e)
    | inr not_less ↦ let (t, e) = found_from best minimum cs h in (t, rw (closest_from, not_less) e)
  ]

  dist_self : (c : String) → c ≡ target → dist c ≡ 0
  unfolding language_distance
  dist_self c e = rw e (tag_distance_self _)

  finds :
      (best : String) (minimum : ℕ) (cs : List String)
      → 0 < minimum
      → has_name cs target ≡ true
      → (t : String) × (closest_from g d target best minimum cs ≡ some t)
  unfolding closest_from
  finds best minimum [] low h = cc
  finds best minimum (c ∷ cs) low h = elim (Bool-cases (ltb (dist c) minimum)) [
    | inl less ↦
        let from_c : (t : String) × (closest_from g d target c (dist c) cs ≡ some t) =
          elim (Bool-cases (leb (dist c) 10)) [
            | inl near ↦ found_from c (dist c) cs (leb→le _ _ near)
            | inr far ↦
                finds c (dist c) cs (ground arith) (ground (arith, eq_iff c target, dist_self c))
          ] in
        (from_c.0, rw (closest_from, less) from_c.1)
    | inr not_less ↦
        let (t, e) = finds best minimum cs low (ground (arith, eq_iff c target, dist_self c)) in
        (t, rw (closest_from, not_less) e)
  ]

  at_target :
      (k : ℕ) (cs : List String) → has_name cs target ≡ true → All (λ c. k ≤ dist c) cs → k ≤ 0
  at_target k [] h all = cc
  at_target k (c ∷ cs) h (le, all) = elim (Bool-cases (str_eq c target)) [
    | inl same ↦ omega (arith, le, dist_self c ((eq_iff c target).0 same))
    | inr other ↦ at_target k cs (ground arith) all
  ]

  -- A language that is on offer itself is matched, at distance 0.
  pub closest_language-listed :
      (available : List String)
      → has_name available target ≡ true
      → (t : String) × (closest_language g d target available ≡ some t) × (dist t ≡ 0)
  unfolding closest_language
  closest_language-listed available h =
      let (t, e) = finds "" (2 ^ 63 - 1) available (omega arith) h in
      let (listed, low, all) = closest_language-nearest available t e in
      (t, e, omega (arith, at_target (dist t) available h all))
