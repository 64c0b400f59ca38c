-- ===== src/Intents/Nearest.antt =====
-- intents.go: which of the hub's languages `NearestHubLanguage` picks, by language_matching.go.
use mathlib.Core.Path.{subst}
use text.Mathlib.Text.{◌==◌ as str_eq}
use text.Mathlib.TextEquality.{eq_iff}
use thalovant_go_sdk.Prelude.{
  ◌≤◌, ◌<◌, Bool, true, false, not, ◌&&◌, Option, none, some, String, List, [], ◌∷◌, ◌++◌, ◌≡◌, ◌∙◌,
  sym, refl, ◌≢◌, ◌⊎◌, Bool-cases, inl, inr, ltb, All, if◌then◌else◌, arith,
}
use thalovant_go_sdk.Carry.Fields.{has_name}
use thalovant_go_sdk.Languages.{LanguageMatchingData, TagText, closest_language}
use thalovant_go_sdk.Languages.Closest.{closest_language-nearest}
use thalovant_go_sdk.Intents.Keys.{All-append_one}
use thalovant_go_sdk.Intents.{
  HubLanguageRows, count_templates, counts_of, has_tag, candidates_from, most_from, choose_language,
  nearest_hub_language,
}

Counted : List HubLanguageRows → String → Type 0
Counted ls t = 0 < counts_of ls t

-- Each listing with a sentence counts for its tag.
counts_more :
    (l : HubLanguageRows) (ls : List HubLanguageRows) (t : String)
    → counts_of ls t ≤ counts_of (l ∷ ls) t
unfolding counts_of
counts_more l ls t = ground arith

All-counts :
    (ls all : List HubLanguageRows)
    → ((t : String) → counts_of ls t ≤ counts_of all t)
    → All (λ l. count_templates l.rows ≤ counts_of all l.lang) ls
unfolding counts_of
All-counts [] all h = tt
All-counts (l ∷ ls) all h = (
  ground (arith, h l.lang, eq_iff l.lang l.lang),
  All-counts ls all (λ t. ground (arith, counts_more l ls t, h t)),
)

candidates-Counted :
    (all : List HubLanguageRows) (found : List String) (ls : List HubLanguageRows)
    → All (λ l. count_templates l.rows ≤ counts_of all l.lang) ls
    → All (Counted all) found
    → All (Counted all) (candidates_from found ls)
unfolding candidates_from Counted
candidates-Counted all found [] h k = k
candidates-Counted all found (l ∷ ls) h k =
    candidates-Counted all
      (if ltb 0 (count_templates l.rows) && not (has_tag found l.lang)
        then found ++ l.lang ∷ []
        else found)
      ls h.1
      (elim (Bool-cases (ltb 0 (count_templates l.rows) && not (has_tag found l.lang))) [
        | inl e ↦ rw e (All-append_one (Counted all) found l.lang k (ground (arith, h.0)))
        | inr e ↦ rw e k
      ])

at_name :
    (P : String → Type 0) (ks : List String) (t : String) → All P ks → has_name ks t ≡ true → P t
at_name P [] t h e = cc
at_name P (k ∷ ks) t h e = elim (Bool-cases (str_eq k t)) [
  | inl same ↦ rw (← (eq_iff k t).0 same) (h.0)
  | inr other ↦ at_name P ks t h.1 (ground arith)
]

most-Counted :
    (all : List HubLanguageRows) (best : String) (ts : List String)
    → Counted all best
    → All (Counted all) ts
    → Counted all (most_from all best ts)
unfolding most_from
most-Counted all best [] h k = h
most-Counted all best (t ∷ ts) h k =
    most-Counted all (if ltb (counts_of all best) (counts_of all t) then t else best) ts
      (elim (Bool-cases (ltb (counts_of all best) (counts_of all t))) [
        | inl e ↦ rw e (k.0)
        | inr e ↦ rw e h
      ])
      k.1

candidates-ne-nil :
    (x : String) (found : List String) (ls : List HubLanguageRows)
    → candidates_from (x ∷ found) ls ≢ []
unfolding candidates_from
candidates-ne-nil x found [] e = cc
candidates-ne-nil x found (l ∷ ls) e =
    elim (Bool-cases (ltb 0 (count_templates l.rows) && not (has_tag (x ∷ found) l.lang))) [
      | inl new ↦ candidates-ne-nil x (found ++ l.lang ∷ []) ls (sym (grown new) ∙ e)
      | inr old ↦ candidates-ne-nil x found ls (sym (kept old) ∙ e)
    ]
  where
    grown :
        (ltb 0 (count_templates l.rows) && not (has_tag (x ∷ found) l.lang)) ≡ true
        → candidates_from (x ∷ found) (l ∷ ls) ≡ candidates_from (x ∷ found ++ l.lang ∷ []) ls
    grown new = rw (candidates_from, new) refl

    kept :
        (ltb 0 (count_templates l.rows) && not (has_tag (x ∷ found) l.lang)) ≡ false
        → candidates_from (x ∷ found) (l ∷ ls) ≡ candidates_from (x ∷ found) ls
    kept old = rw (candidates_from, old) refl

no_candidates :
    (ls : List HubLanguageRows)
    → candidates_from [] ls ≡ []
    → All (λ l. count_templates l.rows ≡ 0) ls
unfolding candidates_from has_tag
no_candidates [] e = tt
no_candidates (l ∷ ls) e = elim (Bool-cases (ltb 0 (count_templates l.rows))) [
  | inl some_rows ↦ absurd (candidates-ne-nil l.lang [] ls (sym (grown some_rows) ∙ e))
  | inr none_rows ↦ (ground arith, no_candidates ls (sym (kept none_rows) ∙ e))
]
  where
    grown :
        ltb 0 (count_templates l.rows) ≡ true
        → candidates_from [] (l ∷ ls) ≡ candidates_from (l.lang ∷ []) ls
    grown h = rw (candidates_from, h) refl

    kept :
        ltb 0 (count_templates l.rows) ≡ false → candidates_from [] (l ∷ ls) ≡ candidates_from [] ls
    kept h = rw (candidates_from, h) refl

-- A choice, or else the next one.
first_choice :
    (P : String → Type 0) (o rest : Option String)
    → ((t : String) → o ≡ some t → P t)
    → (t : String) × (rest ≡ some t) × P t
    → (t : String) × (elim o [ some tag ↦ some tag | none ↦ rest ] ≡ some t) × P t
first_choice P none rest h k = k
first_choice P (some t) rest h k = (t, refl, h t refl)

module _ (g : TagText) (d : LanguageMatchingData) (trim : String → String) where
  chosen-Counted :
      (asked : String) (all : List HubLanguageRows) (hub_lang c : String) (cs : List String)
      → Counted all c
      → All (Counted all) cs
      → (t : String) × (choose_language (closest_language g d) trim asked all hub_lang (c ∷ cs)
          ≡ some t)
        × Counted all t
  unfolding choose_language
  chosen-Counted asked all hub_lang c cs h k =
      first_choice (Counted all) (closest_language g d asked (c ∷ cs))
        (elim (own (str_eq (trim hub_lang) "")) [ some tag ↦ some tag | none ↦ last ])
        (λ t e. near asked t e)
        (first_choice (Counted all) (own (str_eq (trim hub_lang) "")) last
          (owns (str_eq (trim hub_lang) "")) (most_from all c cs, refl, most-Counted all c cs h k))
    where
      last : Option String
      last = some (most_from all c cs)

      own : Bool → Option String
      own b = if b then none else closest_language g d hub_lang (c ∷ cs)

      near : (q t : String) → closest_language g d q (c ∷ cs) ≡ some t → Counted all t
      near q t e =
          at_name (Counted all) (c ∷ cs) t (h, k) (closest_language-nearest g d q (c ∷ cs) t e).0

      owns : (b : Bool) (t : String) → own b ≡ some t → Counted all t
      owns true t e = cc
      owns false t e = near hub_lang t e

  -- `NearestHubLanguage` picks a language that the hub lists with a sentence to show, and none only
  -- when no language that it lists has one.
  pub nearest_hub_language_decides :
      (asked : String) (listings : List HubLanguageRows) (hub_lang : String)
      → ((t : String) × (nearest_hub_language (closest_language g d) trim asked listings hub_lang
            ≡ some t)
          × (0 < counts_of listings t))
        ⊎ ((nearest_hub_language (closest_language g d) trim asked listings hub_lang ≡ none)
            × All (λ l. count_templates l.rows ≡ 0) listings)
  unfolding nearest_hub_language choose_language Counted
  nearest_hub_language_decides asked listings hub_lang = decide (candidates_from [] listings) refl
    where
      decide :
          (cs : List String)
          → candidates_from [] listings ≡ cs
          → ((t : String) × (choose_language (closest_language g d) trim asked listings hub_lang cs
                ≡ some t)
              × (0 < counts_of listings t))
            ⊎ ((choose_language (closest_language g d) trim asked listings hub_lang cs ≡ none)
                × All (λ l. count_templates l.rows ≡ 0) listings)
      decide [] e = inr (refl, no_candidates listings e)
      decide (c ∷ cs) e =
          let all : All (Counted listings) (c ∷ cs) = subst (All (Counted listings)) e (
            candidates-Counted listings [] listings
              (All-counts listings listings (λ t. omega arith)) tt) in
          inl (chosen-Counted asked listings hub_lang c cs all.0 all.1)
