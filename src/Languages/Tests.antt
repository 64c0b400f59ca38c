-- ===== src/Languages/Tests.antt =====
-- language_matching.go: a small table of languages, and the theorems at inputs.
use text.Mathlib.Text.{◌==◌ as str_eq}
use thalovant_go_sdk.Prelude.{
  ◌≤◌, true, false, ◌||◌, none, some, [], ◌∷◌, ◌≡◌, refl, All, if◌then◌else◌,
}
use thalovant_go_sdk.Carry.Fields.{has_name}
use thalovant_go_sdk.Languages.{
  LanguageMatchingData, TagText, read_token, read_tokens, only_script, finish_tag, primary_of,
  read_language, alias_base, parse_language, probes, first_likely, maximize_language,
  contains_region, region_distance, tag_distance, language_distance, closest_from, closest_language,
}
use thalovant_go_sdk.Languages.Closest.{closest_language-nearest}

-- Of lower-case tags with a region, "en-ca" and the like.
abbrev pub tags : TagText
tags = record {
  fold = λ s. s;
  trim = λ s. s;
  lower = λ s. s;
  upper = λ s. s;
  title = λ s. s;
  split = λ s.
      if str_eq s "en-ca"
      then "en" ∷ "CA" ∷ []
      else if str_eq s "en-us"
      then "en" ∷ "US" ∷ []
      else if str_eq s "fr-fr"
      then "fr" ∷ "FR" ∷ []
      else s ∷ [];
  is_script = λ s. false;
  is_region = λ s. str_eq s "CA" || str_eq s "US" || str_eq s "FR";
  is_one = λ s. false;
  join = λ s t. s;
  pair = λ s t. s;
}

abbrev pub table : LanguageMatchingData
table = record {
  likely = λ s. none;
  root = record { language = "en"; script = "Latn"; region = "US" };
  languages = λ s. "";
  scripts = λ s. "";
  territories = λ s. "";
  default_scripts = λ s. "Latn";
  macrolanguages = λ s. "";
  distances = λ s t. none;
  regions = λ s. if str_eq s "US" then "US" ∷ "CA" ∷ [] else [];
}

canada_is_american : closest_language tags table "en-ca" ("fr-fr" ∷ "en-us" ∷ []) ≡ some "en-us"
unfolding closest_language closest_from language_distance tag_distance region_distance
    contains_region maximize_language first_likely probes parse_language read_language alias_base
    primary_of finish_tag only_script read_tokens read_token
canada_is_american = refl

closest_language-nearest_example :
    (has_name ("fr-fr" ∷ "en-us" ∷ []) "en-us" ≡ true)
    × (language_distance tags table "en-ca" "en-us" ≤ 10)
    × All
        (λ c. language_distance tags table "en-ca" "en-us" ≤ language_distance tags table "en-ca" c)
        ("fr-fr" ∷ "en-us" ∷ [])
closest_language-nearest_example =
    closest_language-nearest tags table "en-ca" ("fr-fr" ∷ "en-us" ∷ []) "en-us" canada_is_american
