-- ===== src/Intents/Tests.antt =====
-- intents.go: a hub that lists sentences in English only, and the theorems at inputs.
use text.Mathlib.Text.{◌==◌ as str_eq}
use text.Mathlib.TextEquality.{eq_iff}
use thalovant_go_sdk.Prelude.{
  ◌+◌, ◌*◌, ◌≤◌, ◌<◌, Bool, true, false, Option, none, some, String, [], ◌∷◌, ◌≡◌, refl, ◌⊎◌, All,
  length, if◌then◌else◌, arith,
}
use thalovant_go_sdk.Languages.{closest_language}
use thalovant_go_sdk.Languages.Tests.{tags, table}
use thalovant_go_sdk.Intents.{
  IntentRegistration, rows, HubLanguages, languages, Hub, can_carry_sentences, contains_language,
  ask_languages, asked_languages, count_templates, counts_of, has_tag, candidates_from, most_from,
  choose_language, nearest_hub_language, rows_of,
}
use thalovant_go_sdk.Intents.Reading.{
  Reading, no_reading, found, ReadOptions, Languages, list_first, list_usual, ask_hub, list_nearest,
  key_of_language, put_rows, file_rows, read_language, read_languages,
}
use thalovant_go_sdk.Intents.Keys.{Apart}
use thalovant_go_sdk.Intents.Exact.{AllName}
use thalovant_go_sdk.Intents.Rounds.{IsListed, read_languages_queries, read_languages-IsListed}
use thalovant_go_sdk.Intents.Nearest.{nearest_hub_language_decides}
use thalovant_go_sdk.Intents.Asked.{Represents, asked_languages_cover}

abbrev weather : IntentRegistration
weather = record {
  skill_id = "weather";
  intent_name = "now";
  lang = "en-us";
  method = "template";
  enabled = true;
}

abbrev english : HubLanguages
english = record {
  listings = record { lang = "en-us"; rows = weather ∷ [] } ∷ [];
  session_lang = "en-us";
}

abbrev hub : Hub
hub = record {
  lists = λ n lang. if str_eq lang "en-us" then rows (weather ∷ []) else rows [];
  lists_all = λ n. languages (some english);
  ctx_ended = λ n. false;
}

abbrev options : ReadOptions
options = record { fallback = true; nearest = true }

abbrev same_tag : String → String → Bool
same_tag a b = str_eq a b

abbrev plain : String → String
plain s = s

abbrev no_usual : String → Option String
no_usual s = none

abbrev reader : Languages
reader = record { same = same_tag; trim = plain; closest = λ t cs. none; usual = no_usual }

abbrev reading : Reading
reading = record {
  listed = ("en-us", weather ∷ []) ∷ [];
  listed_in = "en-us" ∷ "en-us" ∷ "en-us" ∷ [];
  hub_asked = true;
  hub = some english;
  sent = 4;
}

-- Spanish and Japanese are listed in the hub's language, which it is asked for once.
spanish_in_english :
    read_languages hub options reader ("es-es" ∷ "ja-jp" ∷ "en-us" ∷ []) no_reading
    ≡ found [] "" reading
unfolding read_languages read_language list_first list_usual list_nearest ask_hub file_rows
    key_of_language put_rows can_carry_sentences nearest_hub_language choose_language
    candidates_from has_tag count_templates counts_of most_from rows_of
spanish_in_english = refl

-- Without the nearest language, Spanish has an empty listing of its own.
abbrev exact : ReadOptions
exact = record { fallback = true; nearest = false }

abbrev as_asked : Reading
as_asked = record {
  listed = ("es-es", []) ∷ ("en-us", weather ∷ []) ∷ [];
  listed_in = "es-es" ∷ "en-us" ∷ [];
  hub_asked = false;
  hub = none;
  sent = 2;
}

each_as_asked :
    read_languages hub exact reader ("es-es" ∷ "en-us" ∷ []) no_reading ≡ found [] "" as_asked
unfolding read_languages read_language list_first list_usual list_nearest file_rows key_of_language
    put_rows
each_as_asked = refl

read_languages_queries_example :
    (2 ≤ 2 * 2 + 1)
    × (length as_asked.listed_in ≡ 2)
    × (exact.nearest ≡ false
        → (as_asked.sent ≡ 2) × AllName same_tag ("es-es" ∷ "en-us" ∷ []) as_asked.listed_in)
read_languages_queries_example =
    read_languages_queries hub exact reader ("es-es" ∷ "en-us" ∷ []) [] "" as_asked each_as_asked

read_languages-IsListed_example : IsListed same_tag reading
read_languages-IsListed_example =
    read_languages-IsListed hub options reader ("es-es" ∷ "ja-jp" ∷ "en-us" ∷ []) [] "" reading
      spanish_in_english

nearest_hub_language_decides_example :
    ((t : String) × (nearest_hub_language
          (closest_language tags table)
          plain
          "en-ca"
          english.listings
          ""
        ≡ some t)
      × (0 < counts_of english.listings t))
    ⊎ ((nearest_hub_language (closest_language tags table) plain "en-ca" english.listings "" ≡ none)
        × All (λ l. count_templates l.rows ≡ 0) english.listings)
nearest_hub_language_decides_example =
    nearest_hub_language_decides tags table plain "en-ca" english.listings ""

asked_languages_cover_example :
    Apart same_tag ("fr" ∷ "en" ∷ [])
    × All (Represents same_tag plain ("fr" ∷ "en" ∷ [])) ("fr" ∷ "" ∷ "en" ∷ "fr" ∷ [])
unfolding asked_languages ask_languages contains_language
asked_languages_cover_example =
    asked_languages_cover same_tag plain ("fr" ∷ "" ∷ "en" ∷ "fr" ∷ []) ("fr" ∷ "en" ∷ [])
      (λ t. ground (arith, eq_iff t t)) refl
