-- ===== src/Intents.antt =====
-- intents.go: the languages that an inventory is read in. `Intents` lists each language asked for,
-- once more in its usual form, and once for all in the language of the hub's that is nearest.
--
-- `same` is `SameLanguage`, `trim` is `strings.TrimSpace`, `closest` is `ClosestLanguage` and `usual`
-- is `UsualForm`. What the hub answers to a query may depend on all that went before: a query is
-- numbered by those sent before it.
pub mod Reading
pub mod Keys
pub mod Listings
pub mod Exact
pub mod Rounds
pub mod Nearest
pub mod Asked
mod Tests
use text.Mathlib.Text.{◌==◌ as str_eq}
use thalovant_go_sdk.Prelude.{
  ℕ, ◌+◌, Bool, true, false, not, ◌&&◌, ◌||◌, Option, none, some, String, List, [], ◌∷◌, ◌++◌, ltb,
  is_some, if◌then◌else◌,
}
use thalovant_go_sdk.Errors.{Err, err_timeout, err_runtime, is}

pub record IntentRegistration : Type 0 where
  pub skill_id : String
  pub intent_name : String
  pub lang : String
  pub method : String
  pub enabled : Bool

abbrev pub Rows : Type 0
Rows = List IntentRegistration

abbrev pub is_template : IntentRegistration → Bool
is_template r = r.enabled && str_eq r.method "template"

unfoldable pub can_carry_sentences : Rows → Bool
can_carry_sentences [] = false
can_carry_sentences (r ∷ rs) = is_template r || can_carry_sentences rs

pub record HubLanguageRows : Type 0 where
  pub lang : String
  pub rows : Rows

pub record HubLanguages : Type 0 where
  pub listings : List HubLanguageRows
  pub session_lang : String

-- `ListIntents`. `denied` says that the error is a refusal of ovos.intent.list.
pub data Listing : Type 0 where
  rows : Rows → Listing
  failed : (denied : Bool) → Err → Listing

-- `listHubLanguages`: nothing when the hub cannot answer.
pub data HubListing : Type 0 where
  languages : Option HubLanguages → HubListing
  broken : Err → HubListing

pub record Hub : Type 0 where
  pub lists : ℕ → String → Listing
  pub lists_all : ℕ → HubListing
  pub ctx_ended : ℕ → Bool

module _ (same : String → String → Bool) where
  unfoldable pub contains_language : List String → String → Bool
  contains_language [] lang = false
  contains_language (tag ∷ tags) lang = same tag lang || contains_language tags lang

unfoldable pub ask_languages :
    (String → String → Bool) → (String → String) → List String → List String → List String
ask_languages same trim asked [] = asked
ask_languages same trim asked (lang ∷ langs) =
    ask_languages same trim
      (if str_eq (trim lang) "" || contains_language same asked (trim lang)
        then asked
        else asked ++ trim lang ∷ [])
      langs

abbrev pub some_asked : List String → Option (List String)
some_asked [] = none
some_asked (tag ∷ tags) = some (tag ∷ tags)

-- `none` is the error.
unfoldable pub asked_languages :
    (String → String → Bool) → (String → String) → List String → Option (List String)
asked_languages same trim [] = some ("en-us" ∷ [])
asked_languages same trim (lang ∷ langs) = some_asked (ask_languages same trim [] (lang ∷ langs))

unfoldable pub count_templates : Rows → ℕ
count_templates [] = 0
count_templates (r ∷ rs) = let rest = count_templates rs in if is_template r then rest + 1 else rest

-- The sentences listed under one tag.
unfoldable pub counts_of : List HubLanguageRows → String → ℕ
counts_of [] tag = 0
counts_of (l ∷ ls) tag =
    let rest = counts_of ls tag in if str_eq l.lang tag then count_templates l.rows + rest else rest

unfoldable pub has_tag : List String → String → Bool
has_tag [] t = false
has_tag (u ∷ ts) t = str_eq u t || has_tag ts t

unfoldable pub candidates_from : List String → List HubLanguageRows → List String
candidates_from found [] = found
candidates_from found (l ∷ ls) =
    candidates_from
      (if ltb 0 (count_templates l.rows) && not (has_tag found l.lang)
        then found ++ l.lang ∷ []
        else found)
      ls

unfoldable pub most_from : List HubLanguageRows → String → List String → String
most_from listings best [] = best
most_from listings best (tag ∷ tags) =
    most_from listings
      (if ltb (counts_of listings best) (counts_of listings tag) then tag else best) tags

module _ (closest : String → List String → Option String) (trim : String → String) where
  unfoldable pub choose_language :
      String → List HubLanguageRows → String → List String → Option String
  choose_language asked listings hub_lang [] = none
  choose_language asked listings hub_lang (c ∷ cs) =
      let own : Option String =
        if str_eq (trim hub_lang) "" then none else closest hub_lang (c ∷ cs) in
      let rest : Option String = elim own [
        | some tag ↦ some tag
        | none ↦ some (most_from listings c cs)
      ] in
      elim (closest asked (c ∷ cs)) [ some tag ↦ some tag | none ↦ rest ]

  unfoldable pub nearest_hub_language : String → List HubLanguageRows → String → Option String
  nearest_hub_language asked listings hub_lang =
      choose_language asked listings hub_lang (candidates_from [] listings)

unfoldable pub rows_of : List HubLanguageRows → String → Rows
rows_of [] lang = []
rows_of (l ∷ ls) lang = if str_eq l.lang lang then l.rows else rows_of ls lang
