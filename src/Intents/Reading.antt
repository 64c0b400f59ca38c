-- ===== src/Intents/Reading.antt =====
-- intents.go: the loop of `Intents` over the languages asked for.
use text.Mathlib.Text.{◌==◌ as str_eq}
use thalovant_go_sdk.Prelude.{
  ℕ, ◌+◌, Bool, true, false, not, ◌&&◌, ◌||◌, Option, none, some, String, List, [], ◌∷◌, ◌++◌,
  if◌then◌else◌,
}
use thalovant_go_sdk.Errors.{Err, err_timeout, err_runtime, is}
use thalovant_go_sdk.Intents.{
  Rows, can_carry_sentences, HubLanguages, Listing, rows, failed, HubListing, languages, broken,
  Hub, nearest_hub_language, rows_of,
}

-- The variables of the loop; `sent` counts the queries.
pub record Reading : Type 0 where
  pub listed : List (String × Rows)
  pub listed_in : List String
  pub hub_asked : Bool
  pub hub : Option HubLanguages
  pub sent : ℕ

abbrev pub no_reading : Reading
no_reading = record { listed = []; listed_in = []; hub_asked = false; hub = none; sent = 0 }

-- A listing and its tag; an error; or the engines' own manifests, which are asked instead.
pub data Found : Type 0 where
  found : Rows → String → Reading → Found
  stopped : Err → Found
  engines : Found

pub record ReadOptions : Type 0 where
  pub fallback : Bool
  pub nearest : Bool

pub record Languages : Type 0 where
  pub same : String → String → Bool
  pub trim : String → String
  pub closest : String → List String → Option String
  pub usual : String → Option String

abbrev pub and_then : Found → (Rows → String → Reading → Found) → Found
and_then (found rs tag r) f = f rs tag r
and_then (stopped e) f = stopped e
and_then engines f = engines

abbrev pub sent_one : Reading → Reading
sent_one r = record r { sent = r.sent + 1 }

abbrev pub is_empty : Rows → Bool
is_empty [] = true
is_empty (x ∷ rs) = false

module _ (h : Hub) (o : ReadOptions) (l : Languages) where
  abbrev pub first_answer : Listing → String → Reading → Found
  first_answer (rows rs) lang r = found rs lang r
  first_answer (failed denied e) lang r =
      if not o.fallback || not denied && not (is e err_timeout && not (h.ctx_ended r.sent))
      then stopped e
      else engines

  unfoldable pub list_first : String → Reading → Found
  list_first lang r = first_answer (h.lists r.sent lang) lang (sent_one r)

  abbrev pub take_usual : Rows → Rows → String → String → Reading → Found
  take_usual retried rs u lang r =
      if can_carry_sentences retried || not (is_empty retried) && is_empty rs
      then found retried u r
      else found rs lang r

  abbrev pub usual_answer : Listing → Rows → String → String → Reading → Found
  usual_answer (rows retried) rs u lang r = take_usual retried rs u lang r
  usual_answer (failed denied e) rs u lang r =
      if not (not (h.ctx_ended r.sent) && (is e err_timeout || is e err_runtime)) || is_empty rs
      then stopped e
      else take_usual [] rs u lang r

  unfoldable pub list_usual : String → Rows → String → Reading → Found
  list_usual lang rs tag r =
      if o.nearest && not (can_carry_sentences rs)
      then elim (l.usual lang) [
        | none ↦ found rs tag r
        | some u ↦ usual_answer (h.lists r.sent u) rs u tag (sent_one r)
      ]
      else found rs tag r

  abbrev pub hub_answer : HubListing → Rows → String → Reading → Found
  hub_answer (broken e) rs tag r = stopped e
  hub_answer (languages hub) rs tag r = found rs tag (record r { hub_asked = true; hub = hub })

  unfoldable pub ask_hub : Rows → String → Reading → Found
  ask_hub rs tag r =
      if r.hub_asked then found rs tag r else hub_answer (h.lists_all r.sent) rs tag (sent_one r)

  abbrev pub chosen_in : HubLanguages → Option String → Rows → String → Reading → Found
  chosen_in hub none rs tag r = found rs tag r
  chosen_in hub (some chosen) rs tag r = found (rows_of hub.listings chosen) chosen r

  abbrev pub choose_in : Option HubLanguages → String → Rows → String → Reading → Found
  choose_in none lang rs tag r = found rs tag r
  choose_in (some hub) lang rs tag r =
      chosen_in hub (nearest_hub_language l.closest l.trim lang hub.listings hub.session_lang) rs
        tag r

  unfoldable pub list_nearest : String → Rows → String → Reading → Found
  list_nearest lang rs tag r =
      if o.nearest && not (can_carry_sentences rs)
      then and_then (ask_hub rs tag r) (λ rs' tag' r'. choose_in r'.hub lang rs' tag' r')
      else found rs tag r

unfoldable pub key_of_language : (String → String → Bool) → List (String × Rows) → String → String
key_of_language same [] tag = tag
key_of_language same ((k, rs) ∷ ls) tag = if same k tag then k else key_of_language same ls tag

unfoldable pub put_rows : List (String × Rows) → String → Rows → List (String × Rows)
put_rows [] tag rs = (tag, rs) ∷ []
put_rows ((k, old) ∷ ls) tag rs =
    let rest = put_rows ls tag rs in if str_eq k tag then (k, rs) ∷ ls else (k, old) ∷ rest

-- `listed[tag] = rows`, under the key that is there for the language.
unfoldable pub file_rows : (String → String → Bool) → Rows → String → Reading → Found
file_rows same rs tag r =
    let key = key_of_language same r.listed tag in
    found rs key
      (record r { listed = put_rows r.listed key rs; listed_in = r.listed_in ++ key ∷ [] })

unfoldable pub read_language : Hub → ReadOptions → Languages → String → Reading → Found
read_language h o l lang r =
    and_then
      (and_then (and_then (list_first h o l lang r) (list_usual h o l lang))
        (list_nearest h o l lang))
      (file_rows l.same)

unfoldable pub read_languages : Hub → ReadOptions → Languages → List String → Reading → Found
read_languages h o l [] r = found [] "" r
read_languages h o l (lang ∷ langs) r =
    and_then (read_language h o l lang r) (λ rs tag r'. read_languages h o l langs r')
