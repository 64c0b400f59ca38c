-- ===== src/Languages.antt =====
-- language_matching.go: language tags, the distance between two of them, and the closest of several.
--
-- The tables of data/language-matching.json and the functions of strings are parameters. A key that a
-- table does not have reads as "", as in Go; `likely` gives an entry's three parts, and `root` is that
-- of "und", which the file has. Distances are not negative there.
pub mod Closest
pub mod Tests
use text.Mathlib.Text.{◌==◌ as str_eq}
use thalovant_go_sdk.Prelude.{
  ℕ, ◌+◌, ◌-◌, ◌*◌, ◌^◌, Bool, true, false, not, ◌&&◌, ◌||◌, Option, none, some, String, List, [],
  ◌∷◌, ltb, leb, ◌==◌, if◌then◌else◌,
}

pub record LanguageTag : Type 0 where
  pub language : String
  pub script : String
  pub region : String

pub record LanguageMatchingData : Type 0 where
  pub likely : String → Option LanguageTag
  pub root : LanguageTag
  pub languages : String → String
  pub scripts : String → String
  pub territories : String → String
  pub default_scripts : String → String
  pub macrolanguages : String → String
  pub distances : String → String → Option ℕ
  pub regions : String → List String

-- `fold` is `strings.ToLower` of the trimmed text with "_" as "-"; `title` raises the first letter;
-- `is_script` and `is_region` are the regular expressions; `is_one` tells a token of one letter;
-- `join` puts "-", and `pair` "_", between two texts.
pub record TagText : Type 0 where
  pub fold : String → String
  pub trim : String → String
  pub lower : String → String
  pub upper : String → String
  pub title : String → String
  pub split : String → List String
  pub is_script : String → Bool
  pub is_region : String → Bool
  pub is_one : String → Bool
  pub join : String → String → String
  pub pair : String → String → String

abbrev pub no_text : String → Bool
no_text s = str_eq s ""

abbrev pub or_text : String → String → String
or_text s t = if no_text s then t else s

unfoldable pub primary_of : List String → String
primary_of [] = "und"
primary_of (token ∷ tokens) = or_text token "und"

abbrev pub tail_of : List String → List String
tail_of [] = []
tail_of (token ∷ tokens) = tokens

abbrev pub plain_base : String → LanguageTag
plain_base primary = record { language = primary; script = ""; region = "" }

unfoldable pub contains_region : List String → String → Bool
contains_region [] r = false
contains_region (s ∷ ss) r = str_eq s r || contains_region ss r

abbrev pub differ : Bool → Bool → Bool
differ true b = not b
differ false b = b

module _ (g : TagText) (d : LanguageMatchingData) where
  unfoldable pub read_token : String → LanguageTag → LanguageTag
  read_token token base =
      if g.is_script token
      then record base { script = or_text (d.scripts token) (g.title token) }
      else if g.is_region token
      then record base { region = or_text (d.territories token) (g.upper token) }
      else base

  unfoldable pub read_tokens : List String → LanguageTag → LanguageTag
  read_tokens [] base = base
  read_tokens (token ∷ tokens) base =
      let rest = read_tokens tokens (read_token token base) in if g.is_one token then base else rest

  -- `onlyScript`, of the tokens up to the one that ends the loop.
  unfoldable pub only_script : List String → Bool
  only_script [] = true
  only_script (token ∷ tokens) =
      let rest = only_script tokens in g.is_script token && (if g.is_one token then true else rest)

  unfoldable pub finish_tag : Bool → LanguageTag → LanguageTag
  finish_tag only base =
      let b : LanguageTag =
        if str_eq base.script (d.default_scripts base.language)
        then record base { script = "" }
        else base in
      if str_eq b.language "pt" && no_text b.script && no_text b.region && only
      then record b { region = "PT" }
      else b

  unfoldable pub read_language : (String → LanguageTag) → List String → LanguageTag
  read_language base tokens =
      finish_tag (only_script (tail_of tokens))
        (read_tokens (tail_of tokens) (base (primary_of tokens)))

  -- `parseLanguage(value, false)`
  unfoldable pub parse_plain : String → LanguageTag
  parse_plain value = read_language plain_base (g.split (g.fold value))

  unfoldable pub alias_base : String → LanguageTag
  alias_base primary =
      if no_text (d.languages primary)
      then plain_base primary
      else parse_plain (d.languages primary)

  -- `parseLanguage(value, true)`
  unfoldable pub parse_language : String → LanguageTag
  parse_language value =
      let folded = g.fold value in
      let known = if no_text (d.languages folded) then folded else g.lower (d.languages folded) in
      read_language alias_base (g.split known)

  abbrev pub join_known : String → String → String
  join_known s t = if no_text s then t else if no_text t then s else g.join s t

  unfoldable pub probes : LanguageTag → List String
  probes v =
      let last = if no_text v.script then [] else g.join "und" v.script ∷ [] in
      let short = join_known v.language v.script ∷ v.language ∷ last in
      join_known (join_known v.language v.script) v.region ∷ join_known v.language v.region ∷ short

  -- The entry of the first probe that has one; the last probe is "und".
  unfoldable pub first_likely : List String → LanguageTag
  first_likely [] = d.root
  first_likely (probe ∷ ps) =
      let rest = first_likely ps in elim (d.likely probe) [ none ↦ rest | some t ↦ t ]

  abbrev pub fill_in : LanguageTag → LanguageTag → LanguageTag
  fill_in v t = record {
    language = if str_eq v.language "und" then t.language else v.language;
    script = or_text v.script t.script;
    region = or_text v.region t.region;
  }

  unfoldable pub maximize_language : LanguageTag → LanguageTag
  maximize_language value =
      if str_eq value.language "und" && no_text value.script && no_text value.region
      then record { language = "und"; script = "Zzzz"; region = "ZZ" }
      else let v : LanguageTag = record value {
        language = or_text (d.macrolanguages value.language) value.language;
      } in
        fill_in v (first_likely (probes v))

  abbrev pub table_distance : String → String → ℕ → ℕ
  table_distance from to fallback = elim (d.distances from to) [ none ↦ fallback | some n ↦ n ]

  abbrev pub inside : String → String → Bool
  inside group region = contains_region (d.regions group) region

  -- Of two tags with the same language and script, and other regions.
  unfoldable pub region_distance : LanguageTag → LanguageTag → ℕ
  region_distance a b =
      if str_eq a.language "ar"
      then if differ (inside "MAGHREB" a.region) (inside "MAGHREB" b.region) then 5 else 4
      else if str_eq a.language "en"
      then if str_eq a.region "GB" && not (inside "US" b.region)
          || not (inside "US" a.region) && str_eq b.region "GB"
        then 3
        else if differ (inside "US" a.region) (inside "US" b.region)
        then 5
        else 4
      else if inside "LATIN_AMERICA" a.region && str_eq b.region "419"
      then 1
      else if str_eq a.language "es" || str_eq a.language "pt"
      then if differ (inside "AMERICAS" a.region) (inside "AMERICAS" b.region) then 5 else 4
      else if str_eq (g.pair a.language a.script) "zh_Hant"
      then if differ (inside "CNSAR" a.region) (inside "CNSAR" b.region) then 5 else 4
      else 4

  unfoldable pub tag_distance : LanguageTag → LanguageTag → ℕ
  tag_distance a b =
      let pair_a = g.pair a.language a.script in
      let pair_b = g.pair b.language b.script in
      let of_language =
        if str_eq a.language b.language then 0 else table_distance a.language b.language 80 in
      let of_script = if str_eq a.script b.script then 0 else table_distance pair_a pair_b 50 in
      if str_eq a.region b.region
      then of_language + of_script
      else of_language + of_script + (if str_eq pair_a pair_b then region_distance a b else 4)

  unfoldable pub language_distance : String → String → ℕ
  language_distance wanted candidate =
      tag_distance (maximize_language (parse_language wanted))
        (maximize_language (parse_language candidate))

  -- The loop of `ClosestLanguage`, with the best so far and its score.
  unfoldable pub closest_from : String → String → ℕ → List String → Option String
  closest_from target best minimum [] = if leb minimum 10 then some best else none
  closest_from target best minimum (c ∷ cs) =
      let nearer = closest_from target c (language_distance target c) cs in
      let same = closest_from target best minimum cs in
      if ltb (language_distance target c) minimum then nearer else same

  unfoldable pub closest_language : String → List String → Option String
  closest_language target available = closest_from target "" (2 ^ 63 - 1) available

  abbrev pub usual_of : LanguageTag → String
  usual_of likely =
      g.lower
        (if no_text likely.region then likely.language else g.join likely.language likely.region)

  abbrev pub usual_text : String → String → Option String
  usual_text usual tag = if str_eq usual (g.trim tag) then none else some usual

  unfoldable pub usual_form : String → Option String
  usual_form tag =
      let base = (parse_language tag).language in
      if no_text (g.trim tag) || no_text base || str_eq base "und"
      then none
      else elim (d.likely base) [
        | none ↦ none
        | some t ↦ usual_text (usual_of (maximize_language (plain_base base))) tag
      ]
