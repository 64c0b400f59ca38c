-- ===== src/Intents/Exact.antt =====
-- intents.go: the loop of `Intents` when it is not asked for the nearest language.
use thalovant_go_sdk.Prelude.{
  ◌+◌, Bool, true, false, String, List, [], ◌∷◌, ◌++◌, ◌≡◌, ◌⊎◌, ◌∙◌, ap, refl, inl, inr, length,
  Bool-cases, if◌then◌else◌, arith,
}
use thalovant_go_sdk.Errors.{Err}
use thalovant_go_sdk.Intents.{Rows, Listing, rows, failed, Hub}
use thalovant_go_sdk.Intents.Reading.{
  Reading, Found, found, stopped, engines, ReadOptions, Languages, and_then, sent_one, first_answer,
  list_first, list_usual, list_nearest, key_of_language, file_rows, read_language, read_languages,
}
use thalovant_go_sdk.Intents.Listings.{
  Holds, Holds-found, Holds-stopped, Holds-engines, Holds-and_then, Holds-imp,
}

-- The tag is the language, or one that is the same language.
abbrev pub Names : (String → String → Bool) → String → String → Type 0
Names same lang tag = (tag ≡ lang) ⊎ (same tag lang ≡ true)

unfoldable pub AllName : (String → String → Bool) → List String → List String → Type 0
AllName same [] [] = Unit {0}
AllName same (lang ∷ langs) (tag ∷ tags) = Names same lang tag × AllName same langs tags
AllName same _ _ = ⊥

key_of_language-Names :
    (same : String → String → Bool) (ls : List (String × Rows)) (tag : String)
    → Names same tag (key_of_language same ls tag)
unfolding key_of_language
key_of_language-Names same [] tag = inl refl
key_of_language-Names same ((k, rs) ∷ ls) tag =
    let rest = key_of_language-Names same ls tag in
    elim (Bool-cases (same k tag)) [ inl e ↦ rw e (inr e) | inr e ↦ rw e rest ]

-- A language was listed: one query was sent, and one tag recorded that names it.
record One (same : String → String → Bool) (lang : String) (r r' : Reading) : Type 0 where
  pub tag : String
  pub names : Names same lang tag
  pub sent_one_more : r'.sent ≡ r.sent + 1
  pub recorded : r'.listed_in ≡ r.listed_in ++ (tag ∷ [])

-- The same of several languages.
pub record Exactly (same : String → String → Bool) (langs : List String) (r r' : Reading)
    : Type 0 where
  pub tags : List String
  pub names : AllName same langs tags
  pub sent_all : r'.sent ≡ r.sent + length langs
  pub recorded : r'.listed_in ≡ r.listed_in ++ tags

append_assoc : (xs ys zs : List String) → (xs ++ ys) ++ zs ≡ xs ++ (ys ++ zs)
append_assoc [] ys zs = refl
append_assoc (x ∷ xs) ys zs = ap (λ l. x ∷ l) (append_assoc xs ys zs)

append_nil : (xs : List String) → xs ≡ xs ++ []
append_nil [] = refl
append_nil (x ∷ xs) = ap (λ l. x ∷ l) (append_nil xs)

module _ (h : Hub) (o : ReadOptions) (l : Languages) where
  list_usual-off :
      (lang : String) (rs : Rows) (tag : String) (r : Reading)
      → o.nearest ≡ false
      → list_usual h o l lang rs tag r ≡ found rs tag r
  unfolding list_usual
  list_usual-off lang rs tag r off = rw off refl

  list_nearest-off :
      (lang : String) (rs : Rows) (tag : String) (r : Reading)
      → o.nearest ≡ false
      → list_nearest h o l lang rs tag r ≡ found rs tag r
  unfolding list_nearest
  list_nearest-off lang rs tag r off = rw off refl

  ended-Holds :
      (P : Reading → Type 0) (b : Bool) (e : Err) (f g k : Rows → String → Reading → Found)
      → Holds P (and_then (and_then (and_then (if b then stopped e else engines) f) g) k)
  ended-Holds P true e f g k = Holds-stopped P e
  ended-Holds P false e f g k = Holds-engines P

  filed-One :
      (rs : Rows) (lang : String) (r : Reading)
      → Holds (One l.same lang r) (file_rows l.same rs lang (sent_one r))
  unfolding file_rows
  filed-One rs lang r = Holds-found _ _ _ _ (record {
    tag = key_of_language l.same r.listed lang;
    names = key_of_language-Names l.same r.listed lang;
    sent_one_more = refl;
    recorded = refl;
  })

  answered-One :
      (a : Listing) (lang : String) (r : Reading)
      → o.nearest ≡ false
      → Holds (One l.same lang r) (
          and_then
            (and_then
              (and_then (first_answer h o l a lang (sent_one r)) (list_usual h o l lang))
              (list_nearest h o l lang))
            (file_rows l.same))
  answered-One (rows rs) lang r off =
      rw
        (
          list_usual-off lang rs lang (sent_one r) off,
          list_nearest-off lang rs lang (sent_one r) off,
        )
        (filed-One rs lang r)
  answered-One (failed denied e) lang r off = ended-Holds _ _ e _ _ _

  read_language-One :
      (lang : String) (r : Reading)
      → o.nearest ≡ false
      → Holds (One l.same lang r) (read_language h o l lang r)
  unfolding read_language list_first
  read_language-One lang r off = answered-One (h.lists r.sent lang) lang r off

  more :
      (lang : String) (langs : List String) (r s t : Reading)
      → One l.same lang r s
      → Exactly l.same langs s t
      → Exactly l.same (lang ∷ langs) r t
  unfolding AllName
  more lang langs r s t v w = record {
    tags = v.tag ∷ w.tags;
    names = (v.names, w.names);
    sent_all = omega (arith, v.sent_one_more, w.sent_all);
    recorded =
        w.recorded
        ∙ ap (λ x. x ++ w.tags) v.recorded
        ∙ append_assoc r.listed_in (v.tag ∷ []) w.tags;
  }

  pub read_languages-Exactly :
      (langs : List String) (r : Reading)
      → o.nearest ≡ false
      → Holds (Exactly l.same langs r) (read_languages h o l langs r)
  unfolding read_languages AllName
  read_languages-Exactly [] r off =
      Holds-found _ [] "" r (record {
        tags = [];
        names = tt;
        sent_all = omega arith;
        recorded = append_nil r.listed_in;
      })
  read_languages-Exactly (lang ∷ langs) r off =
      Holds-and_then (One l.same lang r) (Exactly l.same (lang ∷ langs) r) _ _
        (read_language-One lang r off)
        (λ rs tag s v.
          Holds-imp (Exactly l.same langs s) (Exactly l.same (lang ∷ langs) r) _
            (λ t w. more lang langs r s t v w) (read_languages-Exactly langs s off))
