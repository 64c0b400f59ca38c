-- ===== src/Intents/Rounds.antt =====
-- intents.go: the loop of `Intents` as a whole.
use mathlib.Core.Path.{subst}
use thalovant_go_sdk.Prelude.{
  ℕ, ◌+◌, ◌*◌, ◌≤◌, Bool, true, String, List, [], ◌∷◌, ◌++◌, ◌≡◌, ◌∙◌, ap, sym, false, length,
  length-append, All, arith,
}
use thalovant_go_sdk.Intents.{Rows, Hub, has_tag}
use thalovant_go_sdk.Intents.Reading.{
  Reading, no_reading, found, ReadOptions, Languages, and_then, list_first, list_usual,
  list_nearest, key_of_language, put_rows, file_rows, read_language, read_languages,
}
use thalovant_go_sdk.Intents.Exact.{AllName, Exactly, read_languages-Exactly}
use thalovant_go_sdk.Intents.Keys.{
  keys_of, Apart, All-append_one, put_rows-Apart, put_rows-has_key, put_rows-keeps_key,
}
use thalovant_go_sdk.Intents.Listings.{
  Holds, Holds-found, Holds-and_then, cost, Steps, Steps-trans, list_first-Steps, list_usual-Steps,
  list_nearest-Steps, Holds-imp, found-Holds,
}

-- Every tag that answered is a key, and no two keys are the same language.
pub record IsListed (same : String → String → Bool) (r : Reading) : Type 0 where
  pub apart : Apart same (keys_of r.listed)
  pub keyed : All (λ t. has_tag (keys_of r.listed) t ≡ true) r.listed_in

record Read (same : String → String → Bool) (n : ℕ) (r r' : Reading) : Type 0 where
  pub spent : cost r' ≤ cost r + 2 * n
  pub counted : length r'.listed_in ≡ length r.listed_in + n
  pub keeps : IsListed same r → IsListed same r'

All-imp :
    (P Q : String → Type 0) (ts : List String) → ((t : String) → P t → Q t) → All P ts → All Q ts
All-imp P Q [] f h = tt
All-imp P Q (t ∷ ts) f h = (f t h.0, All-imp P Q ts f h.1)

Steps-IsListed :
    (same : String → String → Bool) (r0 r : Reading)
    → Steps 2 r0 r
    → IsListed same r0
    → IsListed same r
Steps-IsListed same r0 r w v = record {
  apart = rw w.same_listed (v.apart);
  keyed = rw w.same_listed_in (rw w.same_listed (v.keyed));
}

filed-IsListed :
    (same : String → String → Bool) (rs : Rows) (tag : String) (r : Reading)
    → IsListed same r
    → let key = key_of_language same r.listed tag in
      IsListed same
        (record r { listed = put_rows r.listed key rs; listed_in = r.listed_in ++ key ∷ [] })
filed-IsListed same rs tag r v =
    let key = key_of_language same r.listed tag in
    let after = keys_of (put_rows r.listed key rs) in
    record {
      apart = put_rows-Apart same r.listed tag rs v.apart;
      keyed =
          All-append_one (λ t. has_tag after t ≡ true) r.listed_in key
            (All-imp (λ t. has_tag (keys_of r.listed) t ≡ true) (λ t. has_tag after t ≡ true)
              r.listed_in (put_rows-keeps_key same r.listed key rs) v.keyed)
            (put_rows-has_key same r.listed key rs);
    }

file_rows-Read :
    (same : String → String → Bool) (rs : Rows) (tag : String) (r0 r : Reading)
    → Steps 2 r0 r
    → Holds (Read same 1 r0) (file_rows same rs tag r)
unfolding file_rows
file_rows-Read same rs tag r0 r w =
    Holds-found (Read same 1 r0) rs (key_of_language same r.listed tag) _ (record {
      spent = omega (arith, w.spent);
      counted =
          length-append r.listed_in (key_of_language same r.listed tag ∷ [])
          ∙ ap (λ l. length l + 1) w.same_listed_in;
      keeps = λ v. filed-IsListed same rs tag r (Steps-IsListed same r0 r w v);
    })

module _ (h : Hub) (o : ReadOptions) (l : Languages) where
  listing-Steps :
      (lang : String) (r : Reading)
      → Holds (Steps 2 r) (
          and_then
            (and_then (list_first h o l lang r) (list_usual h o l lang))
            (list_nearest h o l lang))
  listing-Steps lang r =
      Holds-and_then (Steps 2 r) (Steps 2 r) _ _
        (Holds-and_then (Steps 1 r) (Steps 2 r) _ _ (list_first-Steps h o l lang r) (λ rs tag s w.
          Holds-imp (Steps 1 s) (Steps 2 r) _ (λ t v. Steps-trans 1 1 r s t w v)
            (list_usual-Steps h o l lang rs tag s)))
        (λ rs tag s w.
          Holds-imp (Steps 0 s) (Steps 2 r) _ (λ t v. Steps-trans 2 0 r s t w v)
            (list_nearest-Steps h o l lang rs tag s))

  read_language-Read :
      (lang : String) (r : Reading) → Holds (Read l.same 1 r) (read_language h o l lang r)
  unfolding read_language
  read_language-Read lang r =
      Holds-and_then (Steps 2 r) (Read l.same 1 r) _ _ (listing-Steps lang r)
        (λ rs tag s w. file_rows-Read l.same rs tag r s w)

  read_languages-Read :
      (langs : List String) (r : Reading)
      → Holds (Read l.same (length langs) r) (read_languages h o l langs r)
  unfolding read_languages
  read_languages-Read [] r =
      Holds-found _ [] "" r (record { spent = omega arith; counted = omega arith; keeps = λ i. i })
  read_languages-Read (lang ∷ langs) r =
      Holds-and_then (Read l.same 1 r) (Read l.same (length (lang ∷ langs)) r) _ _
        (read_language-Read lang r)
        (λ rs tag s v.
          Holds-imp (Read l.same (length langs) s) (Read l.same (length (lang ∷ langs)) r) _
            (λ t w. more langs lang r s t v w) (read_languages-Read langs s))
    where
      more :
          (langs : List String) (lang : String) (r s t : Reading)
          → Read l.same 1 r s
          → Read l.same (length langs) s t
          → Read l.same (length (lang ∷ langs)) r t
      more langs lang r s t v w = record {
        spent = omega (arith, v.spent, w.spent);
        counted = omega (arith, v.counted, w.counted);
        keeps = λ i. w.keeps (v.keeps i);
      }

  of_reading :
      (langs : List String) (rs : Rows) (tag : String) (r : Reading)
      → read_languages h o l langs no_reading ≡ found rs tag r
      → Read l.same (length langs) no_reading r
  of_reading langs rs tag r e = found-Holds _ rs tag r (
      subst (Holds (Read l.same (length langs) no_reading)) e
        (read_languages-Read langs no_reading))

  exactly_of :
      (langs : List String) (rs : Rows) (tag : String) (r : Reading)
      → read_languages h o l langs no_reading ≡ found rs tag r
      → o.nearest ≡ false
      → Exactly l.same langs no_reading r
  exactly_of langs rs tag r e off = found-Holds _ rs tag r (
      subst (Holds (Exactly l.same langs no_reading)) e
        (read_languages-Exactly h o l langs no_reading off))

  -- When every language asked for was listed, at most two queries for each were sent, and one more,
  -- and one tag was recorded for each; and when the nearest language was not asked for, just one
  -- query for each, and its tag is that language or one that is the same language.
  pub read_languages_queries :
      (langs : List String) (rs : Rows) (tag : String) (r : Reading)
      → read_languages h o l langs no_reading ≡ found rs tag r
      → (r.sent ≤ 2 * length langs + 1)
        × (length r.listed_in ≡ length langs)
        × (o.nearest ≡ false → (r.sent ≡ length langs) × AllName l.same langs r.listed_in)
  read_languages_queries langs rs tag r e =
      let w = of_reading langs rs tag r e in
      (
        omega (arith, w.spent),
        omega (arith, w.counted),
        λ off.
            let x = exactly_of langs rs tag r e off in
            (omega (arith, x.sent_all), subst (AllName l.same langs) (sym x.recorded) (x.names)),
      )

  -- When every language asked for was listed, every tag that answered is a key of the listings, and
  -- no key is the language of a key before it.
  pub read_languages-IsListed :
      (langs : List String) (rs : Rows) (tag : String) (r : Reading)
      → read_languages h o l langs no_reading ≡ found rs tag r
      → IsListed l.same r
  read_languages-IsListed langs rs tag r e =
      let w = of_reading langs rs tag r e in w.keeps (record { apart = tt; keyed = tt })
