-- ===== src/Intents/Listings.antt =====
-- intents.go: what the loop of `Intents` lists, and how often it asks.
use thalovant_go_sdk.Prelude.{
  ℕ, ◌+◌, ◌≤◌, Bool, true, false, Option, none, some, String, ◌≡◌, ◌∙◌, refl, if◌then◌else◌, arith,
}
use thalovant_go_sdk.Errors.{Err}
use thalovant_go_sdk.Intents.{
  Rows, HubLanguages, Listing, rows, failed, HubListing, languages, broken, Hub,
  nearest_hub_language,
}
use thalovant_go_sdk.Intents.Reading.{
  Reading, Found, found, stopped, engines, ReadOptions, Languages, and_then, sent_one, first_answer,
  list_first, usual_answer, list_usual, ask_hub, hub_answer, choose_in, chosen_in, list_nearest,
}

-- What the loop holds when it goes on.
pub Holds : (Reading → Type 0) → Found → Type 0
Holds P (found rs tag r) = P r
Holds P (stopped e) = Unit {0}
Holds P engines = Unit {0}

pub Holds-found :
    (P : Reading → Type 0) (rs : Rows) (tag : String) (r : Reading) → P r → Holds P (found rs tag r)
unfolding Holds
Holds-found P rs tag r h = h

pub Holds-stopped : (P : Reading → Type 0) (e : Err) → Holds P (stopped e)
unfolding Holds
Holds-stopped P e = tt

pub Holds-engines : (P : Reading → Type 0) → Holds P engines
unfolding Holds
Holds-engines P = tt

pub Holds-and_then :
    (P Q : Reading → Type 0) (x : Found) (f : Rows → String → Reading → Found)
    → Holds P x
    → ((rs : Rows) (tag : String) (r : Reading) → P r → Holds Q (f rs tag r))
    → Holds Q (and_then x f)
unfolding Holds
Holds-and_then P Q (found rs tag r) f h k = k rs tag r h
Holds-and_then P Q (stopped e) f h k = tt
Holds-and_then P Q engines f h k = tt

-- The queries sent, and the one to the whole hub while it is not sent.
abbrev pub cost : Reading → ℕ
cost r = r.sent + (if r.hub_asked then 0 else 1)

-- The lists stand, and `k` queries at most were spent.
pub record Steps (k : ℕ) (r r' : Reading) : Type 0 where
  pub same_listed : r'.listed ≡ r.listed
  pub same_listed_in : r'.listed_in ≡ r.listed_in
  pub spent : cost r' ≤ cost r + k

pub Holds-imp :
    (P Q : Reading → Type 0) (x : Found) → ((r : Reading) → P r → Q r) → Holds P x → Holds Q x
unfolding Holds
Holds-imp P Q (found rs tag r) f h = f r h
Holds-imp P Q (stopped e) f h = tt
Holds-imp P Q engines f h = tt

pub found-Holds :
    (P : Reading → Type 0) (rs : Rows) (tag : String) (r : Reading) → Holds P (found rs tag r) → P r
unfolding Holds
found-Holds P rs tag r h = h

if-Holds :
    (P : Reading → Type 0) (b : Bool) (x y : Found)
    → Holds P x
    → Holds P y
    → Holds P (if b then x else y)
if-Holds P true x y h k = h
if-Holds P false x y h k = k

stands : (r : Reading) → Steps 0 r r
stands r = record { same_listed = refl; same_listed_in = refl; spent = omega arith }

pub Steps-trans : (j k : ℕ) (r s t : Reading) → Steps j r s → Steps k s t → Steps (j + k) r t
Steps-trans j k r s t v w = record {
  same_listed = w.same_listed ∙ v.same_listed;
  same_listed_in = w.same_listed_in ∙ v.same_listed_in;
  spent = omega (arith, v.spent, w.spent);
}

module _ (h : Hub) (o : ReadOptions) (l : Languages) where
  one : (r : Reading) → Steps 1 r (sent_one r)
  one r = record { same_listed = refl; same_listed_in = refl; spent = omega arith }

  at_most_one : (r : Reading) → Steps 1 r r
  at_most_one r = record { same_listed = refl; same_listed_in = refl; spent = omega arith }

  first_answer-Steps :
      (a : Listing) (lang : String) (r : Reading)
      → Holds (Steps 1 r) (first_answer h o l a lang (sent_one r))
  first_answer-Steps (rows rs) lang r = Holds-found (Steps 1 r) rs lang _ (one r)
  first_answer-Steps (failed denied e) lang r =
      if-Holds (Steps 1 r) _ _ _ (Holds-stopped _ e) (Holds-engines _)

  pub list_first-Steps : (lang : String) (r : Reading) → Holds (Steps 1 r) (list_first h o l lang r)
  unfolding list_first
  list_first-Steps lang r = first_answer-Steps (h.lists r.sent lang) lang r

  usual_answer-Steps :
      (a : Listing) (rs : Rows) (u lang : String) (r : Reading)
      → Holds (Steps 1 r) (usual_answer h o l a rs u lang (sent_one r))
  usual_answer-Steps (rows retried) rs u lang r =
      if-Holds (Steps 1 r) _ _ _ (Holds-found _ _ _ _ (one r)) (Holds-found _ _ _ _ (one r))
  usual_answer-Steps (failed denied e) rs u lang r =
      if-Holds (Steps 1 r) _ _ _ (Holds-stopped _ e)
        (if-Holds (Steps 1 r) _ _ _ (Holds-found _ _ _ _ (one r)) (Holds-found _ _ _ _ (one r)))

  pub list_usual-Steps :
      (lang : String) (rs : Rows) (tag : String) (r : Reading)
      → Holds (Steps 1 r) (list_usual h o l lang rs tag r)
  unfolding list_usual
  list_usual-Steps lang rs tag r =
      if-Holds (Steps 1 r) _ _ _ (in_usual (l.usual lang)) (Holds-found _ _ _ _ (at_most_one r))
    where
      in_usual :
          (u : Option String)
          → Holds (Steps 1 r) (elim u [
            | none ↦ found rs tag r
            | some u ↦ usual_answer h o l (h.lists r.sent u) rs u tag (sent_one r)
          ])
      in_usual none = Holds-found _ _ _ _ (at_most_one r)
      in_usual (some u) = usual_answer-Steps (h.lists r.sent u) rs u tag r

  asked :
      (r : Reading) (hub : Option HubLanguages)
      → r.hub_asked ≡ false
      → Steps 0 r (record (sent_one r) { hub_asked = true; hub = hub })
  asked r hub e = record { same_listed = refl; same_listed_in = refl; spent = ground arith }

  hub_answer-Steps :
      (a : HubListing) (rs : Rows) (tag : String) (r : Reading)
      → r.hub_asked ≡ false
      → Holds (Steps 0 r) (hub_answer h o l a rs tag (sent_one r))
  hub_answer-Steps (languages hub) rs tag r e = Holds-found (Steps 0 r) rs tag _ (asked r hub e)
  hub_answer-Steps (broken err) rs tag r e = Holds-stopped _ err

  ask_hub-Steps :
      (rs : Rows) (tag : String) (r : Reading) → Holds (Steps 0 r) (ask_hub h o l rs tag r)
  unfolding ask_hub
  ask_hub-Steps rs tag r = asks r.hub_asked refl
    where
      asks :
          (b : Bool)
          → r.hub_asked ≡ b
          → Holds (Steps 0 r) (
              if b
              then found rs tag r
              else hub_answer h o l (h.lists_all r.sent) rs tag (sent_one r))
      asks true e = Holds-found _ rs tag r (stands r)
      asks false e = hub_answer-Steps (h.lists_all r.sent) rs tag r e

  choose_in-Steps :
      (hub : Option HubLanguages) (lang : String) (rs : Rows) (tag : String) (r r0 : Reading)
      → Steps 0 r0 r
      → Holds (Steps 0 r0) (choose_in h o l hub lang rs tag r)
  choose_in-Steps none lang rs tag r r0 w = Holds-found _ _ _ _ w
  choose_in-Steps (some hub) lang rs tag r r0 w =
      chosen (nearest_hub_language l.closest l.trim lang hub.listings hub.session_lang)
    where
      chosen : (c : Option String) → Holds (Steps 0 r0) (chosen_in h o l hub c rs tag r)
      chosen none = Holds-found _ _ _ _ w
      chosen (some c) = Holds-found _ _ _ _ w

  pub list_nearest-Steps :
      (lang : String) (rs : Rows) (tag : String) (r : Reading)
      → Holds (Steps 0 r) (list_nearest h o l lang rs tag r)
  unfolding list_nearest
  list_nearest-Steps lang rs tag r =
      if-Holds (Steps 0 r) _ _ _
        (Holds-and_then (Steps 0 r) (Steps 0 r) (ask_hub h o l rs tag r) _ (ask_hub-Steps rs tag r)
          (λ rs' tag' r' w. choose_in-Steps r'.hub lang rs' tag' r' r w))
        (Holds-found _ rs tag r (stands r))
