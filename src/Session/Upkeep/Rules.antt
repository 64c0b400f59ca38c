-- ===== src/Session/Upkeep/Rules.antt =====
-- session.go: what Run does follows from what happened to its link.
use thalovant_go_sdk.Prelude.{
  ℕ, ◌<◌, ◌≡◌, inl, inr, refl, ap, ◌∙◌, arith, Bool, not, true, false, Option, none, some, List, [],
  ◌∷◌, Option-cases, if◌then◌else◌,
}
use thalovant_go_sdk.Errors.{Err}
use thalovant_go_sdk.Link.{
  after_refused, climb, LinkSupervisor, HubSessionPolicy, LinkOutcome, up, dropped, LinkDecision,
  hold, retry, give_up, new_link_supervisor, after, History, supervise,
}
use thalovant_go_sdk.Link.History.{decide, supervise-decide}
use thalovant_go_sdk.Session.{HubSession}
use thalovant_go_sdk.Session.Calls.{run, connect}
use thalovant_go_sdk.Session.Upkeep.{
  link_outcome, Turn, connected, watch, Act, attempted, told, paused, Upkeep, Return, nil,
  ctx_error, gave_up, Turned, goes_on, watches, returns, tell, after_watching, act_on,
  after_attempt, attempt_turn, turn, run_loop, run_session,
}

-- The outcomes that Run told, the last one first.
unfoldable pub history_of : List Act → History
history_of [] = []
history_of (told o t d ∷ log) = (o, t) ∷ history_of log
history_of (paused w ∷ log) = history_of log
history_of (attempted e ∷ log) = history_of log

unfoldable pub last_decision : List Act → Option LinkDecision
last_decision [] = none
last_decision (told o t d ∷ log) = some d
last_decision (paused w ∷ log) = none
last_decision (attempted e ∷ log) = none

abbrev pub is_last : LinkDecision → Bool
is_last (give_up o) = true
is_last _ = false

-- Run has not been told to give up.
unfoldable pub is_open : List Act → Bool
is_open log = elim (last_decision log) [ none ↦ true | some d ↦ not (is_last d) ]

-- The outcome just told is that of the attempt before it; a dropped link is told when there is none.
unfoldable pub Reports : LinkOutcome → List Act → Type 0
Reports o (attempted e ∷ log) = o ≡ link_outcome e
Reports o log = o ≡ dropped

-- No attempt waits to be told.
unfoldable pub is_told : List Act → Bool
is_told (attempted e ∷ log) = false
is_told log = true

-- Run paused as the decision just made said, on the error of an attempt.
unfoldable pub Pauses : ℕ → List Act → Type 0
Pauses w (told o t d ∷ attempted (some e) ∷ log) = d ≡ retry w
Pauses w log = ⊥

-- Every decision is the one that the rules give for what was told before it, and every outcome told is
-- that of an attempt or that the link was dropped; nothing is tried or told after a decision to give
-- up; and Run paused only after an attempt that failed, for as long as the decision on it said.
unfoldable pub Ruled : HubSessionPolicy → ℕ → List Act → Type 0
Ruled p grace [] = Unit
Ruled p grace (attempted e ∷ log) = (is_open log ≡ true) × Ruled p grace log
Ruled p grace (told o t d ∷ log) =
    (d ≡ decide p grace (history_of log) o t)
    × (is_open log ≡ true)
    × Reports o log
    × Ruled p grace log
Ruled p grace (paused w ∷ log) = Pauses w log × Ruled p grace log

-- Run returns nil for a closed session, and an attempt's error when its outcome was to give up.
unfoldable pub Justified : Upkeep → Return → Type 0
Justified k nil = k.session.is_closed ≡ true
Justified k (ctx_error e) = Unit
Justified k (gave_up e) = last_decision k.log ≡ some (give_up (link_outcome (some e)))

unfoldable pub Kept : HubSessionPolicy → ℕ → LinkSupervisor → List Act → Type 0
Kept p grace l log =
    (l ≡ supervise (new_link_supervisor p grace) (history_of log)) × Ruled p grace log

unfoldable pub Sound : HubSessionPolicy → ℕ → Turned → Type 0
Sound p grace (goes_on k) =
    Kept p grace k.supervisor k.log × (is_open k.log ≡ true) × (is_told k.log ≡ true)
Sound p grace (watches k) = Kept p grace k.supervisor k.log
Sound p grace (returns k r) = Kept p grace k.supervisor k.log × Justified k r

decision-is_open :
    (log : List Act) (d : LinkDecision)
    → last_decision log ≡ some d
    → is_last d ≡ false
    → is_open log ≡ true
unfolding is_open
decision-is_open log d e o = rw (is_open, e, o) refl

module _ (p : HubSessionPolicy) (grace : ℕ) where
  if-Sound :
      (b : Bool) (x y : Turned)
      → (b ≡ true → Sound p grace x)
      → (b ≡ false → Sound p grace y)
      → Sound p grace (if b then x else y)
  if-Sound true x y f g = f refl
  if-Sound false x y f g = g refl

  paused-Kept :
      (wait : ℕ) (l : LinkSupervisor) (log : List Act)
      → Kept p grace l log
      → Pauses wait log
      → Kept p grace l (paused wait ∷ log)
  unfolding Kept Ruled history_of
  paused-Kept wait l log (s, r) d = (s, (d, r))

  act_on-Sound :
      (t : Turn) (e : Err) (k : Upkeep) (d : LinkDecision)
      → Kept p grace k.supervisor k.log
      → last_decision k.log ≡ some d
      → ((o : LinkOutcome) → d ≡ give_up o → o ≡ link_outcome (some e))
      → ((w : ℕ) → d ≡ retry w → Pauses w k.log)
      → is_told k.log ≡ true
      → Sound p grace (act_on t (some e) (k, d))
  unfolding act_on Sound Justified is_open is_told last_decision
  act_on-Sound t e k hold h l same due u = (h, decision-is_open k.log hold l refl, u)
  act_on-Sound t e k (give_up o) h l same due u = (h, l ∙ ap (λ o. some (give_up o)) (same o refl))
  act_on-Sound t e k (retry wait) h l same due u = elim (Option-cases t.ctx_paused) [
    | inl c ↦ rw c (paused-Kept wait k.supervisor k.log h (due wait refl), refl, refl)
    | inr (e', c) ↦ rw c (paused-Kept wait k.supervisor k.log h (due wait refl), tt)
  ]

gave_up_outcome :
    (l : LinkSupervisor) (o o' : LinkOutcome) (now : ℕ) → (after l o now).1 ≡ give_up o' → o' ≡ o
unfolding after after_refused climb
gave_up_outcome l up now o' e = cc
gave_up_outcome l o o' now e = ground arith

module _ (p : HubSessionPolicy) (grace : ℕ) (positive : 0 < grace) where
  tell-Kept :
      (o : LinkOutcome) (now : ℕ) (k : Upkeep)
      → Kept p grace k.supervisor k.log
      → is_open k.log ≡ true
      → Reports o k.log
      → (let k' = (tell o now k).0 in Kept p grace k'.supervisor k'.log)
  unfolding Kept tell Ruled history_of supervise
  tell-Kept o now k (s, r) i due =
      (rw s refl, (rw s (supervise-decide p grace (history_of k.log) o now positive), i, due, r))

  dropped-Reports : (log : List Act) → is_told log ≡ true → Reports dropped log
  unfolding is_told Reports
  dropped-Reports [] u = refl
  dropped-Reports (attempted e ∷ log) u = absurd (ground arith)
  dropped-Reports (told o t d ∷ log) u = refl
  dropped-Reports (paused w ∷ log) u = refl

  after_watching-Sound :
      (t : Turn) (k : Upkeep) (o : Option (HubSession × Option Err))
      → Kept p grace k.supervisor k.log
      → is_open k.log ≡ true
      → is_told k.log ≡ true
      → Sound p grace (after_watching t k o)
  unfolding after_watching Sound Justified tell is_open is_told last_decision after
  after_watching-Sound t k none h i u = h
  after_watching-Sound t k (some (s, some e)) h i u = (h, tt)
  after_watching-Sound t k (some (s, none)) h i u =
      if-Sound p grace (run s t.after_watch).is_closed _ _ (λ c. (h, c))
        (λ c. (tell-Kept dropped t.now k h i (dropped-Reports k.log u), refl, refl))

  attempted-Kept :
      (l : LinkSupervisor) (err : Option Err) (log : List Act)
      → Kept p grace l log
      → is_open log ≡ true
      → Kept p grace l (attempted err ∷ log)
  unfolding Kept Ruled history_of
  attempted-Kept l err log (s, r) i = (s, (i, r))

  -- `k` is the state just after an attempt that failed with `e`.
  told_act-Sound :
      (t : Turn) (e : Err) (s : HubSession) (l : LinkSupervisor) (log : List Act)
      → Kept p grace l (attempted (some e) ∷ log)
      → (let k : Upkeep = record { session = s; supervisor = l; log = attempted (some e) ∷ log } in
          Sound p grace (act_on t (some e) (tell (link_outcome (some e)) t.now k)))
  unfolding tell last_decision is_told Pauses Reports is_open
  told_act-Sound t e s l log h =
      let o = link_outcome (some e) in
      let k : Upkeep = record { session = s; supervisor = l; log = attempted (some e) ∷ log } in
      act_on-Sound p grace t e (tell o t.now k).0 (tell o t.now k).1
        (tell-Kept o t.now k h refl refl) refl (λ o' same. gave_up_outcome l o o' t.now same)
        (λ w same. same) refl

  after_attempt-Sound :
      (t : Turn) (s : HubSession) (l : LinkSupervisor) (err : Option Err) (log : List Act)
      → Kept p grace l (attempted err ∷ log)
      → Sound p grace
          (after_attempt t (record { session = s; supervisor = l; log = attempted err ∷ log }) err)
  unfolding after_attempt Sound Justified act_on tell is_open is_told last_decision after
      link_outcome Reports
  after_attempt-Sound t s l none log h = (
    tell-Kept up t.now (record { session = s; supervisor = l; log = attempted none ∷ log }) h refl
        refl,
    refl,
    refl,
  )
  after_attempt-Sound t s l (some e) log h =
      if-Sound p grace s.is_closed _ _ (λ c. (h, c))
        (λ c. elim (Option-cases t.ctx_later) [
          | inl same ↦ rw same (told_act-Sound t e s l log h)
          | inr (e', same) ↦ rw same (h, tt)
        ])

  turn-Sound :
      (t : Turn) (k : Upkeep)
      → Kept p grace k.supervisor k.log
      → is_open k.log ≡ true
      → is_told k.log ≡ true
      → Sound p grace (turn t k)
  unfolding turn Sound Justified attempt_turn
  turn-Sound t k h i u =
      if-Sound p grace (run k.session t.before).is_closed _ _ (λ c. (h, c))
        (λ c. elim (Option-cases t.ctx) [
          | inl l ↦ rw l (
              if-Sound p grace (connected t.is_alive (run k.session t.before)) _ _
                (λ _. after_watching-Sound t _ (watch t.looks (run k.session t.before)) h i u)
                (λ _.
                  after_attempt-Sound t _ k.supervisor (connect t.env (run k.session t.before)).1
                    k.log (attempted-Kept k.supervisor _ k.log h i)))
          | inr (e, l) ↦ rw l (h, tt)
        ])

  run_loop-Sound :
      (ts : List Turn) (k : Upkeep)
      → Kept p grace k.supervisor k.log
      → is_open k.log ≡ true
      → is_told k.log ≡ true
      → Sound p grace (run_loop ts k)
  unfolding run_loop Sound
  run_loop-Sound [] k h i u = (h, i, u)
  run_loop-Sound (t ∷ ts) k h i u =
      go (λ k'. run_loop ts k') (run_loop-Sound ts) (turn t k) (turn-Sound t k h i u)
    where
      go :
          (later : Upkeep → Turned)
          → ((k' : Upkeep)
              → Kept p grace k'.supervisor k'.log
              → is_open k'.log ≡ true
              → is_told k'.log ≡ true
              → Sound p grace (later k'))
          → (o : Turned) → Sound p grace o
          → Sound p grace (elim o [ goes_on k' ↦ later k' | other ↦ other ])
      go later next (goes_on k') (h', i', u') = next k' h' i' u'
      go later next (watches k') h' = h'
      go later next (returns k' r) h' = h'

-- With a positive grace, whatever other goroutines do with the session and whatever its hub, its
-- context and the clock answer: every decision is the one that the rules give for the outcomes
-- before it, and every outcome told is that of the attempt just made, or, when none was made, that
-- the link was dropped; nothing is tried or told after a decision to give up; Run pauses only after
-- an attempt that failed, for as long as the decision on it said; it returns nil only while the
-- session is closed, and an attempt's error only when its last decision was to give up for that
-- error's outcome.
pub run_session-Sound :
    (ts : List Turn) (grace : ℕ) (s : HubSession)
    → 0 < grace
    → Sound s.policy grace (run_session ts grace s)
unfolding run_session Kept Ruled supervise history_of is_open is_told last_decision
run_session-Sound ts grace s positive =
    run_loop-Sound s.policy grace positive ts _ (refl, tt) refl refl
