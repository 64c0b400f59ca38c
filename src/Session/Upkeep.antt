-- ===== src/Session/Upkeep.antt =====
-- session.go: `Run`, which keeps a session's link up, with `watch` and `pause`.
-- Other goroutines use the session while it runs: what they do between two of its looks at the session
-- is a list of steps. What Run learns from outside is one `Turn` for each round of its loop.
pub mod Rules
pub mod GivingUp
mod Tests
use thalovant_go_sdk.Prelude.{
  ℕ, Bool, true, false, not, ◌&&◌, Option, none, some, List, [], ◌∷◌, ◌==◌, if◌then◌else◌,
}
use thalovant_go_sdk.Errors.{Err, is, err_hub_refused, err_hub_key_changed, err_client_key_rejected}
use thalovant_go_sdk.Link.{
  LinkOutcome, up, dropped, failed, refused, key_changed, client_key_rejected, LinkDecision, hold,
  retry, give_up, LinkSupervisor, new_link_supervisor, after,
}
use thalovant_go_sdk.Session.{HubSession, Env, drop}
use thalovant_go_sdk.Session.Calls.{Step, run, connect}

unfoldable pub link_outcome : Option Err → LinkOutcome
link_outcome none = up
link_outcome (some e) =
    if is e err_hub_key_changed
    then key_changed
    else if is e err_client_key_rejected
    then client_key_rejected
    else if is e err_hub_refused
    then refused
    else failed

-- What the `select` of `watch` takes: the context's end, the session's, or a check. Before a check
-- others take steps, and again while it waits for the gate.
pub data Look : Type 0 where
  ctx_ended : Err → Look
  woken : Look
  checked : List Step → Env → List Step → Look

pub record Turn : Type 0 where
  pub before : List Step
  pub ctx : Option Err
  pub is_alive : ℕ → Bool
  pub looks : List Look
  pub after_watch : List Step
  pub env : Env
  pub after_connect : List Step
  pub ctx_later : Option Err
  pub now : ℕ
  pub ctx_paused : Option Err

-- `Connected`.
unfoldable pub connected : (ℕ → Bool) → HubSession → Bool
connected alive s = elim s.client [ none ↦ false | some c ↦ alive c ]

abbrev pub holds_client : HubSession → ℕ → Bool
holds_client s c = elim s.client [ none ↦ false | some d ↦ d == c ]

-- A dead client is let go under the gate, if the session still holds it.
unfoldable pub let_dead_go : ℕ → Env → HubSession → HubSession × Option Err
let_dead_go c v s = elim v.gate [
  | some e ↦ (s, some e)
  | none ↦ if holds_client s c then ((drop v s).0, none) else (s, none)
]

-- `none`: it watches still when the looks are at an end.
unfoldable pub watch : List Look → HubSession → Option (HubSession × Option Err)
watch [] s = none
watch (ctx_ended e ∷ looks) s = some (s, some e)
watch (woken ∷ looks) s = some (s, none)
watch (checked before v waiting ∷ looks) s =
    let t = run s before in
    let rest = watch looks t in
    elim t.client [
      | none ↦ some (t, none)
      | some c ↦ if v.alive_before c then rest else some (let_dead_go c v (run t waiting))
    ]

-- What Run did: `Connect` returned an error or none, it told the supervisor an outcome at a time and
-- got a decision, or it paused.
pub data Act : Type 0 where
  attempted : Option Err → Act
  told : LinkOutcome → ℕ → LinkDecision → Act
  paused : ℕ → Act

-- Run's state, its log with the last act first.
pub record Upkeep : Type 0 where
  pub session : HubSession
  pub supervisor : LinkSupervisor
  pub log : List Act

-- Which of its returns Run takes: nil for a closed session, the context's error, or the attempt's.
pub data Return : Type 0 where
  nil : Return
  ctx_error gave_up : Err → Return

pub data Turned : Type 0 where
  goes_on watches : Upkeep → Turned
  returns : Upkeep → Return → Turned

unfoldable pub tell : LinkOutcome → ℕ → Upkeep → Upkeep × LinkDecision
tell o now k =
    let (l, d) = after k.supervisor o now in
    (record k { supervisor = l; log = told o now d ∷ k.log }, d)

-- After `watch` returned.
unfoldable pub after_watching : Turn → Upkeep → Option (HubSession × Option Err) → Turned
after_watching t k none = watches k
after_watching t k (some (s, some e)) = returns (record k { session = s }) (ctx_error e)
after_watching t k (some (s, none)) =
    let k = record k { session = run s t.after_watch } in
    if k.session.is_closed then returns k nil else goes_on (tell dropped t.now k).0

-- The switch on the decision.
unfoldable pub act_on : Turn → Option Err → Upkeep × LinkDecision → Turned
act_on t err (k, hold) = goes_on k
act_on t (some e) (k, give_up o) = returns k (gave_up e)
act_on t none (k, give_up o) = returns k nil
act_on t err (k, retry wait) =
    let k = record k { log = paused wait ∷ k.log } in
    elim t.ctx_paused [ none ↦ goes_on k | some e ↦ returns k (ctx_error e) ]

-- After `Connect` returned.
unfoldable pub after_attempt : Turn → Upkeep → Option Err → Turned
after_attempt t k none = act_on t none (tell (link_outcome none) t.now k)
after_attempt t k (some e) = if k.session.is_closed then returns k nil else elim t.ctx_later [
  | some e' ↦ returns k (ctx_error e')
  | none ↦ act_on t (some e) (tell (link_outcome (some e)) t.now k)
]

unfoldable pub attempt_turn : Turn → Upkeep → Turned
attempt_turn t k =
    let (s, err) = connect t.env k.session in
    after_attempt t (record k { session = run s t.after_connect; log = attempted err ∷ k.log }) err

-- A round of the loop of `Run`.
unfoldable pub turn : Turn → Upkeep → Turned
turn t k =
    let k = record k { session = run k.session t.before } in
    if k.session.is_closed then returns k nil else elim t.ctx [
      | some e ↦ returns k (ctx_error e)
      | none ↦
          if connected t.is_alive k.session
          then after_watching t k (watch t.looks k.session)
          else attempt_turn t k
    ]

unfoldable pub run_loop : List Turn → Upkeep → Turned
run_loop [] k = goes_on k
run_loop (t ∷ ts) k = elim (turn t k) [ goes_on k' ↦ run_loop ts k' | other ↦ other ]

unfoldable pub run_session : List Turn → ℕ → HubSession → Turned
run_session ts grace s =
    run_loop ts (record { session = s; supervisor = new_link_supervisor s.policy grace; log = [] })
