-- ===== src/Session.antt =====
-- session.go: HubSession, the owner of one connection.
-- A client is a handle, a number. What the outside answers during an operation is the record `Env`:
-- the factory's result, what Close of a client says, whether a client's link is alive, the clock.
-- The gate serialises the operations, so one runs to its end before the next begins. `Close` also
-- writes `closed` outside the gate, which an operation can meet only while the factory runs: that is
-- the field `closed_meanwhile`. The log keeps what the outside sees, the last effect first.
pub mod Calls
pub mod Moves
pub mod Links
pub mod Watchers
pub mod Closed
pub mod Upkeep
pub mod Origin
mod Tests
use thalovant_go_sdk.Prelude.{
  ℕ, ◌+◌, ◌%◌, ◌^◌, Bool, true, false, not, ◌&&◌, ◌||◌, Option, none, some, List, [], ◌∷◌, ltb,
  ◌==◌, if◌then◌else◌, is_some, ◌++◌,
}
use thalovant_go_sdk.Errors.{
  Sentinel, Err, is, err_connection, err_timeout, err_runtime, err_hub_refused, other_error,
  context_done,
}
use thalovant_go_sdk.Link.{HubSessionPolicy, next_wait}

pub data Effect : Type 0 where
  dialled closed close_failed : ℕ → Effect
  notified : Bool → Effect

pub record HubSession : Type 0 where
  pub policy : HubSessionPolicy
  pub client : Option ℕ
  pub retired : Option ℕ
  pub is_closed : Bool
  pub warming : Bool
  pub retry_at : ℕ
  pub retry_wait : ℕ
  pub generation : ℕ
  pub relay : Option ℕ
  pub up : Bool
  pub log : List Effect

-- What `settle` sees: the 25 ms checks of the link, until the window or the context ends.
pub data Settling : Type 0 where
  ctx_done : Settling
  window_over : Bool → Settling
  check : Bool → Settling → Settling

pub record Env : Type 0 where
  pub now : ℕ
  pub gate : Option Err
  pub fresh : Option ℕ
  pub connect_err : Option Err
  pub ctx_err : Option Err
  pub ctx_after : Option Err
  pub closed_meanwhile : Bool
  pub close : ℕ → Option Err
  pub alive_before : ℕ → Bool
  pub alive_after : ℕ → Bool
  pub settle_window : ℕ
  pub settling : Settling
  pub key_rejection : Option Err
  pub closed_refused : Bool

unfoldable pub new_hub_session : HubSessionPolicy → HubSession
new_hub_session p = record {
  policy = p;
  client = none;
  retired = none;
  is_closed = false;
  warming = false;
  retry_at = 0;
  retry_wait = p.retry;
  generation = 0;
  relay = none;
  up = false;
  log = [];
}

-- `s.generation++` on a uint64
abbrev pub next_generation : ℕ → ℕ
next_generation g = (g + 1) % 2 ^ 64

close_retired : Env → HubSession → Option ℕ → HubSession × Option Err
close_retired v s none = (s, none)
close_retired v s (some c) = elim (v.close c) [
  | some e ↦ (record s { log = close_failed c ∷ s.log }, some e)
  | none ↦ (record s { retired = none; log = closed c ∷ s.log }, none)
]

unfoldable pub cleanup : Env → HubSession → HubSession × Option Err
unfolding close_retired
cleanup v s = close_retired v s s.retired

abbrev pub bool_eq : Bool → Bool → Bool
bool_eq true b = b
bool_eq false b = not b

-- `stateChangeLocked` and the call of what it returns.
unfoldable pub state_change : Bool → HubSession → HubSession
state_change b s = if bool_eq s.up b then s else record s { up = b; log = notified b ∷ s.log }

let_go : HubSession → Option ℕ → HubSession
let_go s none = s
let_go s (some c) = record s {
  retired = some c;
  client = none;
  generation = next_generation s.generation;
}

unfoldable pub retire : HubSession → HubSession
unfolding let_go state_change
retire s = let t = let_go s s.client in state_change false (record t { relay = none })

unfoldable pub drop : Env → HubSession → HubSession × Option Err
unfolding retire
drop v s = cleanup v (retire s)

abbrev pub joined : Err → Option Err → Err
joined e none = e
joined e (some e') = e ++ e'

-- The client, or the error.
pub data Ensured : Type 0 where
  got : ℕ → Ensured
  failed : Err → Ensured

pub data Attempt : Type 0 where
  admitted : ℕ → Attempt
  turned_away : Err → Attempt

-- What the attempt came to, by the checks of `ensure` in their order: the factory's error, no
-- client, the context, the session closed.
unfoldable pub attempt : Option Err → Option ℕ → Option Err → Bool → Attempt
attempt (some e) fresh ctx closed_now = turned_away e
attempt none none ctx closed_now = turned_away (other_error ∷ [])
attempt none (some f) (some e) closed_now = turned_away e
attempt none (some f) none true = turned_away (err_connection ∷ [])
attempt none (some f) none false = admitted f

unfoldable pub log_dial : Option ℕ → List Effect → List Effect
log_dial none l = l
log_dial (some f) l = dialled f ∷ l

-- A client that came with an error is retired and closed.
retire_fresh : Env → HubSession → Err → Option ℕ → HubSession × Ensured
unfolding cleanup
retire_fresh v s e none = (s, failed e)
retire_fresh v s e (some f) =
    let (t, e') = cleanup v (record s { retired = some f }) in (t, failed (joined e e'))

unfoldable pub back_off : Env → HubSession → HubSession
back_off v s = record s {
  retry_at = v.now + s.retry_wait;
  retry_wait = next_wait s.policy s.retry_wait;
}

unfoldable pub hold_client : HubSession → ℕ → HubSession
hold_client s f = record s {
  client = some f;
  retry_at = 0;
  retry_wait = s.policy.retry;
  generation = next_generation s.generation;
  relay = some (next_generation s.generation);
}

-- `ensure` from the call of the factory on.
unfoldable pub dial : Env → HubSession → HubSession × Ensured
unfolding attempt log_dial retire_fresh back_off hold_client
dial v s =
    let closed_now = s.is_closed || v.closed_meanwhile in
    let t = record s { is_closed = closed_now; log = log_dial v.fresh s.log } in
    elim (attempt v.connect_err v.fresh v.ctx_err closed_now) [
      | turned_away e ↦ retire_fresh v (back_off v t) e v.fresh
      | admitted f ↦ (hold_client t f, got f)
    ]

unfoldable pub held_or_dial : Env → HubSession × Option Err → HubSession × Ensured
held_or_dial v (s, some e) = (s, failed e)
held_or_dial v (s, none) = elim s.client [ some c ↦ (s, got c) | none ↦ dial v s ]

unfoldable pub ensure : Env → HubSession → HubSession × Ensured
unfolding held_or_dial
ensure v s = if s.is_closed then (s, failed (err_connection ∷ [])) else held_or_dial v (cleanup v s)

unfoldable pub mark_up : ℕ → HubSession → HubSession
unfolding state_change
mark_up c s = elim s.client [ none ↦ s | some d ↦ if c == d then state_change true s else s ]
