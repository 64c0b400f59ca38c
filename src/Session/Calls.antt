-- ===== src/Session/Calls.antt =====
-- session.go: the operations of HubSession that its clients call, and runs of them.
pub mod Runs
pub mod Outcomes
use thalovant_go_sdk.Prelude.{
  ℕ, Bool, true, false, not, ◌&&◌, ◌||◌, Option, none, some, List, [], ◌∷◌, ltb, ◌==◌,
  if◌then◌else◌, is_some,
}
use thalovant_go_sdk.Errors.{
  Err, is, err_connection, err_timeout, err_runtime, err_hub_refused, context_done,
}
use thalovant_go_sdk.Session.{
  HubSession, Env, Settling, ctx_done, window_over, check, Ensured, got, failed, joined, drop,
  ensure, mark_up,
}

unfoldable pub closed_early : Env → Err
closed_early v = elim v.key_rejection [
  | some e ↦ e
  | none ↦ if v.closed_refused then err_connection ∷ err_hub_refused ∷ [] else err_connection ∷ []
]

settle_until : Env → Settling → Option Err
settle_until v ctx_done = some (err_timeout ∷ context_done ∷ [])
settle_until v (window_over alive) = if alive then none else some (closed_early v)
settle_until v (check alive rest) =
    let later = settle_until v rest in if alive then later else some (closed_early v)

unfoldable pub settle : Env → Option Err
unfolding settle_until
settle v = if v.settle_window == 0 then none else settle_until v v.settling

-- Connect once the dropped link, if any, is let go.
open_link : Env → HubSession × Ensured → HubSession × Option Err
open_link v (s, failed e) = (s, some e)
open_link v (s, got c) = elim (settle v) [
  | none ↦ (mark_up c s, none)
  | some e ↦ let (t, e') = drop v s in (t, some (joined e e'))
]

-- Connect and `call` begin alike: a client whose link is down is let go.
unfoldable pub shed_dead : Env → HubSession → HubSession × Option Err
shed_dead v s = elim s.client [
  | none ↦ (s, none)
  | some c ↦ if v.alive_before c then (s, none) else drop v s
]

connect_after : Env → HubSession × Option Err → HubSession × Option Err
unfolding open_link
connect_after v (s, some e) = (s, some e)
connect_after v (s, none) = open_link v (ensure v s)

connect_held : Env → HubSession → HubSession × Option Err
unfolding connect_after
connect_held v s = elim s.client [
  | none ↦ connect_after v (s, none)
  | some c ↦ if v.alive_before c then (s, none) else connect_after v (drop v s)
]

unfoldable pub connect : Env → HubSession → HubSession × Option Err
unfolding connect_held
connect v s = elim v.gate [ some e ↦ (s, some e) | none ↦ connect_held v s ]

-- A remote refusal (ErrRuntime) keeps the link, and so does a call that the caller withdrew while
-- the link stayed up.
unfoldable pub drops_link : Env → ℕ → Err → Bool
drops_link v c e = not (is e err_runtime) && (not (is_some v.ctx_after) || not (v.alive_after c))

call_result : Env → ℕ → HubSession → Option Err → HubSession × Option Err
call_result v c s none = (s, none)
call_result v c s (some e) =
    if drops_link v c e then (let (t, e') = drop v s in (t, some (joined e e'))) else (s, some e)

call_with : Env → (ℕ → Option Err) → HubSession × Ensured → HubSession × Option Err
unfolding call_result
call_with v operation (s, failed e) = (s, some e)
call_with v operation (s, got c) = call_result v c (mark_up c s) (operation c)

call_after : Env → (ℕ → Option Err) → HubSession × Option Err → HubSession × Option Err
unfolding call_with
call_after v operation (s, some e) = (s, some e)
call_after v operation (s, none) = call_with v operation (ensure v s)

unfoldable pub call : Env → (ℕ → Option Err) → HubSession → HubSession × Option Err
unfolding call_after
call v operation s = elim v.gate [
  | some e ↦ (s, some e)
  | none ↦ call_after v operation (shed_dead v s)
]

-- `Warm`, up to the start of its goroutine; the Bool is what it returns.
unfoldable pub warm : Env → HubSession → HubSession × Bool
warm v s =
    if s.is_closed || s.warming || ltb v.now s.retry_at
    then (s, false)
    else (record s { warming = true }, true)

mark_ensured : HubSession × Ensured → HubSession
mark_ensured (s, failed e) = s
mark_ensured (s, got c) = mark_up c s

-- The goroutine of `Warm`.
unfoldable pub warm_link : Env → HubSession → HubSession
unfolding mark_ensured
warm_link v s = elim v.gate [
  | some e ↦ record s { warming = false }
  | none ↦ let t = mark_ensured (ensure v s) in record t { warming = false }
]

probe_after : Env → HubSession × Option Err → HubSession × Option Err
probe_after v (s, some e) = (s, some e)
probe_after v (s, none) = if is_some s.client then (s, none) else ((warm v s).0, none)

-- A probe does not wait for the gate: a busy one ends it with nil.
unfoldable pub probe : Env → HubSession → HubSession × Option Err
unfolding probe_after
probe v s = if is_some v.gate || s.is_closed then (s, none) else probe_after v (shed_dead v s)

-- `Close` before it waits for the gate, and after.
unfoldable pub close_now : HubSession → HubSession
close_now s = record s { is_closed = true }

unfoldable pub close_link : Env → HubSession → HubSession × Option Err
close_link v s = elim v.gate [ some e ↦ (s, some e) | none ↦ drop v s ]

-- Whether the relay of a generation still passes events on.
unfoldable pub relays : HubSession → ℕ → Bool
relays s generation = s.generation == generation && not s.is_closed

-- What a session is asked to do, with what the outside answers meanwhile.
pub data Step : Type 0 where
  connecting : Env → Step
  calling : Env → (ℕ → Option Err) → Step
  warming_up warmed : Env → Step
  probing : Env → Step
  closing : Step
  close_waited : Env → Step

unfoldable pub step : HubSession → Step → HubSession
step s (connecting v) = (connect v s).0
step s (calling v operation) = (call v operation s).0
step s (warming_up v) = (warm v s).0
step s (warmed v) = warm_link v s
step s (probing v) = (probe v s).0
step s closing = close_now s
step s (close_waited v) = (close_link v s).0

unfoldable pub run : HubSession → List Step → HubSession
run s [] = s
run s (x ∷ xs) = run (step s x) xs
