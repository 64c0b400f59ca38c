-- ===== src/Session/Calls/Runs.antt =====
-- Every operation of HubSession, on every branch, is a sequence of the moves of Session.Moves.
use thalovant_go_sdk.Prelude.{
  ℕ, refl, arith, true, false, Option, none, some, List, [], ◌∷◌, Bool-cases, Option-cases, inl,
  inr, is_some, ◌||◌,
}
use thalovant_go_sdk.Errors.{Err}
use thalovant_go_sdk.Session.{HubSession, Env, Ensured, got, failed, drop, ensure, mark_up}
use thalovant_go_sdk.Session.Moves.{
  Moves, here, trans, one, to, stay, warms, shuts, drop-Moves, mark_up-Moves, ensure-Moves,
}
use thalovant_go_sdk.Session.Calls.{
  settle, open_link, shed_dead, connect_after, connect_held, connect, drops_link, call_result,
  call_with, call_after, call, warm, mark_ensured, warm_link, probe_after, probe, close_now,
  close_link, Step, connecting, calling, warming_up, warmed, probing, closing, close_waited, step,
  run,
}

open_link-Moves : (v : Env) (r : HubSession × Ensured) → Moves r.0 (open_link v r).0
unfolding open_link
open_link-Moves v (s, failed e) = here
open_link-Moves v (s, got c) = elim (Option-cases (settle v)) [
  | inl ok ↦ to (mark_up-Moves c s) (ground arith)
  | inr (e, bad) ↦ to (drop-Moves v s) (ground arith)
]

shed_dead-Moves : (v : Env) (s : HubSession) → Moves s (shed_dead v s).0
unfolding shed_dead
shed_dead-Moves v s = elim (Option-cases s.client) [
  | inl e ↦ stay (ground arith)
  | inr (c, e) ↦ elim (Bool-cases (v.alive_before c)) [
    | inl alive ↦ stay (ground arith)
    | inr dead ↦ to (drop-Moves v s) (ground arith)
  ]
]

connect_after-Moves : (v : Env) (r : HubSession × Option Err) → Moves r.0 (connect_after v r).0
unfolding connect_after
connect_after-Moves v (s, some e) = here
connect_after-Moves v (s, none) = trans (ensure-Moves v s) (open_link-Moves v (ensure v s))

connect_held-Moves : (v : Env) (s : HubSession) → Moves s (connect_held v s).0
unfolding connect_held
connect_held-Moves v s = elim (Option-cases s.client) [
  | inl e ↦ to (connect_after-Moves v (s, none)) (ground arith)
  | inr (c, e) ↦ elim (Bool-cases (v.alive_before c)) [
    | inl alive ↦ stay (ground arith)
    | inr dead ↦ to (trans (drop-Moves v s) (connect_after-Moves v (drop v s))) (ground arith)
  ]
]

call_result-Moves :
    (v : Env) (c : ℕ) (s : HubSession) (e : Option Err) → Moves s (call_result v c s e).0
unfolding call_result
call_result-Moves v c s none = here
call_result-Moves v c s (some e) = elim (Bool-cases (drops_link v c e)) [
  | inl drops ↦ to (drop-Moves v s) (ground arith)
  | inr keeps ↦ stay (ground arith)
]

call_with-Moves :
    (v : Env) (operation : ℕ → Option Err) (r : HubSession × Ensured)
    → Moves r.0 (call_with v operation r).0
unfolding call_with
call_with-Moves v operation (s, failed e) = here
call_with-Moves v operation (s, got c) =
    trans (mark_up-Moves c s) (call_result-Moves v c (mark_up c s) (operation c))

call_after-Moves :
    (v : Env) (operation : ℕ → Option Err) (r : HubSession × Option Err)
    → Moves r.0 (call_after v operation r).0
unfolding call_after
call_after-Moves v operation (s, some e) = here
call_after-Moves v operation (s, none) =
    trans (ensure-Moves v s) (call_with-Moves v operation (ensure v s))

mark_ensured-Moves : (r : HubSession × Ensured) → Moves r.0 (mark_ensured r)
unfolding mark_ensured
mark_ensured-Moves (s, failed e) = here
mark_ensured-Moves (s, got c) = mark_up-Moves c s

warm-Moves : (v : Env) (s : HubSession) → Moves s (warm v s).0
unfolding warm
warm-Moves v s = elim (Bool-cases (warm v s).1) [
  | inl begun ↦ one (warms true (ground arith))
  | inr idle ↦ stay (ground arith)
]

probe_after-Moves : (v : Env) (r : HubSession × Option Err) → Moves r.0 (probe_after v r).0
unfolding probe_after
probe_after-Moves v (s, some e) = here
probe_after-Moves v (s, none) = elim (Option-cases s.client) [
  | inl e ↦ to (warm-Moves v s) (ground arith)
  | inr (c, e) ↦ stay (ground arith)
]

warm_link-Moves : (v : Env) (s : HubSession) → Moves s (warm_link v s)
unfolding warm_link
warm_link-Moves v s = elim (Option-cases v.gate) [
  | inl e ↦
      to
        (trans (ensure-Moves v s)
          (trans (mark_ensured-Moves (ensure v s)) (one (warms false refl))))
        (ground arith)
  | inr (x, e) ↦ one (warms false (ground arith))
]

step-Moves : (s : HubSession) (x : Step) → Moves s (step s x)
unfolding step connect call probe close_now close_link
step-Moves s (connecting v) = elim (Option-cases v.gate) [
  | inl e ↦ to (connect_held-Moves v s) (ground arith)
  | inr (x, e) ↦ stay (ground arith)
]
step-Moves s (calling v operation) = elim (Option-cases v.gate) [
  | inl e ↦
      to (trans (shed_dead-Moves v s) (call_after-Moves v operation (shed_dead v s))) (ground arith)
  | inr (x, e) ↦ stay (ground arith)
]
step-Moves s (warming_up v) = warm-Moves v s
step-Moves s (warmed v) = warm_link-Moves v s
step-Moves s (probing v) = elim (Bool-cases (is_some v.gate || s.is_closed)) [
  | inl busy ↦ stay (ground arith)
  | inr free ↦ to (trans (shed_dead-Moves v s) (probe_after-Moves v (shed_dead v s))) (ground arith)
]
step-Moves s closing = one (shuts refl)
step-Moves s (close_waited v) = elim (Option-cases v.gate) [
  | inl e ↦ to (drop-Moves v s) (ground arith)
  | inr (x, e) ↦ stay (ground arith)
]

-- Any run of operations, whatever the outside answers, is a sequence of moves.
pub run-Moves : (s : HubSession) (xs : List Step) → Moves s (run s xs)
unfolding run
run-Moves s [] = here
run-Moves s (x ∷ xs) = trans (step-Moves s x) (run-Moves (step s x) xs)
