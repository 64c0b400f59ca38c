-- ===== src/Session/Calls/Outcomes.antt =====
-- What a call does to the link that it ran on.
use thalovant_go_sdk.Prelude.{
  ℕ, ◌≡◌, ◌∙◌, arith, Bool, true, false, ◌&&◌, ◌||◌, Option, none, some, is_some, if◌then◌else◌,
}
use thalovant_go_sdk.Errors.{Err, is, err_runtime}
use thalovant_go_sdk.Session.{
  HubSession, Env, got, cleanup, held_or_dial, retire, drop, ensure, mark_up,
}
use thalovant_go_sdk.Session.Calls.{shed_dead, drops_link, call_result, call_with, call_after, call}

-- The rule of the source's comments: a call that succeeded keeps the link, and so do a remote
-- refusal and a call that the caller withdrew while the link stayed up.
abbrev pub keeps_link : Env → ℕ → Option Err → Bool
keeps_link v c none = true
keeps_link v c (some e) = is e err_runtime || (is_some v.ctx_after && v.alive_after c)

cleanup-client : (v : Env) (s : HubSession) → (cleanup v s).0.client ≡ s.client
unfolding cleanup
cleanup-client v s = ground arith

drop-client : (v : Env) (s : HubSession) → (drop v s).0.client ≡ none
unfolding drop retire
drop-client v s = ground (arith, cleanup-client v (retire s))

mark_up-client : (c : ℕ) (s : HubSession) → (mark_up c s).client ≡ s.client
unfolding mark_up
mark_up-client c s = ground arith

call_result-client :
    (v : Env) (c : ℕ) (s : HubSession) (e : Option Err)
    → s.client ≡ some c
    → (call_result v c s e).0.client ≡ (if keeps_link v c e then some c else none)
unfolding call_result drops_link
call_result-client v c s none h = h
call_result-client v c s (some e) h = ground (arith, drop-client v s)

ensure_held :
    (v : Env) (s : HubSession) (c : ℕ)
    → s.client ≡ some c
    → s.retired ≡ none
    → s.is_closed ≡ false
    → ensure v s ≡ (s, got c)
unfolding ensure cleanup held_or_dial
ensure_held v s c hc hr ho = ground arith

shed_dead_alive :
    (v : Env) (s : HubSession) (c : ℕ)
    → s.client ≡ some c
    → v.alive_before c ≡ true
    → shed_dead v s ≡ (s, none)
unfolding shed_dead
shed_dead_alive v s c hc ha = ground arith

-- A call that gets the gate of an open session with a live client, and with no other client left to
-- close, runs on that client and leaves the session holding it exactly when the call succeeded,
-- failed with ErrRuntime, or was withdrawn by its caller while the link stayed up; in every other
-- case the session holds no client afterwards.
pub call-client :
    (v : Env) (operation : ℕ → Option Err) (s : HubSession) (c : ℕ)
    → v.gate ≡ none
    → s.client ≡ some c
    → s.retired ≡ none
    → s.is_closed ≡ false
    → v.alive_before c ≡ true
    → (call v operation s).0.client ≡ (if keeps_link v c (operation c) then some c else none)
unfolding call call_after call_with
call-client v operation s c hg hc hr ho ha = ground (
  arith,
  shed_dead_alive v s c hc ha,
  ensure_held v s c hc hr ho,
  call_result-client v c (mark_up c s) (operation c) (mark_up-client c s ∙ hc),
)
