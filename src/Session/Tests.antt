-- ===== src/Session/Tests.antt =====
-- The theorems on HubSession at a short life: a failed attempt, a link, a call that loses it, Close.
use thalovant_go_sdk.Prelude.{
  ◌≡◌, refl, arith, true, false, none, some, List, [], ◌∷◌, if◌then◌else◌,
}
use thalovant_go_sdk.Errors.{err_connection, err_runtime}
use thalovant_go_sdk.Link.{default_hub_session_policy, next_wait}
use thalovant_go_sdk.Link.Ladder.{IsPolicy}
use thalovant_go_sdk.Session.{
  HubSession, Env, check, window_over, dialled, closed, notified, new_hub_session, dial, ensure,
  cleanup, retire, drop, mark_up, held_or_dial,
}
use thalovant_go_sdk.Session.Calls.{
  connecting, calling, closing, close_waited, Step, run, step, connect, call, close_now, close_link,
  shed_dead, settle, drops_link,
}
use thalovant_go_sdk.Session.Calls.Outcomes.{keeps_link, call-client}
use thalovant_go_sdk.Session.Links.{NeverTwo, run-NeverTwo}
use thalovant_go_sdk.Session.Watchers.{IsTold, run-IsTold}
use thalovant_go_sdk.Session.Closed.{dials, run_closed}

-- An outside at which all goes well, with the client 1.
abbrev fine : Env
fine = record {
  now = 7;
  gate = none;
  fresh = some 1;
  connect_err = none;
  ctx_err = none;
  ctx_after = none;
  closed_meanwhile = false;
  close = λ c. none;
  alive_before = λ c. true;
  alive_after = λ c. true;
  settle_window = 750;
  settling = check true (window_over true);
  key_rejection = none;
  closed_refused = false;
}

abbrev unreachable : Env
unreachable = record fine { fresh = none; connect_err = some (err_connection ∷ []) }

abbrev life : List Step
life =
    connecting unreachable
    ∷ connecting fine
    ∷ calling fine (λ c. some (err_connection ∷ []))
    ∷ calling (record fine { fresh = some 2 }) (λ c. some (err_runtime ∷ []))
    ∷ closing
    ∷ close_waited fine
    ∷ connecting fine
    ∷ []

abbrev start : HubSession
start = new_hub_session default_hub_session_policy

life_log :
    (run start life).log
    ≡ closed 2
      ∷ notified false
      ∷ notified true
      ∷ dialled 2
      ∷ closed 1
      ∷ notified false
      ∷ notified true
      ∷ dialled 1
      ∷ []
unfolding run step connect call close_now close_link shed_dead settle drops_link ensure drop mark_up
    cleanup retire held_or_dial dial next_wait new_hub_session default_hub_session_policy
life_log = refl

run-NeverTwo_example : NeverTwo (run start life).log
run-NeverTwo_example = run-NeverTwo default_hub_session_policy life

run-IsTold_example : IsTold (run start life)
run-IsTold_example = run-IsTold default_hub_session_policy life

abbrev shut_down : HubSession
shut_down = close_now start

run_closed_example :
    ((run shut_down life).is_closed ≡ true) × (dials (run shut_down life).log ≡ dials shut_down.log)
unfolding close_now
run_closed_example = run_closed shut_down life refl

default-IsPolicy : IsPolicy default_hub_session_policy
unfolding default_hub_session_policy
default-IsPolicy = record {
  retry_pos = omega arith;
  ordered = omega arith;
  probe_pos = omega arith;
  probe_down_pos = omega arith;
}

abbrev linked : HubSession
linked = record start { client = some 1; up = true }

call-client_example :
    (call fine (λ c. some (err_runtime ∷ [])) linked).0.client
    ≡ (if keeps_link fine 1 (some (err_runtime ∷ [])) then some 1 else none)
unfolding new_hub_session
call-client_example =
    call-client fine (λ c. some (err_runtime ∷ [])) linked 1 refl refl refl refl refl
