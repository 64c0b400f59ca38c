-- ===== src/Session/Upkeep/Tests.antt =====
-- Run of session.go on concrete input: a hub out of reach, a link that drops, a hub that refuses.
use thalovant_go_sdk.Prelude.{
  ℕ, ◌*◌, ◌≤◌, ◌≡◌, ◌⊎◌, refl, arith, true, false, none, some, List, [], ◌∷◌,
}
use thalovant_go_sdk.Errors.{
  is, err_connection, err_hub_refused, err_hub_key_changed, err_client_key_rejected,
}
use thalovant_go_sdk.Link.{
  refused, new_link_supervisor, default_hub_session_policy, second, History, after, retry, up,
  dropped, hold, give_up, next_wait,
}
use thalovant_go_sdk.Link.History.{refused_for}
use thalovant_go_sdk.Session.{HubSession, Env, new_hub_session, check, window_over}
use thalovant_go_sdk.Session.Upkeep.{
  Turn, checked, Upkeep, attempted, told, paused, gave_up, returns, run_loop, run_session, turn,
  Turned,
}
use thalovant_go_sdk.Session.Upkeep.Rules.{Sound, history_of, run_session-Sound}
use thalovant_go_sdk.Session.Upkeep.GivingUp.{run_session_gives_up}
use thalovant_go_sdk.Link.{after_refused, climb, start_refusing}
use thalovant_go_sdk.Session.{
  ensure, cleanup, dial, mark_up, attempt, back_off, drop, hold_client, log_dial, retire,
  state_change,
}
use thalovant_go_sdk.Session.Calls.{run, connect, settle}
use thalovant_go_sdk.Session.Upkeep.{
  connected, attempt_turn, after_attempt, act_on, tell, link_outcome, after_watching, let_dead_go,
  watch,
}

abbrev fine : Env
fine = record {
  now = 7;
  gate = none;
  fresh = some 1;
  connect_err = none;
  ctx_err = none;
  ctx_after = none;
  closed_meanwhile = false;
  close = λ c. none;
  alive_before = λ c. true;
  alive_after = λ c. true;
  settle_window = 750;
  settling = check true (window_over true);
  key_rejection = none;
  closed_refused = false;
}

abbrev quiet : Env → ℕ → Turn
quiet v now = record {
  before = [];
  ctx = none;
  is_alive = λ c. true;
  looks = [];
  after_watch = [];
  env = v;
  after_connect = [];
  ctx_later = none;
  now = now;
  ctx_paused = none;
}

abbrev refusing : Env
refusing = record fine { fresh = none; connect_err = some (err_connection ∷ err_hub_refused ∷ []) }

-- The link comes up, drops at a check, and from then on the hub refuses, for a grace of 30 s.
abbrev turns : List Turn
turns =
    quiet fine second
    ∷ record (quiet fine (2 * second)) {
      looks = checked [] (record fine { alive_before = λ c. false }) [] ∷ [];
    }
    ∷ quiet refusing (3 * second)
    ∷ quiet refusing (40 * second)
    ∷ []

abbrev start : HubSession
start = new_hub_session default_hub_session_policy

abbrev at_the_end : Upkeep → Turned → Upkeep
at_the_end other (returns k (gave_up e)) = k
at_the_end other _ = other

abbrev begun : Upkeep
begun = record {
  session = start;
  supervisor = new_link_supervisor default_hub_session_policy (30 * second);
  log = [];
}

abbrev last : Upkeep
last = at_the_end begun (run_session turns (30 * second) start)

turns_end :
    run_session turns (30 * second) start
    ≡ returns last (gave_up (err_connection ∷ err_hub_refused ∷ []))
unfolding run_session run_loop turn run new_hub_session connected attempt_turn after_attempt connect
    ensure cleanup dial settle act_on tell after link_outcome mark_up after_refused climb
    new_link_supervisor next_wait start_refusing after_watching let_dead_go watch attempt back_off
    drop hold_client log_dial retire state_change default_hub_session_policy
turns_end = refl

turns_log :
    last.log
    ≡ told refused (40 * second) (give_up refused)
      ∷ attempted (some (err_connection ∷ err_hub_refused ∷ []))
      ∷ paused (10 * second)
      ∷ told refused (3 * second) (retry (10 * second))
      ∷ attempted (some (err_connection ∷ err_hub_refused ∷ []))
      ∷ told dropped (2 * second) (retry 0)
      ∷ told up second hold
      ∷ attempted none
      ∷ []
unfolding run_session run_loop turn run new_hub_session connected attempt_turn after_attempt connect
    ensure cleanup dial settle act_on tell after link_outcome mark_up after_refused climb
    new_link_supervisor next_wait start_refusing after_watching let_dead_go watch attempt back_off
    drop hold_client log_dial retire state_change default_hub_session_policy
turns_log = refl

run_session-Sound_example :
    Sound default_hub_session_policy (30 * second) (run_session turns (30 * second) start)
unfolding new_hub_session
run_session-Sound_example = run_session-Sound turns (30 * second) start (omega arith)

run_session_gives_up_example :
    (is (err_connection ∷ err_hub_refused ∷ []) err_hub_key_changed ≡ true)
    ⊎ (is (err_connection ∷ err_hub_refused ∷ []) err_client_key_rejected ≡ true)
    ⊎ ((now : ℕ) × (h : History) × (is (err_connection ∷ err_hub_refused ∷ []) err_hub_refused
          ≡ true)
        × (history_of last.log ≡ (refused, now) ∷ h)
        × (30 * second ≤ refused_for h now))
run_session_gives_up_example =
    run_session_gives_up turns (30 * second) start last (err_connection ∷ err_hub_refused ∷ [])
      (omega arith) turns_end
