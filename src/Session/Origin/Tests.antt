-- ===== src/Session/Origin/Tests.antt =====
-- OriginPreference of session.go on concrete input: the preferred address fails, the other answers.
use text.Mathlib.Text.{◌==◌ as str_eq}
use thalovant_go_sdk.Prelude.{some, none, [], ◌∷◌, ◌≡◌, refl, if◌then◌else◌}
use thalovant_go_sdk.Errors.{err_connection}
use thalovant_go_sdk.Session.{closed, dialled, log_dial}
use thalovant_go_sdk.Session.Origin.{
  OriginPreference, OriginAttempt, Dialling, connect_origin, try_preferred, close_attempt,
  fall_back, build_direct, cooling_down,
}
use thalovant_go_sdk.Session.Origin.Clients.{Tidy, connect_origin-Tidy}

abbrev nearby : OriginPreference
nearby = record { address = "10.0.0.2"; handshake_timeout = 3; cooldown = 60; quiet_until = 0 }

abbrev options : OriginAttempt
options = record { address = ""; host = "hub.local"; handshake_timeout = 10; connect_timeout = 20 }

abbrev nearby_fails : Dialling
nearby_fails = record {
  ctx = none;
  now = 100;
  build = λ a.
      if str_eq a.address ""
      then record { client = some 2; err = none }
      else record { client = some 1; err = some (err_connection ∷ []) };
  close = λ c. none;
  ctx_closed = none;
  now_failed = 105;
  ctx_cooling = none;
}

nearby_fails_log :
    (connect_origin nearby_fails options nearby).log ≡ dialled 2 ∷ closed 1 ∷ dialled 1 ∷ []
unfolding connect_origin try_preferred close_attempt fall_back build_direct cooling_down log_dial
nearby_fails_log = refl

connect_origin-Tidy_example : Tidy (connect_origin nearby_fails options nearby)
connect_origin-Tidy_example = connect_origin-Tidy nearby_fails options nearby
