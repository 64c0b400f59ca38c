-- ===== src/Client/Tests.antt =====
-- Calls of a client at concrete answers, and the theorems about them applied.
use thalovant_go_sdk.Prelude.{true, false, none, some, List, [], ◌∷◌, ◌≡◌, refl}
use thalovant_go_sdk.Errors.{err_connection}
use thalovant_go_sdk.Client.{
  Dialing, Running, run_owned, run_work, HubProtocol, https, wss, mqtt, Identity,
}

-- A transport that connects, and is closed before its second health check.
abbrev closed_at_once : Dialing
closed_at_once = record {
  at_gate = none;
  ready_before = false;
  late_before = false;
  connect_err = none;
  ready_after = false;
  key_rejection = none;
  closed_refused = true;
  late_after = false;
  late_caller = false;
}

abbrev broken_send : Running
broken_send = record {
  at_gate = none;
  operation_err = some (err_connection ∷ []);
  nothing_sent = false;
  finishing = false;
  late_worker = false;
  late_caller = false;
}

broken_send_disconnects : (run_owned true broken_send).disconnects ≡ true
unfolding run_owned run_work
broken_send_disconnects = refl

finished_send_keeps : (run_owned true (record broken_send { finishing = true })).disconnects ≡ false
unfolding run_owned run_work
finished_send_keeps = refl

abbrev preference : List HubProtocol
preference = wss ∷ https ∷ mqtt ∷ []

abbrev only_https : Identity
only_https = record {
  supports = λ p. true;
  has_endpoint = λ p. elim p [ https ↦ true | _ ↦ false ];
  has_mqtt = true;
  mqtt_accepted = true;
}
