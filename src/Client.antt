-- ===== src/Client.antt =====
-- client.go: `Connect`, `runOwned` and `NewClientWithOptions` of a client.
--
-- What a call reads from its transport and its contexts is a record. The caller and the worker that
-- owns the transport are two results: what the caller gets, and what the worker does.
pub mod Ownership
mod Tests
use thalovant_go_sdk.Prelude.{
  Bool, true, false, not, ◌&&◌, ◌||◌, Option, none, some, List, [], ◌∷◌, ◌++◌, is_some,
  if◌then◌else◌,
}
use thalovant_go_sdk.Errors.{Err, err_timeout, err_connection, err_hub_refused, context_done}

abbrev pub timed_out : Err
timed_out = err_timeout ∷ context_done ∷ []

-- `at_gate` is the error of taking the gate. `late_before` and `late_after` are whether the context
-- has ended when the worker reads it, `late_caller` when the caller reads it; `ready_before` and
-- `ready_after` what the two health checks say.
pub record Dialing : Type 0 where
  pub at_gate : Option Err
  pub ready_before : Bool
  pub late_before : Bool
  pub connect_err : Option Err
  pub ready_after : Bool
  pub key_rejection : Option Err
  pub closed_refused : Bool
  pub late_after : Bool
  pub late_caller : Bool

-- The caller's error, and whether the worker disconnects the transport.
pub record Owned : Type 0 where
  pub result : Option Err
  pub disconnects : Bool

unfoldable pub closed_before_ready : Dialing → Err
closed_before_ready d = elim d.key_rejection [
  | some e ↦ e
  | none ↦ if d.closed_refused then err_connection ∷ err_hub_refused ∷ [] else err_connection ∷ []
]

-- The worker's error from the call of the transport's Connect on.
unfoldable pub dial_err : Dialing → Option Err
unfolding closed_before_ready
dial_err d =
    if d.late_after
    then some timed_out
    else if d.late_before
    then some timed_out
    else elim d.connect_err [
      | some e ↦ some e
      | none ↦ if d.ready_after then none else some (closed_before_ready d)
    ]

unfoldable pub connect_work : Dialing → Option Err
unfolding dial_err
connect_work d = if not d.late_before && d.ready_before then none else dial_err d

unfoldable pub connect : Dialing → Owned
unfolding connect_work
connect d = elim d.at_gate [
  | some e ↦ record { result = some (err_timeout ∷ e); disconnects = false }
  | none ↦ record {
    result = if d.late_caller then some timed_out else connect_work d;
    disconnects = is_some (connect_work d);
  }
]

-- An operation under the gate: its error, whether that is errNothingSent, and whether it is
-- errFinishing, of a send that was written whole after its caller gave up.
pub record Running : Type 0 where
  pub at_gate : Option Err
  pub operation_err : Option Err
  pub nothing_sent : Bool
  pub finishing : Bool
  pub late_worker : Bool
  pub late_caller : Bool

unfoldable pub run_work : Running → Option Err
run_work r = if is_some r.operation_err && r.late_worker then some timed_out else r.operation_err

unfoldable pub run_owned : Bool → Running → Owned
unfolding run_work
run_owned cleanup_on_error r = elim r.at_gate [
  | some e ↦ record { result = some (err_timeout ∷ e); disconnects = false }
  | none ↦ record {
    result = if r.late_caller then some timed_out else run_work r;
    disconnects = is_some (run_work r) && (cleanup_on_error && not (r.nothing_sent || r.finishing));
  }
]

pub data HubProtocol : Type 0 where
  https wss mqtt : HubProtocol

-- What `NewClientWithOptions` reads of an identity: the protocols that it names, which endpoints it
-- has, whether it has MQTT settings, and whether NewMQTTTransport accepts them.
pub record Identity : Type 0 where
  pub supports : HubProtocol → Bool
  pub has_endpoint : HubProtocol → Bool
  pub has_mqtt : Bool
  pub mqtt_accepted : Bool

unfoldable pub is_usable : Identity → HubProtocol → Bool
is_usable i wss = i.supports wss && i.has_endpoint wss
is_usable i https = i.supports https || i.has_endpoint https
is_usable i mqtt = i.supports mqtt && i.has_mqtt

-- The loop over the preference; `none` is ErrProtocol.
unfoldable pub default_runtime_protocol : Identity → List HubProtocol → Option HubProtocol
default_runtime_protocol i [] = none
default_runtime_protocol i (p ∷ ps) =
    let rest = default_runtime_protocol i ps in if is_usable i p then some p else rest

-- The client's transport, or an error.
unfoldable pub make_transport : Identity → HubProtocol → Option HubProtocol
make_transport i https = some https
make_transport i wss = if i.has_endpoint wss then some wss else none
make_transport i mqtt = if i.mqtt_accepted then some mqtt else none

unfoldable pub new_client_with_options :
    Identity → List HubProtocol → Option HubProtocol → Option HubProtocol
unfolding make_transport
new_client_with_options i preference (some p) = make_transport i p
new_client_with_options i preference none = elim (default_runtime_protocol i preference) [
  | none ↦ none
  | some p ↦ make_transport i p
]
