-- ===== src/Wss/Attempts.antt =====
-- transport_wss.go: the socket, the handshake and the session that a transport holds.
use thalovant_go_sdk.Prelude.{
  ℕ, Bool, true, not, ◌||◌, ◌==◌, Option, none, some, is_some, List, [], ◌∷◌, ◌≡◌, refl, arith,
}
use thalovant_go_sdk.Wss.{Made, WssTransport, new_wss_transport}
use thalovant_go_sdk.Wss.Moves.{
  Move, step, run, enters, retries, leaves, opens, confirms, disconnects, poisons, hears, greets,
  starts, finals, makes, raises, fails, signals, keeps_psk, forgets_psk,
}

abbrev pub made_by : Option Made → ℕ → Bool
made_by none g = true
made_by (some c) g = c.attempt == g

-- What a transport holds was made by its current attempt; a session, a handshake in progress and the
-- readiness that it reports stand on a connected socket; and a rejected key is a refusal.
pub record IsOwn (t : WssTransport) : Type 0 where
  pub own_conn : made_by t.conn t.generation ≡ true
  pub own_session : made_by t.session t.generation ≡ true
  pub own_handshake : made_by t.noise_handshake t.generation ≡ true
  pub on_socket : (not t.connected || is_some t.conn) ≡ true
  pub session_connected : (not (is_some t.session) || t.connected) ≡ true
  pub noise_connected : (not (is_some t.noise_handshake) || t.connected) ≡ true
  pub ready_connected : (not t.handshake || t.connected) ≡ true
  pub rejected_refused : (not t.closed_key_rejected || t.closed_refused) ≡ true

step-IsOwn : (m : Move) (t : WssTransport) → IsOwn t → IsOwn (step m t)
unfolding step
step-IsOwn (enters now) t w = ground arith
step-IsOwn (retries e done now) t w = ground arith
step-IsOwn leaves t w = ground arith
step-IsOwn (opens g id done now) t w = ground arith
step-IsOwn (confirms g c done now) t w = ground arith
step-IsOwn disconnects t w = ground arith
step-IsOwn (poisons g c e now) t w = ground arith
step-IsOwn (hears g) t w = ground arith
step-IsOwn (greets g node) t w = ground arith
step-IsOwn (starts g id p) t w = ground arith
step-IsOwn (finals g) t w = ground arith
step-IsOwn (makes g id) t w = ground arith
step-IsOwn (raises g now) t w = ground arith
step-IsOwn (fails g e code now) t w = ground arith
step-IsOwn (signals g) t w = ground arith
step-IsOwn (keeps_psk g psk node password) t w = ground arith
step-IsOwn (forgets_psk g node) t w = ground arith

pub run-IsOwn_from : (ms : List Move) (t : WssTransport) → IsOwn t → IsOwn (run ms t)
unfolding run
run-IsOwn_from [] t w = w
run-IsOwn_from (m ∷ ms) t w = run-IsOwn_from ms (step m t) (step-IsOwn m t w)

-- However the sections of connects, readers, writers and disconnects interleave on a new transport,
-- the socket, the handshake and the session that it holds were made by its current attempt, not by
-- one before; a session, a handshake in progress and reported readiness stand on a connected
-- socket; and a rejected key is reported only with a refusal.
pub run-IsOwn : (ms : List Move) → IsOwn (run ms new_wss_transport)
run-IsOwn ms = run-IsOwn_from ms new_wss_transport (record {
  own_conn = refl;
  own_session = refl;
  own_handshake = refl;
  on_socket = refl;
  session_connected = refl;
  noise_connected = refl;
  ready_connected = refl;
  rejected_refused = refl;
})
