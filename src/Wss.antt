-- ===== src/Wss.antt =====
-- transport_wss.go: the state of a WebSocket transport, and the sections of its code that hold its
-- lock. Connects, readers and writers of several attempts run at once; each section is a function
-- of the state and of what its goroutine brings, its generation first.
--
-- A socket, a handshake or a session stands for a pointer: the attempt that made it, and a number.
-- Times are nanoseconds, 0 the zero time. An error is the list of its sentinels.
pub mod Reader
pub mod Writer
pub mod Moves
pub mod Attempts
pub mod Stale
pub mod Sends
mod Tests
use text.Mathlib.Text.{◌==◌ as str_eq}
use thalovant_go_sdk.Prelude.{
  ℕ, ◌+◌, ◌-◌, ◌*◌, ◌%◌, ◌^◌, Bool, true, false, not, ◌&&◌, ◌||◌, Option, none, some, String, ltb,
  leb, ◌==◌, is_some, if◌then◌else◌,
}
use thalovant_go_sdk.Errors.{Err, err_hub_refused, is}
use thalovant_go_sdk.Telemetry.{
  ConnectionTelemetry, no_telemetry, begin, mark_open, complete, fail, close,
}

pub record Made : Type 0 where
  pub attempt : ℕ
  pub id : ℕ

pub data NoisePattern : Type 0 where
  kk xx : NoisePattern

-- `handshake_ready` and `read_done` say whether the channel is left to close, `attempt` whether a
-- connect is at work. The hello is kept by
-- its node id.
pub record WssTransport : Type 0 where
  pub conn : Option Made
  pub connected : Bool
  pub handshake : Bool
  pub last_error : Option Err
  pub closed_refused : Bool
  pub closed_key_rejected : Bool
  pub heard : Bool
  pub final_sent : Bool
  pub connection : ConnectionTelemetry
  pub handshake_at : ℕ
  pub pattern : Option NoisePattern
  pub force_xx : Bool
  pub handshake_ready : Bool
  pub read_done : Bool
  pub attempt : Bool
  pub generation : ℕ
  pub server_hello : Option String
  pub noise_handshake : Option Made
  pub session : Option Made
  pub node_id : String
  pub cached_psk : Option ℕ
  pub cached_psk_node_id : String
  pub cached_psk_password : String

abbrev pub new_wss_transport : WssTransport
new_wss_transport = record {
  conn = none;
  connected = false;
  handshake = false;
  last_error = none;
  closed_refused = false;
  closed_key_rejected = false;
  heard = false;
  final_sent = false;
  connection = no_telemetry;
  handshake_at = 0;
  pattern = none;
  force_xx = false;
  handshake_ready = true;
  read_done = true;
  attempt = false;
  generation = 0;
  server_hello = none;
  noise_handshake = none;
  session = none;
  node_id = "";
  cached_psk = none;
  cached_psk_node_id = "";
  cached_psk_password = "";
}

abbrev pub bump_generation : WssTransport → ℕ
bump_generation t = (t.generation + 1) % 2 ^ 64

abbrev pub same_made : Made → Made → Bool
same_made a b = a.attempt == b.attempt && a.id == b.id

abbrev pub holds : Option Made → Made → Bool
holds none c = false
holds (some a) c = same_made a c

-- `generationCurrentLocked`, for a reader's context.
unfoldable pub generation_current : ℕ → WssTransport → Bool
generation_current g t = g == t.generation && t.connected && is_some t.conn

unfoldable pub begin_connection : ℕ → WssTransport → WssTransport
begin_connection now t = record t {
  conn = none;
  generation = bump_generation t;
  last_error = none;
  closed_refused = false;
  closed_key_rejected = false;
  heard = false;
  final_sent = false;
  handshake_at = 0;
  pattern = none;
  connected = false;
  handshake = false;
  session = none;
  noise_handshake = none;
  server_hello = none;
  node_id = "";
  handshake_ready = true;
  read_done = true;
  connection = begin now t.connection;
}

-- `Connect`: up to the first attempt. A connect that finds the link up, or another at work, leaves
-- the state.
unfoldable pub enter : ℕ → WssTransport → WssTransport
enter now t =
    if t.connected && t.handshake && is_some t.conn
    then t
    else if t.attempt
    then t
    else begin_connection now (record t { attempt = true; force_xx = false })

abbrev pub is_kk : Option NoisePattern → Bool
is_kk (some kk) = true
is_kk _ = false

abbrev pub refused_by_hub : Option Err → Bool
refused_by_hub none = false
refused_by_hub (some e) = is e err_hub_refused

-- `Connect`: between the attempts. `done` says that its own context is.
unfoldable pub retry_xx : Option Err → Bool → ℕ → WssTransport → WssTransport
retry_xx e done now t =
    if is_kk t.pattern && refused_by_hub e && not done
    then begin_connection now (record t { force_xx = true })
    else t

unfoldable pub leave : WssTransport → WssTransport
leave t = record t { attempt = false }

-- `connectGeneration`: the socket of a dial.
unfoldable pub open_socket : ℕ → ℕ → Bool → ℕ → WssTransport → WssTransport
open_socket g id done now t = if not (t.generation == g) || done then t else record t {
  conn = some (record { attempt = g; id = id });
  connected = true;
  connection = mark_open now true t.connection;
}

-- `connectGeneration`: the handshake said that it is ready.
unfoldable pub confirm : ℕ → Made → Bool → ℕ → WssTransport → WssTransport
confirm g c done now t =
    if done
    then t
    else if not (t.generation == g) || not (holds t.conn c) || not t.connected || not t.handshake
    then t
    else record t { connection = complete now t.connection }

unfoldable pub disconnect : WssTransport → WssTransport
disconnect t = record t {
  generation = bump_generation t;
  conn = none;
  connected = false;
  handshake = false;
  session = none;
  noise_handshake = none;
  server_hello = none;
  node_id = "";
  connection = close t.connection;
}

abbrev pub captured : Option Made → Option Made → Bool
captured held none = true
captured held (some c) = holds held c

unfoldable pub poison_generation : ℕ → Option Made → Err → ℕ → WssTransport → WssTransport
poison_generation g c e now t =
    if t.generation == g && captured t.conn c
    then record t {
      connected = false;
      handshake = false;
      conn = none;
      session = none;
      noise_handshake = none;
      server_hello = none;
      node_id = "";
      last_error = some e;
      connection = fail now (some e) t.connection;
    }
    else t
