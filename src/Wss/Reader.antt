-- ===== src/Wss/Reader.antt =====
-- transport_wss.go: the sections of a reader, of its handshake and of the pre-shared key.
use text.Mathlib.Text.{◌==◌ as str_eq}
use thalovant_go_sdk.Prelude.{
  ℕ, ◌-◌, ◌*◌, Bool, true, false, not, ◌&&◌, ◌||◌, Option, none, some, String, ltb, leb, ◌==◌,
  is_some, if◌then◌else◌,
}
use thalovant_go_sdk.Errors.{Err, err_hub_refused, is}
use thalovant_go_sdk.Telemetry.{fail}
use thalovant_go_sdk.Wss.{NoisePattern, xx, WssTransport, generation_current}

-- `handleRawMessage`: a frame decrypted.
unfoldable pub hear_frame : ℕ → WssTransport → WssTransport
hear_frame g t = if generation_current g t then record t { heard = true } else t

unfoldable pub handle_hello : ℕ → String → WssTransport → WssTransport
handle_hello g node t =
    if not (generation_current g t)
    then t
    else if not (is_some t.session) && not (is_some t.server_hello)
    then record t { server_hello = some node; node_id = node }
    else t

-- `startNoiseHandshake`: the handshake whose first message is made.
unfoldable pub start_handshake : ℕ → ℕ → NoisePattern → WssTransport → WssTransport
start_handshake g id p t =
    if generation_current g t
    then record t { noise_handshake = some (record { attempt = g; id = id }); pattern = some p }
    else t

-- `continueNoiseHandshake`, in its order: the last message of XX goes out, the session is made, the
-- link is up.
unfoldable pub mark_final : ℕ → WssTransport → WssTransport
mark_final g t = if generation_current g t then record t { final_sent = true } else t

unfoldable pub make_session : ℕ → ℕ → WssTransport → WssTransport
make_session g id t =
    if generation_current g t
    then record t { session = some (record { attempt = g; id = id }); noise_handshake = none }
    else t

unfoldable pub bring_up : ℕ → ℕ → WssTransport → WssTransport
bring_up g now t =
    if not (generation_current g t)
    then t
    else if t.handshake
    then t
    else record t { handshake = true; handshake_at = now; handshake_ready = false }

abbrev pub close_code_grace : ℕ
close_code_grace = 250 * 1000000

abbrev pub default_hub_settle : ℕ
default_hub_settle = 750 * 1000000

abbrev pub refusal_close_code : ℕ → Bool
refusal_close_code code = code == 1000 || code == 1005 || code == 1008

unfoldable pub close_refuses : ℕ → Bool → ℕ → ℕ → Bool → Bool
close_refuses code during_handshake after_handshake code_late after_authenticated_frame =
    if after_authenticated_frame || not (refusal_close_code code) || ltb close_code_grace code_late
    then false
    else during_handshake || leb after_handshake default_hub_settle

abbrev pub is_xx : Option NoisePattern → Bool
is_xx (some xx) = true
is_xx _ = false

-- `time.Since(t.handshakeAt)`, `code` the close's or 0.
unfoldable pub read_refuses : Err → ℕ → ℕ → WssTransport → Bool
read_refuses e code now t =
    is e err_hub_refused || close_refuses code (not t.handshake) (now - t.handshake_at) 0 t.heard

unfoldable pub read_rejects : Err → ℕ → ℕ → WssTransport → Bool
read_rejects e code now t =
    read_refuses e code now t
    && is_xx t.pattern
    && t.final_sent
    && not t.heard
    && not (is e err_hub_refused)

unfoldable pub record_read_failure : ℕ → Err → ℕ → ℕ → WssTransport → WssTransport
record_read_failure g e code now t =
    if not (t.generation == g) || not t.connected then t else record t {
      last_error = some e;
      closed_refused = read_refuses e code now t;
      closed_key_rejected = read_rejects e code now t;
      connected = false;
      handshake = false;
      session = none;
      noise_handshake = none;
      connection = fail now (some e) t.connection;
    }

unfoldable pub signal_read_done : ℕ → WssTransport → WssTransport
signal_read_done g t = if t.generation == g then record t { read_done = false } else t

-- `pskForGeneration`: the key read or derived.
unfoldable pub keep_psk : ℕ → ℕ → String → String → WssTransport → WssTransport
keep_psk g psk node password t =
    if generation_current g t
    then record t {
      cached_psk = some psk;
      cached_psk_node_id = node;
      cached_psk_password = password;
    }
    else t

unfoldable pub forget_psk : String → WssTransport → WssTransport
forget_psk node t =
    if str_eq t.cached_psk_node_id node
    then record t { cached_psk = none; cached_psk_node_id = ""; cached_psk_password = "" }
    else t
