-- ===== src/Telemetry.antt =====
-- transport.go: the times of a connection (`connectionTelemetry`).
--
-- A time is a number of nanoseconds, 0 the zero time. The milliseconds that the code reports are kept
-- as the whole microseconds that they are made from. An error is kept as its sentinels.
pub mod Spans
mod Tests
use thalovant_go_sdk.Prelude.{ℕ, ◌-◌, ◌/◌, Bool, ◌||◌, Option, none, some, ltb, ◌==◌, if◌then◌else◌}
use thalovant_go_sdk.Errors.{Err}

-- `unset` is the empty string.
pub data TransportConnectionPhase : Type 0 where
  unset idle connecting handshake ready closed error : TransportConnectionPhase

pub record TransportConnectionInfo : Type 0 where
  pub phase : TransportConnectionPhase
  pub started_at : ℕ
  pub connected_at : ℕ
  pub transport_open : ℕ
  pub socket_open : ℕ
  pub handshake_time : ℕ
  pub connect_time : ℕ
  pub last_error : Option Err

pub record ConnectionTelemetry : Type 0 where
  pub started : ℕ
  pub opened : ℕ
  pub info : TransportConnectionInfo

abbrev pub no_info : TransportConnectionInfo
no_info = record {
  phase = unset;
  started_at = 0;
  connected_at = 0;
  transport_open = 0;
  socket_open = 0;
  handshake_time = 0;
  connect_time = 0;
  last_error = none;
}

abbrev pub no_telemetry : ConnectionTelemetry
no_telemetry = record { started = 0; opened = 0; info = no_info }

unfoldable pub elapsed : ℕ → ℕ → ℕ
elapsed start end = if start == 0 || ltb end start then 0 else (end - start) / 1000

shown : TransportConnectionPhase → TransportConnectionInfo → TransportConnectionInfo
shown unset info = record no_info { phase = idle }
shown _ info = info

unfoldable pub snapshot : ConnectionTelemetry → TransportConnectionInfo
unfolding shown
snapshot c = shown c.info.phase c.info

unfoldable pub begin : ℕ → ConnectionTelemetry → ConnectionTelemetry
begin now c = record {
  started = now;
  opened = 0;
  info = record no_info { phase = connecting; started_at = now };
}

open_info : ℕ → TransportConnectionInfo → Bool → TransportConnectionInfo
open_info span info socket = record info {
  phase = handshake;
  transport_open = span;
  socket_open = if socket then span else info.socket_open;
}

begun : ℕ → ConnectionTelemetry → ConnectionTelemetry
unfolding begin
begun now c = if c.started == 0 then begin now c else c

unfoldable pub mark_open : ℕ → Bool → ConnectionTelemetry → ConnectionTelemetry
unfolding begun open_info
mark_open now socket c =
    let b : ConnectionTelemetry = begun now c in
    if b.opened == 0
    then record b { opened = now; info = open_info (elapsed b.started now) b.info socket }
    else b

abbrev pub or_time : ℕ → ℕ → ℕ
or_time t u = if t == 0 then u else t

unfoldable pub complete : ℕ → ConnectionTelemetry → ConnectionTelemetry
complete now c =
    let open_at = or_time (or_time c.opened c.started) now in
    let start_at = or_time c.started open_at in
    record c {
      info = record (c.info) {
        phase = ready;
        connected_at = now;
        handshake_time = elapsed open_at now;
        connect_time = elapsed start_at now;
        last_error = none;
      };
    }

abbrev pub error_text : Option Err → Option Err → Option Err
error_text none old = old
error_text (some e) old = some e

unfoldable pub fail : ℕ → Option Err → ConnectionTelemetry → ConnectionTelemetry
fail now e c = record c {
  info = record (c.info) {
    phase = error;
    connect_time = elapsed (or_time c.started now) now;
    last_error = error_text e c.info.last_error;
  };
}

unfoldable pub close : ConnectionTelemetry → ConnectionTelemetry
close c = record c { info = record (c.info) { phase = closed } }
