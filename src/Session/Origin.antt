-- ===== src/Session/Origin.antt =====
-- session.go: `OriginPreference`, which tries a hub's own address before the one of its options.
-- A client is a handle, a number. What `Connect` learns from outside is the record `Dialling`.
pub mod Clients
mod Tests
use text.Mathlib.Text.{◌==◌ as str_eq}
use thalovant_go_sdk.Prelude.{
  ℕ, ◌+◌, Bool, true, false, not, ◌&&◌, ◌||◌, Option, none, some, String, List, [], ◌∷◌, ◌++◌, ltb,
  leb, if◌then◌else◌,
}
use thalovant_go_sdk.Errors.{Err, other_error}
use thalovant_go_sdk.Session.{Effect, dialled, closed, close_failed, log_dial}

pub record OriginPreference : Type 0 where
  pub address : String
  pub handshake_timeout : ℕ
  pub cooldown : ℕ
  pub quiet_until : ℕ

pub record OriginAttempt : Type 0 where
  pub address : String
  pub host : String
  pub handshake_timeout : ℕ
  pub connect_timeout : ℕ

-- What `build` returns: a client, or none, and an error, or none.
pub record Built : Type 0 where
  pub client : Option ℕ
  pub err : Option Err

-- The context's errors are those at the start, after the attempt's client was closed, and after the
-- cooldown began.
pub record Dialling : Type 0 where
  pub ctx : Option Err
  pub now : ℕ
  pub build : OriginAttempt → Built
  pub close : ℕ → Option Err
  pub ctx_closed : Option Err
  pub now_failed : ℕ
  pub ctx_cooling : Option Err

unfoldable pub cooling_down : OriginPreference → ℕ → Bool
cooling_down o now = ltb now o.quiet_until

-- What Connect leaves: the preference, its log with the last effect first, and its answer.
pub record Origin : Type 0 where
  pub preference : OriginPreference
  pub log : List Effect
  pub answer : Built

-- The last lines of Connect.
unfoldable pub build_direct : Dialling → OriginAttempt → OriginPreference → List Effect → Origin
build_direct d options o log =
    let built = d.build (record options { address = "" }) in
    record { preference = o; log = log_dial built.client log; answer = built }

abbrev turn_down : OriginPreference → List Effect → Err → Origin
turn_down o log e = record {
  preference = o;
  log = log;
  answer = record { client = none; err = some e };
}

-- After the attempt at the preferred address failed and its client is closed.
unfoldable pub fall_back : Dialling → OriginAttempt → OriginPreference → List Effect → Origin
fall_back d options o log = elim d.ctx_closed [
  | some e ↦ turn_down o log e
  | none ↦
      let quiet = record o { quiet_until = d.now_failed + o.cooldown } in
      elim d.ctx_cooling [
        | some e ↦ turn_down quiet log e
        | none ↦ build_direct d options quiet log
      ]
]

-- After an attempt at the preferred address that failed with `e`.
unfoldable pub close_attempt : Dialling → OriginAttempt → OriginPreference → Err → Option ℕ → Origin
close_attempt d options o e none = fall_back d options o []
close_attempt d options o e (some c) = elim (d.close c) [
  | some e' ↦ turn_down o (close_failed c ∷ dialled c ∷ []) (e ++ e')
  | none ↦ fall_back d options o (closed c ∷ dialled c ∷ [])
]

unfoldable pub try_preferred : Dialling → OriginAttempt → OriginPreference → Origin
try_preferred d options o =
    let built =
      d.build (record options { address = o.address; handshake_timeout = o.handshake_timeout }) in
    elim built.err [
      | none ↦ record {
        preference = o;
        log = log_dial built.client [];
        answer = record { client = built.client; err = none };
      }
      | some e ↦ close_attempt d options o e built.client
    ]

unfoldable pub connect_origin : Dialling → OriginAttempt → OriginPreference → Origin
connect_origin d options o = elim d.ctx [
  | some e ↦ turn_down o [] e
  | none ↦
      if leb o.handshake_timeout 0 || leb o.cooldown 0
      then turn_down o [] (other_error ∷ [])
      else if not (str_eq o.address "")
          && (not (str_eq options.host "") && not (cooling_down o d.now))
      then try_preferred d options o
      else build_direct d options o []
]
