-- ===== src/DeviceLogin.antt =====
-- device_login.go and control.go: the device sign-in, from the grant to the token.
--
-- Durations and times are numbers of nanoseconds. A number of a JSON answer is a `Count`: how many
-- nanoseconds it stands for, or that it is negative, or not there as a number. net/url is the
-- parameter `BrowserUrls`. What a round of the polling loop learns from outside is a `Poll`.
pub mod Polling
mod Tests
use text.Mathlib.Text.{◌==◌ as str_eq}
use thalovant_go_sdk.Prelude.{
  ℕ, zero, suc, ◌+◌, ◌*◌, ◌-◌, ◌%◌, ◌^◌, Bool, true, false, not, ◌&&◌, ◌||◌, Option, none, some,
  String, List, [], ◌∷◌, ltb, leb, ◌==◌, if◌then◌else◌,
}
use thalovant_go_sdk.Link.{second}

abbrev pub default_device_poll_interval : ℕ
default_device_poll_interval = 5 * second

abbrev pub device_slow_down_increment : ℕ
device_slow_down_increment = 5 * second

abbrev pub default_device_login_timeout : ℕ
default_device_login_timeout = 900 * second

-- math.MaxInt64 / int64(time.Second) - 1, in nanoseconds.
abbrev pub max_duration : ℕ
max_duration = 9_223_372_035 * second

-- Go's sum of two durations, in two's complement of 64 bits: from 2^63 on a duration is negative.
unfoldable pub add_duration : ℕ → ℕ → ℕ
add_duration a b = (a + b) % 2 ^ 64

abbrev pub is_negative : ℕ → Bool
is_negative d = leb (2 ^ 63) d

-- A parsed URL: its scheme in lower case, its host, and whether it names a user.
pub record BrowserUrl : Type 0 where
  pub scheme : String
  pub hostname : String
  pub user : Bool

-- `parse` is url.Parse with the scheme in lower case; `has_blank` tests for a space or a control
-- character.
pub record BrowserUrls : Type 0 where
  pub parse : String → Option BrowserUrl
  pub has_blank : String → Bool

pub data Count : Type 0 where
  no_count negative : Count
  nanos : ℕ → Count

-- The answer to an authorization; a text that is missing or no string is "".
pub record Grant : Type 0 where
  pub device_code : String
  pub user_code : String
  pub verification_uri : String
  pub verification_uri_complete : String
  pub interval : Count
  pub expires_in : Count

pub record DeviceAuthorization : Type 0 where
  pub device_code : String
  pub user_code : String
  pub verification_uri : String
  pub verification_uri_complete : String
  pub interval : ℕ
  pub expires_in : ℕ

unfoldable pub interval_of : Count → ℕ
interval_of (nanos n) = if leb n max_duration then n else default_device_poll_interval
interval_of _ = default_device_poll_interval

-- `raw == math.Trunc(raw)` asks for whole seconds.
unfoldable pub expiry_of : Count → ℕ
expiry_of (nanos n) = if leb n max_duration && n % second == 0 then n else 900 * second
expiry_of _ = 900 * second

module _ (u : BrowserUrls) where
  -- Whether `validateBrowserURL` returns nil.
  is_browser_url : Option BrowserUrl → Bool
  is_browser_url none = false
  is_browser_url (some e) =
      (str_eq e.scheme "http" || str_eq e.scheme "https")
      && (not (str_eq e.hostname "") && not e.user)

  unfoldable pub validate_browser_url : String → Bool
  unfolding is_browser_url
  validate_browser_url target = not (u.has_blank target) && is_browser_url (u.parse target)

  -- `none` is ErrAPI.
  unfoldable pub device_authorization_from_grant : Grant → Option DeviceAuthorization
  unfolding interval_of expiry_of
  device_authorization_from_grant g =
      if str_eq g.device_code "" || (str_eq g.user_code "" || str_eq g.verification_uri "")
      then none
      else if not (validate_browser_url g.verification_uri)
      then none
      else if not (str_eq g.verification_uri_complete "")
          && not (validate_browser_url g.verification_uri_complete)
      then none
      else some (record {
        device_code = g.device_code;
        user_code = g.user_code;
        verification_uri = g.verification_uri;
        verification_uri_complete = g.verification_uri_complete;
        interval = interval_of g.interval;
        expires_in = expiry_of g.expires_in;
      })

-- The fields of a token answer that the sign-in keeps; a missing one is "". A scope that is no
-- string is `none`, and so is an expiry that is no time.
pub record Token : Type 0 where
  pub access_token : String
  pub token_id : String
  pub token_type : String
  pub scopes : List (Option String)
  pub expires_at : Option ℕ

-- The answer to a poll: a token; a body that is no object; another status with the "error" of its
-- body, "" for none; or no answer.
pub data TokenAnswer : Type 0 where
  granted : Token → TokenAnswer
  undecodable : TokenAnswer
  refused : ℕ → String → TokenAnswer
  unreached : TokenAnswer

-- The errors of a poll: the pending one carries the interval to wait.
pub data PollError : Type 0 where
  pending : ℕ → PollError
  denied expired bad_answer not_sent : PollError
  api_error : ℕ → PollError

pub data Polled : Type 0 where
  signed_in : Token → Polled
  failed : PollError → Polled

-- The switch on the error's code, under the interval as it is.
unfoldable pub refusal : ℕ → ℕ → String → ℕ × Polled
refusal interval status code =
    if str_eq code "authorization_pending"
    then (interval, failed (pending interval))
    else if str_eq code "slow_down"
    then (
      add_duration interval device_slow_down_increment,
      failed (pending (add_duration interval device_slow_down_increment)),
    )
    else if str_eq code "access_denied"
    then (interval, failed denied)
    else if str_eq code "expired_token"
    then (interval, failed expired)
    else (interval, failed (api_error status))

-- The interval afterwards, and what the poll came to.
unfoldable pub device_token_once : ℕ → TokenAnswer → ℕ × Polled
unfolding refusal
device_token_once interval (granted t) = (interval, signed_in t)
device_token_once interval undecodable = (interval, failed bad_answer)
device_token_once interval unreached = (interval, failed not_sent)
device_token_once interval (refused status code) =
    refusal interval status (if status == 400 then code else "")

-- `now` is the clock after the answer, and `cut_short` whether the sleep is ended by the context.
pub record Poll : Type 0 where
  pub answer : TokenAnswer
  pub now : ℕ
  pub cut_short : Bool

pub data Outcome : Type 0 where
  token : Token → Outcome
  error : PollError → Outcome
  timed_out withdrawn : Outcome

-- What a round comes to: an outcome, or a sleep.
pub data Round : Type 0 where
  over : Outcome → Round
  sleeps : ℕ → Round

-- A sleep for a negative duration ends at once.
unfoldable pub sleep_or_end : ℕ → Poll → ℕ → Round
sleep_or_end deadline p wait =
    let remaining = deadline - p.now in
    if leb remaining 0
    then over timed_out
    else if p.cut_short
    then over withdrawn
    else if is_negative wait
    then sleeps 0
    else sleeps (if ltb wait remaining then wait else remaining)

unfoldable pub round : ℕ → Poll → Polled → Round
round deadline p (signed_in t) = over (token t)
round deadline p (failed (pending wait)) = sleep_or_end deadline p wait
round deadline p (failed e) = over (error e)

-- `pollDeviceToken` from the poll `n` on, with the interval of the moment; `none` when the fuel is out.
unfoldable pub poll_device_token : ℕ → (ℕ → Poll) → ℕ → ℕ → ℕ → Option Outcome
poll_device_token deadline polls zero n interval = none
poll_device_token deadline polls (suc fuel) n interval =
    let polled = device_token_once interval (polls n).answer in
    let rest = poll_device_token deadline polls fuel (suc n) polled.0 in
    elim (round deadline (polls n) polled.1) [ over o ↦ some o | sleeps w ↦ rest ]
