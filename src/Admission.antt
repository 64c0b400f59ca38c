-- ===== src/Admission.antt =====
-- connections.go: `WaitForAdmission`, which follows the operation of a new connection until the hub
-- admits it.
--
-- What a round of the loop learns from outside is a `Poll`. Times and durations are numbers of
-- nanoseconds. net/url and strings are the parameter `GoUrl`.
pub mod Verdicts
pub mod Endings
mod Tests
use text.Mathlib.Text.{◌==◌ as str_eq}
use thalovant_go_sdk.Prelude.{
  ℕ, zero, suc, ◌+◌, ◌*◌, ◌-◌, Bool, true, false, not, ◌&&◌, ◌||◌, Option, none, some, String, ltb,
  leb, ◌==◌, if◌then◌else◌,
}
use thalovant_go_sdk.Errors.{Err}
use thalovant_go_sdk.Link.{second}

pub data OperationStatus : Type 0 where
  requested committed applied ready failed timed_out : OperationStatus

-- An operation as far as the wait reads it; a missing self link is "".
pub record OperationResource : Type 0 where
  pub id : String
  pub self_link : String
  pub status : OperationStatus
  pub error_code : String
  pub error_message : String

pub record AdmissionOptions : Type 0 where
  pub timeout : ℕ
  pub poll_interval : ℕ

abbrev pub default_admission_timeout : ℕ
default_admission_timeout = 180 * second

abbrev pub default_operation_poll_interval : ℕ
default_operation_poll_interval = 2 * second

-- What GetOperation answers: an operation, an APIError with its status and RetryAfter, or another
-- error.
pub data Answer : Type 0 where
  operation : OperationResource → Answer
  api_error : ℕ → ℕ → Answer
  unreached : Err → Answer

-- `ctx_err` and `wait_over` are the errors of the caller's context and of the bounded one after the
-- read, `now` and `later` the clock at the two calls of `time.Until`, and `cut_short` whether the
-- caller's context ends the sleep.
pub record Poll : Type 0 where
  pub answer : Answer
  pub ctx_err : Bool
  pub wait_over : Bool
  pub now : ℕ
  pub later : ℕ
  pub cut_short : Bool

-- What the wait returns: nil, or an error by its kind.
pub data Verdict : Type 0 where
  admitted withdrawn admission_timeout foreign_link no_id : Verdict
  admission_failed : OperationResource → Verdict
  refused : ℕ → Verdict
  returned : Answer → Verdict

-- The switch on the answer: it ends the wait, or says how long to wait at least.
pub data Read : Type 0 where
  verdict : Verdict → Read
  wait : ℕ → Read

unfoldable pub read_operation : ℕ → OperationResource → OperationStatus → Read
read_operation interval o ready = verdict admitted
read_operation interval o failed = verdict (admission_failed o)
read_operation interval o timed_out = verdict (admission_failed o)
read_operation interval o _ = wait interval

-- HTTP 429. `time.Until(deadline)` is negative after the deadline, and a wait is positive.
unfoldable pub read_too_many : ℕ → ℕ → Poll → ℕ → Read
read_too_many interval deadline p retry_after =
    let asked = if ltb interval retry_after then retry_after else interval in
    if ltb (deadline - p.now) asked then verdict admission_timeout else wait asked

unfoldable pub read_error : ℕ → ℕ → Poll → ℕ → ℕ → Read
unfolding read_too_many
read_error interval deadline p status retry_after =
    if status == 404
    then verdict admitted
    else if status == 429
    then read_too_many interval deadline p retry_after
    else if leb 500 status
    then wait interval
    else if status == 401 || status == 403
    then verdict (returned (api_error status retry_after))
    else verdict (refused status)

unfoldable pub read_answer : ℕ → ℕ → Poll → Answer → Read
unfolding read_operation read_error
read_answer interval deadline p (operation o) = read_operation interval o o.status
read_answer interval deadline p (api_error status retry_after) =
    read_error interval deadline p status retry_after
read_answer interval deadline p (unreached e) = verdict (returned (unreached e))

-- One round: a verdict, or a sleep.
unfoldable pub nap : ℕ → Poll → Read → Read
nap deadline p (verdict v) = verdict v
nap deadline p (wait w) =
    let remaining = deadline - p.later in
    if leb remaining 0
    then verdict admission_timeout
    else (let asleep = if ltb w remaining then w else remaining in
        if p.cut_short then verdict withdrawn else wait asleep)

unfoldable pub round : ℕ → ℕ → Poll → Read
unfolding read_answer nap
round interval deadline p =
    if p.ctx_err
    then verdict withdrawn
    else if p.wait_over
    then verdict admission_timeout
    else nap deadline p (read_answer interval deadline p p.answer)

-- The loop from the poll `n` on; `none` when the fuel is out.
unfoldable pub wait_loop : ℕ → ℕ → (ℕ → Poll) → ℕ → ℕ → Option Verdict
wait_loop interval deadline polls zero n = none
wait_loop interval deadline polls (suc fuel) n =
    let rest = wait_loop interval deadline polls fuel (suc n) in
    elim (round interval deadline (polls n)) [ verdict v ↦ some v | wait w ↦ rest ]

-- A parsed URL: `user` is whether it names one.
pub record Url : Type 0 where
  pub scheme : String
  pub user : Bool
  pub hostname : String
  pub port : String

-- `last_part` is what follows the last occurrence of a string, by `strings.LastIndex`;
-- `before_any` what comes before the first character of a set, by `strings.IndexAny`; `path_unescape`
-- is `none` on an error.
pub record GoUrl : Type 0 where
  pub parse : String → Option Url
  pub to_lower : String → String
  pub has_prefix : String → String → Bool
  pub trim_space : String → String
  pub last_part : String → String → Option String
  pub before_any : String → String → String
  pub trim : String → String → String
  pub path_unescape : String → Option String

module _ (g : GoUrl) where
  unfoldable pub default_port : String → String → String
  default_port scheme port =
      if not (str_eq port "")
      then port
      else if str_eq scheme "https"
      then "443"
      else if str_eq scheme "http"
      then "80"
      else ""

  -- `urlOrigin`, whose three parts it joins with "://" and ":".
  unfoldable pub url_origin : Url → String × String × String
  unfolding default_port
  url_origin u =
      (g.to_lower u.scheme, g.to_lower u.hostname, default_port (g.to_lower u.scheme) u.port)

  abbrev pub same_text : String × String × String → String × String × String → Bool
  same_text (a, b, c) (x, y, z) = str_eq a x && (str_eq b y && str_eq c z)

  same_parsed : String → Option Url → Bool
  unfolding url_origin
  same_parsed api none = false
  same_parsed api (some u) = elim (g.parse api) [
    | none ↦ false
    | some a ↦ not u.user && same_text (url_origin u) (url_origin a)
  ]

  unfoldable pub same_origin : String → String → Bool
  unfolding same_parsed
  same_origin api link =
      if not (g.has_prefix (g.to_lower link) "http://")
        && not (g.has_prefix (g.to_lower link) "https://")
      then not (g.has_prefix link "//")
      else same_parsed api (g.parse link)

  unfoldable pub operation_id_from_link : String → String
  operation_id_from_link link = elim (g.last_part link "/v1/operations/") [
    | none ↦ ""
    | some rest ↦
        let id = g.trim (g.before_any rest "?#") "/" in
        elim (g.path_unescape id) [ some t ↦ t | none ↦ id ]
  ]

  abbrev pub or_else : ℕ → ℕ → ℕ
  or_else d n = if leb n 0 then d else n

  wait_for : ℕ → ℕ → (ℕ → Poll) → ℕ → OperationResource → AdmissionOptions → Option Verdict
  wait_for start fuel polls n o opts =
      wait_loop (or_else default_operation_poll_interval opts.poll_interval)
        (start + or_else default_admission_timeout opts.timeout) polls fuel n

  -- The wait begins at `start`. It asks for the operation by its id, or by the one in its link.
  unfoldable pub wait_for_admission :
      String
      → ℕ
      → ℕ
      → (String → ℕ → Poll)
      → Option OperationResource
      → AdmissionOptions
      → Option Verdict
  unfolding wait_for same_origin operation_id_from_link
  wait_for_admission api start fuel polls none opts = some admitted
  wait_for_admission api start fuel polls (some o) opts =
      let link = g.trim_space o.self_link in
      let id = if str_eq o.id "" then operation_id_from_link link else o.id in
      if not (same_origin api link)
      then some foreign_link
      else if str_eq id ""
      then some no_id
      else wait_for start fuel (polls id) 0 o opts
