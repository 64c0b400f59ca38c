-- ===== src/Ask/Step.antt =====
-- client.go: the loop of `AskWithOptions`, its `finish` and its `drain`.
use thalovant_go_sdk.Prelude.{
  ℕ, Bool, true, false, Option, none, some, String, List, [], ◌∷◌, is_some, if◌then◌else◌,
}
use thalovant_go_sdk.Errors.{Err, err_connection}
use thalovant_go_sdk.Ask.{
  GoStrings, EventName, policy_denied, intent_unmatched, intent_failure, Event, InFlight, Asking,
  no_fragments, accept,
}

pub data CtxErr : Type 0 where
  canceled deadline_exceeded : CtxErr

pub record Reply : Type 0 where
  pub text : String
  pub utterances : List String
  pub handled : Bool
  pub ok : Bool
  pub session_id : String
  pub request_id : String
  pub events : List Event
  pub dropped_media : ℕ
  pub failure_event : Option Event

-- The three errors of `failureError`, and the others that an ask returns.
pub data AskError : Type 0 where
  refused unanswered fault : Event → AskError
  withdrawn timed_out silent : AskError
  stream send : Err → AskError

pub data Outcome : Type 0 where
  answered : Reply → Outcome
  ended : AskError → Outcome

abbrev pub failure_error : Event → EventName → AskError
failure_error e policy_denied = refused e
failure_error e intent_unmatched = unanswered e
failure_error e intent_failure = unanswered e
failure_error e _ = fault e

abbrev pub subscription_error : Option Err → Err
subscription_error (some e) = e
subscription_error none = err_connection ∷ []

-- `failure` of `finish`.
abbrev pub failure_of : Option Event → Option Event → List String → Option Event
failure_of (some e) soft fs = some e
failure_of none soft [] = soft
failure_of none soft (x ∷ fs) = none

abbrev pub silent_error : Option Event → Option CtxErr → AskError
silent_error (some e) ctx = failure_error e e.name
silent_error none (some c) = timed_out
silent_error none none = silent

-- What the code reads on a round: the clock, the context's error, the subscription's error, and the
-- utterances in flight.
pub record Seen : Type 0 where
  pub now : ℕ
  pub ctx : Option CtxErr
  pub sub : Option Err
  pub in_flight : InFlight

-- What a drain takes from the backlog: an event, the end of the stream, or nothing. The source counts the
-- backlog before it takes from it; the list has an entry for each that was counted.
pub data Taken : Type 0 where
  took : Event → Taken
  stream_over nothing : Taken

pub data Input : Type 0 where
  ctx_done settled : Seen → List Taken → Input
  sent : Seen → Option Err → List Taken → Input
  arrived : Seen → Event → Input
  stream_ended : Seen → Input

module _ (g : GoStrings) where
  -- The session of the first event that names one.
  unfoldable pub first_session : String → List Event → String
  first_session s [] = s
  first_session s (e ∷ es) = if g.is_blank e.session_id then first_session s es else e.session_id

  unfoldable pub finish_said : Asking → Option Event → Outcome
  finish_said s failure = answered (record {
    text = g.join s.fragments;
    utterances = s.fragments;
    handled = if is_some failure then false else true;
    ok = if is_some failure then false else true;
    session_id = first_session s.context_session_id s.events;
    request_id = s.request_id;
    events = s.events;
    dropped_media = s.budget.dropped;
    failure_event = failure;
  })

  finish_live : Asking → Option CtxErr → Option Err → Outcome
  unfolding finish_said
  finish_live s ctx (some e) = ended (stream e)
  finish_live s ctx none =
      let failure = failure_of s.hard_failure s.soft_failure s.fragments in
      if no_fragments s.fragments then ended (silent_error failure ctx) else finish_said s failure

  unfoldable pub finish : Asking → Option CtxErr → Option Err → Outcome
  unfolding finish_live
  finish s (some canceled) sub = ended withdrawn
  finish s ctx sub = finish_live s ctx sub

  -- The rest of the backlog, after an event that did or did not end the ask.
  unfoldable pub drain : Asking → Seen → List Taken → Asking × Option Err
  drain s v [] = (s, none)
  drain s v (nothing ∷ ts) = (s, none)
  drain s v (stream_over ∷ ts) = (s, some (subscription_error v.sub))
  drain s v (took e ∷ ts) =
      let rest = drain (accept g s v.now v.in_flight e).0 v ts in
      if (accept g s v.now v.in_flight e).1
      then ((accept g s v.now v.in_flight e).0, none)
      else rest

  drained : Seen → Asking × Option Err → Outcome
  drained v (s, some e) = ended (stream e)
  drained v (s, none) = finish s v.ctx v.sub

  -- A failed send, after the drain.
  send_failed : Seen → Err → Asking × Option Err → Outcome
  send_failed v x (s, some e) = ended (stream e)
  send_failed v x (s, none) = elim v.ctx [
    | some deadline_exceeded ↦ finish s v.ctx v.sub
    | _ ↦ if is_some s.hard_failure then finish s v.ctx v.sub else ended (send x)
  ]

  ctx_over : Asking → Seen → List Taken → Option CtxErr → Outcome
  ctx_over s v ts (some canceled) = ended withdrawn
  ctx_over s v ts _ = drained v (drain s v ts)

  failed_send : Asking → Seen → Err → List Taken → Option CtxErr → Outcome
  failed_send s v x ts (some canceled) = ended (send x)
  failed_send s v x ts _ = send_failed v x (drain s v ts)

  -- One round of the loop: the state to go on with, or the outcome.
  unfoldable pub ask_round : Asking → Input → Asking × Option Outcome
  unfolding ctx_over failed_send drained send_failed
  ask_round s (ctx_done v ts) = (s, some (ctx_over s v ts v.ctx))
  ask_round s (settled v ts) = (s, some (drained v (drain s v ts)))
  ask_round s (sent v none ts) = (s, none)
  ask_round s (sent v (some x) ts) = (s, some (failed_send s v x ts v.ctx))
  ask_round s (stream_ended v) = (s, some (ended (stream (subscription_error v.sub))))
  ask_round s (arrived v e) =
      let (t, over) = accept g s v.now v.in_flight e in
      (t, if over then some (finish t v.ctx v.sub) else none)

  -- The rounds of an ask; `none` while it still waits.
  unfoldable pub ask_loop : Asking → List Input → Option Outcome
  ask_loop s [] = none
  ask_loop s (i ∷ is) =
      let rest = ask_loop (ask_round s i).0 is in
      elim (ask_round s i).1 [ some r ↦ some r | none ↦ rest ]
