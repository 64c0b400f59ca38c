-- ===== src/Ask/Endings.antt =====
-- client.go: `AskWithOptions`, how the loop ends, and what every reply inherits from the states of
-- its ask.
use thalovant_go_sdk.Prelude.{
  ℕ, ◌+◌, ◌∙◌, true, false, Option, none, some, List, [], ◌∷◌, ◌++◌, ◌≡◌, refl, Bool-cases,
  Option-cases, inl, inr, arith,
}
use thalovant_go_sdk.Errors.{Err}
use thalovant_go_sdk.Ask.{
  GoStrings, EventName, speak, utterance_speak, policy_denied, query_timeout, intent_unmatched,
  intent_failure, utterance_handled, audio_queue, other_event, Event, InFlight, Asking,
  no_fragments, budget_accept, belongs, hear, wait_empty, react, accept,
}
use thalovant_go_sdk.Ask.Step.{
  CtxErr, canceled, deadline_exceeded, Reply, answered, Seen, Taken, took, stream_over, nothing,
  Input, ctx_done, settled, sent, arrived, stream_ended, finish_said, finish, drain, ask_round,
  ask_loop,
}

-- A reply of a state: what the state collected.
pub record IsReplyOf (r : Reply) (s : Asking) : Type 0 where
  pub same_events : r.events ≡ s.events
  pub same_words : r.utterances ≡ s.fragments
  pub said : no_fragments s.fragments ≡ false
  pub same_failure : r.failure_event ≡ s.hard_failure

module _ (g : GoStrings) where
  finish-IsReplyOf :
      (s : Asking) (ctx : Option CtxErr) (sub : Option Err) (r : Reply)
      → finish g s ctx sub ≡ answered r
      → IsReplyOf r s
  unfolding finish finish_said
  finish-IsReplyOf s (some canceled) sub r h = cc
  finish-IsReplyOf s (some deadline_exceeded) (some e) r h = cc
  finish-IsReplyOf s (some deadline_exceeded) none r h = ground arith
  finish-IsReplyOf s none (some e) r h = cc
  finish-IsReplyOf s none none r h = ground arith

-- A property that every accepted event keeps holds of the state that a reply was made of.
module _ (g : GoStrings) {P : Asking → Type 0}
    (keeps : (s : Asking) (now : ℕ) (f : InFlight) (e : Event)
      → P s
      → P (accept g s now f e).0) where
  pub drain_keeps : (s : Asking) (v : Seen) (ts : List Taken) → P s → P (drain g s v ts).0
  unfolding drain
  drain_keeps s v [] p = p
  drain_keeps s v (nothing ∷ ts) p = p
  drain_keeps s v (stream_over ∷ ts) p = p
  drain_keeps s v (took e ∷ ts) p =
      let next = keeps s v.now v.in_flight e p in
      let later = drain_keeps (accept g s v.now v.in_flight e).0 v ts next in
      elim (Bool-cases (accept g s v.now v.in_flight e).1) [
        | inl over ↦ rw over next
        | inr on ↦ rw on later
      ]

  drained_keeps :
      (s : Asking) (v : Seen) (ts : List Taken) (r : Reply)
      → P s
      → finish g (drain g s v ts).0 v.ctx v.sub ≡ answered r
      → (t : Asking) × P t × IsReplyOf r t
  drained_keeps s v ts r p h = (
    (drain g s v ts).0,
    drain_keeps s v ts p,
    finish-IsReplyOf g (drain g s v ts).0 v.ctx v.sub r h,
  )

  round_keeps :
      (s : Asking) (i : Input) (r : Reply)
      → P s
      → (ask_round g s i).1 ≡ some (answered r)
      → (t : Asking) × P t × IsReplyOf r t
  unfolding ask_round
  round_keeps s (ctx_done v ts) r p h = drained_keeps s v ts r p (ground arith)
  round_keeps s (settled v ts) r p h = drained_keeps s v ts r p (ground arith)
  round_keeps s (sent v none ts) r p h = cc
  round_keeps s (sent v (some x) ts) r p h = drained_keeps s v ts r p (ground arith)
  round_keeps s (stream_ended v) r p h = cc
  round_keeps s (arrived v e) r p h = (
    (accept g s v.now v.in_flight e).0,
    keeps s v.now v.in_flight e p,
    finish-IsReplyOf g (accept g s v.now v.in_flight e).0 v.ctx v.sub r (ground arith),
  )

  round_goes_on : (s : Asking) (i : Input) → P s → P (ask_round g s i).0
  unfolding ask_round
  round_goes_on s (ctx_done v ts) p = p
  round_goes_on s (settled v ts) p = p
  round_goes_on s (sent v none ts) p = p
  round_goes_on s (sent v (some x) ts) p = p
  round_goes_on s (stream_ended v) p = p
  round_goes_on s (arrived v e) p = keeps s v.now v.in_flight e p

  pub ask_loop_keeps :
      (s : Asking) (is : List Input) (r : Reply)
      → P s
      → ask_loop g s is ≡ some (answered r)
      → (t : Asking) × P t × IsReplyOf r t
  unfolding ask_loop
  ask_loop_keeps s [] r p h = cc
  ask_loop_keeps s (i ∷ is) r p h = elim (Option-cases (ask_round g s i).1) [
    | inl on ↦ ask_loop_keeps (ask_round g s i).0 is r (round_goes_on s i p) (ground arith)
    | inr (o, over) ↦ round_keeps s i r p (ground arith)
  ]

module _ (g : GoStrings) where
  -- The state of an ask after rounds of its loop.
  unfoldable pub rounds : Asking → List Input → Asking
  rounds s [] = s
  rounds s (i ∷ is) = rounds (ask_round g s i).0 is

  react_settled :
      (t : Asking) (now : ℕ) (e : Event) (n : EventName)
      → t.settle_started ≡ true
      → ((react g t now e n).0.settle_started ≡ true)
        × ((react g t now e n).0.settled_at ≡ t.settled_at)
  unfolding react hear wait_empty
  react_settled t now e speak h = ground arith
  react_settled t now e utterance_speak h = ground arith
  react_settled t now e policy_denied h = ground arith
  react_settled t now e query_timeout h = ground arith
  react_settled t now e intent_unmatched h = ground arith
  react_settled t now e intent_failure h = ground arith
  react_settled t now e utterance_handled h = ground arith
  react_settled t now e audio_queue h = ground arith
  react_settled t now e other_event h = ground arith

  accept_settled :
      (s : Asking) (now : ℕ) (f : InFlight) (e : Event)
      → s.settle_started ≡ true
      → ((accept g s now f e).0.settle_started ≡ true)
        × ((accept g s now f e).0.settled_at ≡ s.settled_at)
  unfolding accept
  accept_settled s now f e h = elim (Bool-cases (belongs s.request_id f e e.name)) [
    | inr alien ↦ ground arith
    | inl own ↦ elim (Bool-cases (budget_accept s.budget e).1) [
      | inr dear ↦ ground arith
      | inl fits ↦
          let t = record s {
            budget = (budget_accept s.budget e).0;
            events = s.events ++ (e ∷ []);
          } in
          ground (arith, react_settled t now e e.name)
    ]
  ]

  round_settled :
      (s : Asking) (i : Input)
      → s.settle_started ≡ true
      → ((ask_round g s i).0.settle_started ≡ true)
        × ((ask_round g s i).0.settled_at ≡ s.settled_at)
  unfolding ask_round
  round_settled s (ctx_done v ts) h = (h, refl)
  round_settled s (settled v ts) h = (h, refl)
  round_settled s (sent v none ts) h = (h, refl)
  round_settled s (sent v (some x) ts) h = (h, refl)
  round_settled s (stream_ended v) h = (h, refl)
  round_settled s (arrived v e) h = accept_settled s v.now v.in_flight e h

  rounds_settled :
      (s : Asking) (is : List Input)
      → s.settle_started ≡ true
      → (rounds s is).settled_at ≡ s.settled_at
  unfolding rounds
  rounds_settled s [] h = refl
  rounds_settled s (i ∷ is) h =
      let (on, same) = round_settled s i h in rounds_settled (ask_round g s i).0 is on ∙ same

  react_starts :
      (t : Asking) (now : ℕ) (e : Event) (n : EventName)
      → t.settle_started ≡ false
      → (react g t now e n).0.settle_started ≡ true
      → (react g t now e n).0.settled_at ≡ some (now + t.settle_wait)
  unfolding react hear wait_empty
  react_starts t now e speak h k = ground arith
  react_starts t now e utterance_speak h k = ground arith
  react_starts t now e policy_denied h k = absurd (ground arith)
  react_starts t now e query_timeout h k = absurd (ground arith)
  react_starts t now e intent_unmatched h k = absurd (ground arith)
  react_starts t now e intent_failure h k = absurd (ground arith)
  react_starts t now e utterance_handled h k = absurd (ground arith)
  react_starts t now e audio_queue h k = absurd (ground arith)
  react_starts t now e other_event h k = absurd (ground arith)

  accept_starts :
      (s : Asking) (now : ℕ) (f : InFlight) (e : Event)
      → s.settle_started ≡ false
      → (accept g s now f e).0.settle_started ≡ true
      → (accept g s now f e).0.settled_at ≡ some (now + s.settle_wait)
  unfolding accept
  accept_starts s now f e h k = elim (Bool-cases (belongs s.request_id f e e.name)) [
    | inr alien ↦ absurd (ground arith)
    | inl own ↦ elim (Bool-cases (budget_accept s.budget e).1) [
      | inr dear ↦ absurd (ground arith)
      | inl fits ↦
          let t = record s {
            budget = (budget_accept s.budget e).0;
            events = s.events ++ (e ∷ []);
          } in
          ground (arith, react_starts t now e e.name)
    ]
  ]

  -- When an event starts the settle timer of an ask, by the first fragment that it adds, the timer
  -- is set to the time of that event and the settle wait; and whatever rounds the ask goes through
  -- afterwards, no event puts it off.
  pub ask_round-settled :
      (s : Asking) (v : Seen) (e : Event) (is : List Input)
      → s.settle_started ≡ false
      → (ask_round g s (arrived v e)).0.settle_started ≡ true
      → (rounds (ask_round g s (arrived v e)).0 is).settled_at ≡ some (v.now + s.settle_wait)
  unfolding ask_round
  ask_round-settled s v e is h k =
      rounds_settled (accept g s v.now v.in_flight e).0 is k
      ∙ accept_starts s v.now v.in_flight e h k
