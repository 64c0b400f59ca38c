-- ===== src/Ask/Correlation.antt =====
-- client.go and errors.go: which events an ask takes for its own.
use text.Mathlib.TextEquality.{eq_iff}
use mathlib.Core.Path.{subst}
use thalovant_go_sdk.Prelude.{
  ℕ, true, some, String, List, [], ◌∷◌, ◌++◌, ◌≡◌, ◌⊎◌, ◌↔◌, refl, sym, ◌∙◌, Bool-cases, inl, inr,
  arith, All,
}
use thalovant_go_sdk.Ask.{
  GoStrings, EventName, speak, utterance_speak, policy_denied, query_timeout, intent_unmatched,
  intent_failure, utterance_handled, audio_queue, other_event, Event, InFlight, Asking, belongs,
  refusal_belongs_to_ask, budget_accept, hear, wait_empty, react, accept,
  event_recognizer_loop_utterance,
}
use thalovant_go_sdk.Ask.Step.{Reply, Input, answered, ask_loop}
use thalovant_go_sdk.Ask.Endings.{ask_loop_keeps}

-- An event of the ask `own`: it carries the id, or it is a refusal of an utterance without one.
pub IsMine : String → Event → Type 0
IsMine own e =
    (e.request_id ≡ own)
    ⊎ ((e.name ≡ policy_denied)
        × (e.request_id ≡ "")
        × (e.denied_type ≡ event_recognizer_loop_utterance))

belongs-IsMine :
    (own : String) (f : InFlight) (e : Event) → belongs own f e e.name ≡ true → IsMine own e
unfolding belongs refusal_belongs_to_ask IsMine
belongs-IsMine own f e h = ground (
  arith,
  eq_iff e.request_id own,
  eq_iff e.request_id "",
  eq_iff e.denied_type event_recognizer_loop_utterance,
)

module _ (g : GoStrings) where
  pub react_events :
      (s : Asking) (now : ℕ) (e : Event) (n : EventName)
      → ((react g s now e n).0.events ≡ s.events)
        × ((react g s now e n).0.request_id ≡ s.request_id)
        × ((react g s now e n).0.budget ≡ s.budget)
  unfolding react hear wait_empty
  react_events s now e speak = ground arith
  react_events s now e utterance_speak = ground arith
  react_events s now e policy_denied = ground arith
  react_events s now e query_timeout = ground arith
  react_events s now e intent_unmatched = ground arith
  react_events s now e intent_failure = ground arith
  react_events s now e utterance_handled = ground arith
  react_events s now e audio_queue = ground arith
  react_events s now e other_event = ground arith

  -- What an accepted event does to the events: nothing, or it is added at the end.
  pub accept_events :
      (s : Asking) (now : ℕ) (f : InFlight) (e : Event)
      → ((accept g s now f e).0.request_id ≡ s.request_id)
        × (((accept g s now f e).0.events ≡ s.events)
            ⊎ (((accept g s now f e).0.events ≡ s.events ++ (e ∷ []))
                × (belongs s.request_id f e e.name ≡ true)))
  unfolding accept
  accept_events s now f e = elim (Bool-cases (belongs s.request_id f e e.name)) [
    | inr alien ↦ ground arith
    | inl own ↦ elim (Bool-cases (budget_accept s.budget e).1) [
      | inr dear ↦ ground arith
      | inl fits ↦ ground (
        arith,
        react_events
            (record s { budget = (budget_accept s.budget e).0; events = s.events ++ (e ∷ []) }) now
            e e.name,
      )
    ]
  ]

pub All-append-one :
    (P : Event → Type 0) (xs : List Event) (e : Event) → All P xs → P e → All P (xs ++ (e ∷ []))
All-append-one P [] e h p = (p, tt)
All-append-one P (x ∷ xs) e (q, h) p = (q, All-append-one P xs e h p)

pub record OnlyMine (own : String) (s : Asking) : Type 0 where
  pub asks : s.request_id ≡ own
  pub all_mine : All (IsMine own) s.events

module _ (g : GoStrings) where
  accept-OnlyMine :
      (own : String) (s : Asking) (now : ℕ) (f : InFlight) (e : Event)
      → OnlyMine own s
      → OnlyMine own (accept g s now f e).0
  accept-OnlyMine own s now f e h =
      let (i, events) = accept_events g s now f e in
      record { asks = i ∙ h.asks; all_mine = mine events }
    where
      mine :
          ((accept g s now f e).0.events ≡ s.events)
            ⊎ (((accept g s now f e).0.events ≡ s.events ++ (e ∷ []))
                × (belongs s.request_id f e e.name ≡ true))
          → All (IsMine own) (accept g s now f e).0.events
      mine (inl same) = subst (λ x. All (IsMine own) x) (sym same) h.all_mine
      mine (inr (added, b)) =
          let new = subst (λ o. IsMine o e) h.asks (belongs-IsMine s.request_id f e b) in
          subst (λ x. All (IsMine own) x) (sym added)
            (All-append-one (IsMine own) s.events e h.all_mine new)

  -- Every event of the reply to an ask that begins with no events carries the ask's request id, or
  -- is a refusal of an utterance that carries no request id.
  pub ask_loop-IsMine :
      (s : Asking) (is : List Input) (r : Reply)
      → s.events ≡ []
      → ask_loop g s is ≡ some (answered r)
      → All (IsMine s.request_id) r.events
  ask_loop-IsMine s is r e h =
      let (t, mine, reply) =
        ask_loop_keeps g (accept-OnlyMine s.request_id) s is r
          (record { asks = refl; all_mine = subst (λ x. All (IsMine s.request_id) x) (sym e) tt })
          h in
      subst (λ x. All (IsMine s.request_id) x) (sym reply.same_events) mine.all_mine

  -- A refusal without a request id ends the ask that meets it exactly when it refuses an utterance
  -- and the ask is the only utterance that the client has out.
  pub accept_denial :
      (s : Asking) (now : ℕ) (f : InFlight) (e : Event)
      → e.name ≡ policy_denied
      → e.request_id ≡ ""
      → ((accept g s now f e).1 ≡ true) ↔ (
          (e.denied_type ≡ event_recognizer_loop_utterance)
          × (f.asks ≡ 1)
          × (f.queries ≡ 0)
          × (f.sends ≡ 0))
  unfolding accept belongs refusal_belongs_to_ask budget_accept react
  accept_denial s now f e n i =
      ground (arith, eq_iff e.request_id "", eq_iff e.denied_type event_recognizer_loop_utterance)
