-- ===== src/Ask/Settlement.antt =====
-- client.go and events.go: what a reply says, as a function of the events that it carries.
use text.Mathlib.Text.{◌==◌ as str_eq}
use text.Mathlib.TextEquality.{eq_iff}
use mathlib.Core.Path.{subst}
use mathlib.Core.List.{append-nil}
use thalovant_go_sdk.Prelude.{
  ℕ, ◌+◌, ◌*◌, ◌≤◌, Bool, true, false, not, ◌&&◌, Option, some, String, List, [], ◌∷◌, ◌++◌, ◌≡◌,
  refl, sym, ap, ◌∙◌, if◌then◌else◌, Bool-cases, inl, inr, arith,
}
use thalovant_go_sdk.Ask.{
  GoStrings, EventName, speak, utterance_speak, policy_denied, query_timeout, intent_unmatched,
  intent_failure, utterance_handled, audio_queue, other_event, Event, InFlight, MediaBudget, Asking,
  max_reply_media_bytes, repeats, belongs, budget_accept, append_fragment, hear, wait_empty, react,
  accept, no_fragments,
}
use thalovant_go_sdk.Ask.Step.{Reply, Input, answered, ask_loop}
use thalovant_go_sdk.Ask.Endings.{IsReplyOf, ask_loop_keeps}
use thalovant_go_sdk.Ask.Correlation.{react_events}

-- A list without the items that the next one repeats.
unfoldable pub squeeze : List String → List String
squeeze [] = []
squeeze (x ∷ []) = x ∷ []
squeeze (x ∷ y ∷ ys) = let rest = squeeze (y ∷ ys) in if str_eq x y then rest else x ∷ rest

squeeze_cons :
    (x : String) (xs : List String)
    → (z : String) × (zs : List String) × (squeeze (x ∷ xs) ≡ z ∷ zs)
unfolding squeeze
squeeze_cons x [] = (x, [], refl)
squeeze_cons x (y ∷ ys) = elim (Bool-cases (str_eq x y)) [
  | inl e ↦ let (z, zs, q) = squeeze_cons y ys in (z, zs, rw e q)
  | inr e ↦ (x, squeeze (y ∷ ys), rw e refl)
]

-- One more text: dropped when it repeats the last one kept.
squeeze-append :
    (xs : List String) (t : String)
    → squeeze (xs ++ (t ∷ []))
      ≡ (if repeats (squeeze xs) t then squeeze xs else squeeze xs ++ (t ∷ []))
unfolding squeeze
squeeze-append [] t = refl
squeeze-append (x ∷ []) t = ground (arith, eq_iff x t)
squeeze-append (x ∷ y ∷ ys) t =
    let (z, zs, q) = squeeze_cons y ys in ground (arith, q, squeeze-append (y ∷ ys) t)

abbrev pub is_spoken : EventName → Bool
is_spoken speak = true
is_spoken utterance_speak = true
is_spoken _ = false

-- The characters of the audio events.
abbrev pub audio_chars_of : EventName → Option ℕ → ℕ
audio_chars_of audio_queue (some n) = n
audio_chars_of _ _ = 0

unfoldable pub audio_chars : List Event → ℕ
audio_chars [] = 0
audio_chars (e ∷ es) = audio_chars_of e.name e.encoded + audio_chars es

audio_chars-append :
    (es : List Event) (e : Event)
    → audio_chars (es ++ (e ∷ [])) ≡ audio_chars es + audio_chars_of e.name e.encoded
unfolding audio_chars
audio_chars-append [] e = omega arith
audio_chars-append (x ∷ es) e = omega (arith, audio_chars-append es e)

-- What the media budget takes is what it counts, and the count stays within the cap.
budget_accept_counts :
    (b : MediaBudget) (e : Event)
    → (budget_accept b e).1 ≡ true
    → ((budget_accept b e).0.chars ≡ b.chars + audio_chars_of e.name e.encoded)
      × (b.chars ≤ max_reply_media_bytes * 2
          → (budget_accept b e).0.chars ≤ max_reply_media_bytes * 2)
unfolding budget_accept
budget_accept_counts b e h = ground arith

budget_accept_drops :
    (b : MediaBudget) (e : Event)
    → (budget_accept b e).1 ≡ false
    → (budget_accept b e).0.chars ≡ b.chars
unfolding budget_accept
budget_accept_drops b e h = ground arith

module _ (g : GoStrings) where
  abbrev pub said_by : EventName → String → List String
  said_by n t = if is_spoken n && not (str_eq (g.fields t) "") then g.fields t ∷ [] else []

  -- The texts that the events speak, normalised, without the blank ones.
  unfoldable pub said : List Event → List String
  said [] = []
  said (e ∷ es) = said_by e.name e.text ++ said es

  said-append :
      (es : List Event) (e : Event) → said (es ++ (e ∷ [])) ≡ said es ++ said_by e.name e.text
  unfolding said
  said-append [] e = ground arith
  said-append (x ∷ es) e = ground (arith, said-append es e)

  react_fragments :
      (s : Asking) (now : ℕ) (e : Event) (n : EventName)
      → (react g s now e n).0.fragments
        ≡ (if is_spoken n then append_fragment g s.fragments e.text else s.fragments)
  unfolding react hear wait_empty
  react_fragments s now e speak = ground arith
  react_fragments s now e utterance_speak = ground arith
  react_fragments s now e policy_denied = ground arith
  react_fragments s now e query_timeout = ground arith
  react_fragments s now e intent_unmatched = ground arith
  react_fragments s now e intent_failure = ground arith
  react_fragments s now e utterance_handled = ground arith
  react_fragments s now e audio_queue = ground arith
  react_fragments s now e other_event = ground arith

  -- A state whose fragments and whose count are what its events say.
  pub record IsCollected (s : Asking) : Type 0 where
    pub words : s.fragments ≡ squeeze (said s.events)
    pub counted : s.budget.chars ≡ audio_chars s.events
    pub capped : s.budget.chars ≤ max_reply_media_bytes * 2

  append_fragment-squeeze :
      (es : List Event) (e : Event)
      → (if is_spoken e.name
          then append_fragment g (squeeze (said es)) e.text
          else squeeze (said es))
        ≡ squeeze (said (es ++ (e ∷ [])))
  unfolding append_fragment
  append_fragment-squeeze es e =
      rw (said-append es e)
        (ground (arith, squeeze-append (said es) (g.fields e.text), append-nil (said es)))

  accept-IsCollected :
      (s : Asking) (now : ℕ) (f : InFlight) (e : Event)
      → IsCollected s
      → IsCollected (accept g s now f e).0
  unfolding accept
  accept-IsCollected s now f e h = elim (Bool-cases (belongs s.request_id f e e.name)) [
    | inr alien ↦ rw alien h
    | inl own ↦ elim (Bool-cases (budget_accept s.budget e).1) [
      | inr dear ↦ let chars = budget_accept_drops s.budget e dear in ground arith
      | inl fits ↦
          let (count, cap) = budget_accept_counts s.budget e fits in
          let t = record s {
            budget = (budget_accept s.budget e).0;
            events = s.events ++ (e ∷ []);
          } in
          let (same_events, i, same_budget) = react_events g t now e e.name in
          let fs = react_fragments t now e e.name in
          let words = append_fragment-squeeze s.events e in
          let chars = audio_chars-append s.events e in ground arith
    ]
  ]

  reply-IsCollected :
      (s : Asking) (is : List Input) (r : Reply)
      → IsCollected s
      → ask_loop g s is ≡ some (answered r)
      → (t : Asking) × IsCollected t × IsReplyOf r t
  reply-IsCollected s is r h = ask_loop_keeps g accept-IsCollected s is r h

  -- The reply to an ask that begins with nothing collected says the texts that its events speak,
  -- normalised, without blank ones and without a text that the next one repeats; and it says one.
  pub ask_loop-squeeze :
      (s : Asking) (is : List Input) (r : Reply)
      → IsCollected s
      → ask_loop g s is ≡ some (answered r)
      → (r.utterances ≡ squeeze (said r.events)) × (no_fragments r.utterances ≡ false)
  ask_loop-squeeze s is r h e =
      let (t, c, q) = reply-IsCollected s is r h e in
      (
        q.same_words ∙ c.words ∙ ap (λ es. squeeze (said es)) (sym q.same_events),
        ap no_fragments q.same_words ∙ q.said,
      )

  -- The audio of the reply to an ask that begins with nothing collected has at most twice
  -- MaxReplyMediaBytes hex digits.
  pub ask_loop_media :
      (s : Asking) (is : List Input) (r : Reply)
      → IsCollected s
      → ask_loop g s is ≡ some (answered r)
      → audio_chars r.events ≤ max_reply_media_bytes * 2
  ask_loop_media s is r h e =
      let (t, c, q) = reply-IsCollected s is r h e in
      subst (λ n. n ≤ max_reply_media_bytes * 2) (c.counted ∙ ap audio_chars (sym q.same_events))
        c.capped
