-- ===== src/Ask.antt =====
-- client.go, errors.go, events.go: `AskWithOptions`, one question and the collection of its reply.
--
-- An event is what its accessors return. The loop of an ask waits on four channels; an `Input` is
-- what one round of it took, with what the code reads at that moment: the clock, the utterances in
-- flight, the context, and the backlog of the event stream. Go's string functions are the parameter
-- `GoStrings`. Lists of events and fragments are in the source's order, the oldest first.
pub mod Step
pub mod Correlation
pub mod Settlement
pub mod Endings
mod Tests
use text.Mathlib.Text.{◌==◌ as str_eq}
use thalovant_go_sdk.Prelude.{
  ℕ, ◌+◌, ◌*◌, Bool, true, false, not, ◌&&◌, ◌||◌, Option, none, some, String, List, [], ◌∷◌, ◌++◌,
  ltb, ◌==◌, if◌then◌else◌,
}

-- `fields` is `strings.Join(strings.Fields(text), " ")`, `join` is `strings.Join(_, " ")`, and
-- `is_blank` tests that `strings.TrimSpace` leaves nothing.
pub record GoStrings : Type 0 where
  pub fields : String → String
  pub join : List String → String
  pub is_blank : String → Bool

pub data EventName : Type 0 where
  speak utterance_speak policy_denied query_timeout intent_unmatched intent_failure
        utterance_handled audio_queue other_event :
      EventName

-- `data_map` is the identity of the map of an audio event, `none` for a nil map; `encoded` is the
-- length of its binary_data, `none` when that is not a string.
pub record Event : Type 0 where
  pub name : EventName
  pub request_id : String
  pub session_id : String
  pub text : String
  pub denied_type : String
  pub data_map : Option ℕ
  pub encoded : Option ℕ

abbrev pub max_audio_clip_bytes : ℕ
max_audio_clip_bytes = 4 * 1024 * 1024

abbrev pub max_reply_media_bytes : ℕ
max_reply_media_bytes = 16 * 1024 * 1024

abbrev pub event_recognizer_loop_utterance : String
event_recognizer_loop_utterance = "recognizer_loop:utterance"

pub record MediaBudget : Type 0 where
  pub chars : ℕ
  pub dropped : ℕ
  pub seen : List ℕ

-- The utterances that the client has out.
pub record InFlight : Type 0 where
  pub asks : ℕ
  pub queries : ℕ
  pub sends : ℕ

abbrev pub has : List ℕ → ℕ → Bool
has [] k = false
has (x ∷ xs) k = x == k || has xs k

abbrev pub is_audio : EventName → Bool
is_audio audio_queue = true
is_audio _ = false

abbrev pub is_seen : List ℕ → Option ℕ → Bool
is_seen seen none = false
is_seen seen (some k) = has seen k

-- A nil map has a key too, which is never asked for.
abbrev pub mark_seen : List ℕ → Option ℕ → List ℕ
mark_seen seen none = seen
mark_seen seen (some k) = k ∷ seen

budget_drop : MediaBudget → MediaBudget × Bool
budget_drop b = (record b { dropped = b.dropped + 1 }, false)

budget_take : MediaBudget → Option ℕ → Option ℕ → MediaBudget × Bool
unfolding budget_drop
budget_take b data_map none = budget_drop b
budget_take b data_map (some n) =
    if ltb (max_audio_clip_bytes * 2) n || ltb (max_reply_media_bytes * 2) (b.chars + n)
    then budget_drop b
    else (record b { seen = mark_seen b.seen data_map; chars = b.chars + n }, true)

unfoldable pub budget_accept : MediaBudget → Event → MediaBudget × Bool
unfolding budget_take
budget_accept b e =
    if is_audio e.name
    then (if is_seen b.seen e.data_map then (b, false) else budget_take b e.data_map e.encoded)
    else (b, true)

unfoldable pub refusal_belongs_to_ask : String → String → String → InFlight → Bool
refusal_belongs_to_ask request_id own denied_type f =
    if not (str_eq request_id "")
    then str_eq request_id own
    else str_eq denied_type event_recognizer_loop_utterance
      && (f.asks == 1 && (f.queries == 0 && f.sends == 0))

-- The first test of `accept`.
unfoldable pub belongs : String → InFlight → Event → EventName → Bool
unfolding refusal_belongs_to_ask
belongs own f e policy_denied = refusal_belongs_to_ask e.request_id own e.denied_type f
belongs own f e _ = str_eq e.request_id own

-- `last` of the fragments, when there is one, is the normalised text.
abbrev pub repeats : List String → String → Bool
repeats [] t = false
repeats (x ∷ []) t = str_eq x t
repeats (x ∷ xs) t = repeats xs t

-- The locals of an ask. `settled_at` is when the timer fires; `remembered` holds the calls of
-- `rememberConversation`, their keys and their event, in order.
pub record Asking : Type 0 where
  pub request_id : String
  pub ask_session_id : String
  pub context_session_id : String
  pub settle_wait : ℕ
  pub empty_wait : ℕ
  pub events : List Event
  pub fragments : List String
  pub budget : MediaBudget
  pub hard_failure : Option Event
  pub soft_failure : Option Event
  pub empty_started : Bool
  pub settle_started : Bool
  pub settled_at : Option ℕ
  pub remembered : List (List String × Event)

abbrev pub no_fragments : List String → Bool
no_fragments [] = true
no_fragments (x ∷ xs) = false

module _ (g : GoStrings) where
  unfoldable pub append_fragment : List String → String → List String
  append_fragment fs text =
      if str_eq (g.fields text) "" || repeats fs (g.fields text)
      then fs
      else fs ++ (g.fields text ∷ [])

  -- The case of a spoken event.
  unfoldable pub hear : Asking → ℕ → String → Asking
  hear s now text =
      let t = record s { fragments = append_fragment s.fragments text } in
      if not s.settle_started && not (no_fragments t.fragments)
      then record t { settle_started = true; settled_at = some (now + s.settle_wait) }
      else t

  -- The wait for speech that may still come.
  unfoldable pub wait_empty : Asking → ℕ → Asking
  wait_empty s now =
      if not s.empty_started && not s.settle_started
      then record s { empty_started = true; settled_at = some (now + s.empty_wait) }
      else s

  unfoldable pub conversation_keys : Asking → Event → List String
  conversation_keys s e =
      if not (g.is_blank e.session_id) && not (str_eq e.session_id s.ask_session_id)
      then s.ask_session_id ∷ e.session_id ∷ []
      else s.ask_session_id ∷ []

  -- The switch on the event's name; true when the event ends the ask.
  unfoldable pub react : Asking → ℕ → Event → EventName → Asking × Bool
  react s now e speak = (hear s now e.text, false)
  react s now e utterance_speak = (hear s now e.text, false)
  react s now e policy_denied = (record s { hard_failure = some e }, true)
  react s now e query_timeout = (record s { hard_failure = some e }, true)
  react s now e intent_unmatched = (wait_empty (record s { soft_failure = some e }) now, false)
  react s now e intent_failure = (wait_empty (record s { soft_failure = some e }) now, false)
  react s now e utterance_handled = (
    wait_empty (record s { remembered = s.remembered ++ ((conversation_keys s e, e) ∷ []) }) now,
    false,
  )
  react s now e _ = (s, false)

  admit : Asking → ℕ → Event → MediaBudget × Bool → Asking × Bool
  admit s now e (b, false) = (record s { budget = b }, false)
  admit s now e (b, true) =
      react (record s { budget = b; events = s.events ++ (e ∷ []) }) now e e.name

  unfoldable pub accept : Asking → ℕ → InFlight → Event → Asking × Bool
  unfolding admit
  accept s now f e =
      if belongs s.request_id f e e.name
      then admit s now e (budget_accept s.budget e)
      else (s, false)
