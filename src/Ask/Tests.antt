-- ===== src/Ask/Tests.antt =====
-- An ask at concrete events, and the theorems about asks applied to it.
use thalovant_go_sdk.Prelude.{
  ℕ, true, false, none, some, String, List, [], ◌∷◌, ◌≡◌, refl, All, arith,
}
use text.Mathlib.Text.{◌==◌ as str_eq}
use thalovant_go_sdk.Ask.{
  GoStrings, speak, policy_denied, Event, InFlight, Asking, budget_accept, belongs, append_fragment,
  hear, react, accept, no_fragments, event_recognizer_loop_utterance,
}
use thalovant_go_sdk.Ask.Step.{
  Reply, Input, answered, Seen, took, settled, arrived, first_session, finish_said, finish, drain,
  ask_round, ask_loop,
}
use thalovant_go_sdk.Ask.Endings.{rounds, ask_round-settled}
use thalovant_go_sdk.Ask.Correlation.{IsMine, ask_loop-IsMine}
use thalovant_go_sdk.Ask.Settlement.{squeeze, said, audio_chars, IsCollected, ask_loop-squeeze}

abbrev plain : GoStrings
plain = record { fields = λ t. t; join = λ ts. "joined"; is_blank = λ t. str_eq t "" }

abbrev idle : Asking
idle = record {
  request_id = "r1";
  ask_session_id = "s1";
  context_session_id = "s1";
  settle_wait = 250;
  empty_wait = 5000;
  events = [];
  fragments = [];
  budget = record { chars = 0; dropped = 0; seen = [] };
  hard_failure = none;
  soft_failure = none;
  empty_started = false;
  settle_started = false;
  settled_at = none;
  remembered = [];
}

abbrev spoken : String → String → Event
spoken id t = record {
  name = speak;
  request_id = id;
  session_id = "s2";
  text = t;
  denied_type = "";
  data_map = none;
  encoded = none;
}

abbrev denial : Event
denial = record {
  name = policy_denied;
  request_id = "";
  session_id = "";
  text = "";
  denied_type = event_recognizer_loop_utterance;
  data_map = none;
  encoded = none;
}

abbrev alone : InFlight
alone = record { asks = 1; queries = 0; sends = 0 }

abbrev seen_at : ℕ → Seen
seen_at n = record { now = n; ctx = none; sub = none; in_flight = alone }

abbrev heard : List Input
heard =
    arrived (seen_at 1) (spoken "r2" "not mine")
    ∷ arrived (seen_at 2) (spoken "r1" "hello")
    ∷ arrived (seen_at 3) (spoken "r1" "hello")
    ∷ settled (seen_at 252) (took (spoken "r1" "there") ∷ [])
    ∷ []

abbrev said_reply : Reply
said_reply = record {
  text = "joined";
  utterances = "hello" ∷ "there" ∷ [];
  handled = true;
  ok = true;
  session_id = "s2";
  request_id = "r1";
  events = spoken "r1" "hello" ∷ spoken "r1" "hello" ∷ spoken "r1" "there" ∷ [];
  dropped_media = 0;
  failure_event = none;
}

heard_reply : ask_loop plain idle heard ≡ some (answered said_reply)
unfolding ask_loop ask_round accept belongs budget_accept react hear append_fragment drain finish
    finish_said first_session
heard_reply = refl

idle-IsCollected : IsCollected plain idle
unfolding squeeze said audio_chars
idle-IsCollected = record { words = refl; counted = refl; capped = omega arith }

ask_loop-IsMine_example : All (IsMine "r1") said_reply.events
ask_loop-IsMine_example = ask_loop-IsMine plain idle heard said_reply refl heard_reply

ask_loop-squeeze_example :
    (said_reply.utterances ≡ squeeze (said plain said_reply.events))
    × (no_fragments said_reply.utterances ≡ false)
ask_loop-squeeze_example = ask_loop-squeeze plain idle heard said_reply idle-IsCollected heard_reply

ask_round-settled_example :
    (rounds plain
      (ask_round plain idle (arrived (seen_at 2) (spoken "r1" "hello"))).0
      heard).settled_at
    ≡ some 252
unfolding ask_round accept belongs budget_accept react hear append_fragment
ask_round-settled_example =
    ask_round-settled plain idle (seen_at 2) (spoken "r1" "hello") heard refl refl

abbrev talking : Asking
talking = record idle { settle_started = true; settled_at = some 250; fragments = "hello" ∷ [] }
