-- ===== src/Conversations/Tests.antt =====
-- client.go: runs of the conversations that a client remembers, and the theorems at inputs.
use thalovant_go_sdk.Prelude.{
  ℕ, Bool, String, some, List, [], ◌∷◌, ◌≡◌, ◌≤◌, refl, length, ◌==◌, arith,
}
use thalovant_go_sdk.Carry.{Session, flag, lookup, carried_value, kept_fields, carry_conversation}
use thalovant_go_sdk.Conversations.{
  Conversations, ConversationEntry, find, erase, erase_all, put_all, is_seen, usable_keys,
  add_siblings, take_over, has_seq, distinct, oldest_from, evict_oldest_conversations, seq_of,
  set_entry, file_entry, file_kept, evicted, remember_keys, remember_conversation,
  continue_conversation,
}
use thalovant_go_sdk.Conversations.Filing.{IsKept}
use thalovant_go_sdk.Conversations.History.{
  TurnPart, ends, starts, turn_part, run, no_conversations, run_returns, turn_resumes, turn_forgets,
}

abbrev zero? : ℕ → Bool
zero? n = n == 0

abbrev same : String → String
same s = s

abbrev busy : Session ℕ ℕ
busy = ("response_mode", flag Bool.true) ∷ []

-- A hub that answers `a` as `b`, then `b` as `c`.
abbrev translated : List (TurnPart ℕ ℕ)
translated = ends ("a" ∷ "b" ∷ []) busy ∷ starts "b" [] ∷ ends ("b" ∷ "c" ∷ []) busy ∷ []

abbrev entry : List String → ℕ → ConversationEntry ℕ ℕ
entry group seq = record { group = group; kept = busy; seq = seq }

abbrev after_turns : Conversations ℕ ℕ
after_turns = record {
  conversations = ("a", 1) ∷ ("c", 1) ∷ ("b", 1) ∷ [];
  entries =
      set_entry
        (set_entry (set_entry (no_conversations.entries) 0 (entry ("a" ∷ "b" ∷ []) 1)) 0
          (entry ("a" ∷ "b" ∷ []) 2))
        1 (entry ("b" ∷ "c" ∷ "a" ∷ []) 3);
  made = 2;
  conversation_seq = 3;
}

-- The translated ids are kept for one conversation.
translated_to_after : run zero? same translated no_conversations ≡ some after_turns
unfolding run turn_part remember_conversation remember_keys usable_keys is_seen take_over find
    file_kept kept_fields lookup carried_value evicted evict_oldest_conversations file_entry put_all
    erase distinct has_seq add_siblings continue_conversation erase_all oldest_from
translated_to_after = refl

run_returns_example :
    (c : Conversations ℕ ℕ) × (run zero? same translated no_conversations ≡ some c) × IsKept c
run_returns_example = run_returns zero? same translated

turn_resumes_example :
    (c' : Conversations ℕ ℕ) × (turn_part zero? same (ends ("c" ∷ "d" ∷ []) busy) after_turns
      ≡ some c')
    × (length (distinct (seq_of c') c'.conversations) ≤ 32)
    × (lookup ((continue_conversation zero? "d" [] c').1) "response_mode"
        ≡ lookup (carry_conversation zero? (some busy) []) "response_mode")
unfolding kept_fields lookup carried_value usable_keys is_seen
turn_resumes_example =
    turn_resumes zero? same translated after_turns translated_to_after (omega arith)
      ("c" ∷ "d" ∷ []) busy (λ e. cc) "d" refl [] "response_mode"

turn_forgets_example :
    (c' : Conversations ℕ ℕ) × (turn_part zero? same (ends ("c" ∷ []) []) after_turns ≡ some c')
    × ((continue_conversation zero? "a" busy c').1 ≡ busy)
unfolding kept_fields lookup usable_keys is_seen find
turn_forgets_example =
    turn_forgets zero? same translated after_turns translated_to_after ("c" ∷ []) [] refl "c" refl
      "a" refl busy
