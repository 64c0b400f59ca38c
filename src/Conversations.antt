-- ===== src/Conversations.antt =====
-- client.go: the conversations that a client remembers between turns (`rememberConversation`,
-- `evictOldestConversationsLocked`, `continueConversation`).
--
-- The map from session ids to entries is an association list of ids and references, and `entries`
-- the store that the references point into: the ids of one conversation share its entry. A reference
-- is a number below `made`. The order in which Go ranges over a map is the list's.
pub mod Maps
pub mod Groups
pub mod TakeOver
pub mod Eviction
pub mod Filing
pub mod Turns
pub mod History
mod Tests
use text.Mathlib.Text.{◌==◌ as str_eq}
use thalovant_go_sdk.Prelude.{
  ℕ, zero, suc, ◌+◌, ◌%◌, ◌^◌, Bool, true, false, not, ◌&&◌, ◌||◌, Option, none, some, String, List,
  [], ◌∷◌, ◌++◌, ltb, leb, ◌==◌, length, take, if◌then◌else◌,
}
use thalovant_go_sdk.Carry.{Session, conversation_session_fields, carry_conversation, kept_fields}

abbrev pub max_remembered_conversations : ℕ
max_remembered_conversations = 32

abbrev pub max_conversation_aliases : ℕ
max_conversation_aliases = 8

abbrev pub Ids : Type 0
Ids = List (String × ℕ)

unfoldable pub find : Ids → String → Option ℕ
find [] k = none
find ((j, r) ∷ m) k = if str_eq j k then some r else find m k

unfoldable pub erase : Ids → String → Ids
erase [] k = []
erase ((j, r) ∷ m) k = let rest = erase m k in if str_eq j k then rest else (j, r) ∷ rest

unfoldable pub erase_all : Ids → List String → Ids
erase_all m [] = m
erase_all m (k ∷ ks) = erase_all (erase m k) ks

unfoldable pub put_all : Ids → List String → ℕ → Ids
put_all m [] r = m
put_all m (k ∷ ks) r = put_all ((k, r) ∷ erase m k) ks r

-- `seen`: true of the keys met so far.
unfoldable pub is_seen : List String → String → Bool
is_seen [] k = false
is_seen (j ∷ ks) k = str_eq j k || is_seen ks k

-- `trim` is `strings.TrimSpace`.
unfoldable pub usable_keys : (trim : String → String) → List String → List String → List String
usable_keys trim keys [] = keys
usable_keys trim keys (id ∷ ids) =
    usable_keys trim
      (if str_eq (trim id) "" && not (str_eq id "") || is_seen keys id
        then keys
        else keys ++ id ∷ [])
      ids

unfoldable pub add_siblings : List String → List String → List String → List String
add_siblings done todo [] = todo
add_siblings done todo (s ∷ ss) =
    add_siblings done (if is_seen (done ++ todo) s then todo else todo ++ s ∷ []) ss

-- The loop over the keys, which grows them: `done` and `todo` are the keys before and from the
-- index on. The fuel bounds the conversations taken over.
unfoldable pub take_over :
    (group : ℕ → List String) → ℕ → List String → List String → Ids → Option (List String × Ids)
take_over group fuel done [] m = some (done, m)
take_over group zero done (k ∷ todo) m = elim (find m k) [
  | none ↦ take_over group zero (done ++ k ∷ []) todo m
  | some r ↦ none
]
take_over group (suc fuel) done (k ∷ todo) m = elim (find m k) [
  | none ↦ take_over group (suc fuel) (done ++ k ∷ []) todo m
  | some r ↦
      take_over group fuel (done ++ k ∷ []) (add_siblings (done ++ k ∷ []) todo (group r))
        (erase (erase_all m (group r)) k)
]

unfoldable pub has_seq : (seq : ℕ → ℕ) → List ℕ → ℕ → Bool
has_seq seq [] n = false
has_seq seq (r ∷ rs) n = seq r == n || has_seq seq rs n

-- The entries of the map, one for each `seq`.
unfoldable pub distinct : (seq : ℕ → ℕ) → Ids → List ℕ
distinct seq [] = []
distinct seq ((k, r) ∷ m) =
    let rest = distinct seq m in if has_seq seq rest (seq r) then rest else r ∷ rest

unfoldable pub oldest_from : (seq : ℕ → ℕ) → ℕ → List ℕ → ℕ
oldest_from seq o [] = o
oldest_from seq o (r ∷ rs) = oldest_from seq (if ltb (seq r) (seq o) then r else o) rs

-- Each round of the fuel drops one conversation.
unfoldable pub evict_oldest_conversations :
    (group : ℕ → List String) → (seq : ℕ → ℕ) → ℕ → Ids → Option Ids
evict_oldest_conversations group seq zero m = none
evict_oldest_conversations group seq (suc fuel) m =
    elim (leb (length (distinct seq m)) max_remembered_conversations) [
      | true ↦ some m
      | false ↦ elim (distinct seq m) [
        | [] ↦ none
        | r ∷ rs ↦
            evict_oldest_conversations group seq fuel (erase_all m (group (oldest_from seq r rs)))
      ]
    ]

module _ (I N : Type 0) where
  pub record ConversationEntry : Type 0 where
    pub group : List String
    pub kept : Session I N
    pub seq : ℕ

  pub record Conversations : Type 0 where
    pub conversations : Ids
    pub entries : ℕ → ConversationEntry
    pub made : ℕ
    pub conversation_seq : ℕ

module _ {I N : Type 0} where
  abbrev pub group_of : Conversations I N → ℕ → List String
  group_of c r = (c.entries r).group

  abbrev pub seq_of : Conversations I N → ℕ → ℕ
  seq_of c r = (c.entries r).seq

  abbrev pub set_entry :
      (ℕ → ConversationEntry I N) → ℕ → ConversationEntry I N → ℕ → ConversationEntry I N
  set_entry entries n e i = if i == n then e else entries i

  -- `c.conversationSeq++` of a uint64.
  abbrev pub next_seq : Conversations I N → ℕ
  next_seq c = (c.conversation_seq + 1) % 2 ^ 64

  -- A new entry under the keys.
  unfoldable pub file_entry :
      List String → Session I N → Conversations I N → Ids → Conversations I N
  file_entry keys kept c m =
      let aliases = take max_conversation_aliases keys in
      let entry : ConversationEntry I N = record {
        group = aliases;
        kept = kept;
        seq = next_seq c;
      } in
      record {
        conversations = put_all m aliases c.made;
        entries = set_entry c.entries c.made entry;
        made = c.made + 1;
        conversation_seq = next_seq c;
      }

  unfoldable pub evicted : Conversations I N → Option (Conversations I N)
  evicted c =
      elim (evict_oldest_conversations (group_of c) (seq_of c) (length c.conversations + 1)
        c.conversations) [ none ↦ none | some m ↦ some (record c { conversations = m }) ]

  -- The part under the lock, with what the loop over the keys left.
  unfoldable pub file_kept :
      Session I N → Conversations I N → List String → Ids → Option (Conversations I N)
  file_kept [] c keys m = some (record c { conversations = erase_all m keys })
  file_kept (x ∷ kept) c keys m = evicted (file_entry keys (x ∷ kept) c m)

  unfoldable pub remember_keys :
      Session I N → Conversations I N → List String → Option (Conversations I N)
  remember_keys kept c [] = some c
  remember_keys kept c (k ∷ keys) =
      elim (take_over (group_of c) (length c.conversations) [] (k ∷ keys) c.conversations) [
        | none ↦ none
        | some (all, m) ↦ file_kept kept c all m
      ]

  -- `none` stands for a loop that does not end. `session` is that of the turn's event.
  unfoldable pub remember_conversation :
      (N → Bool)
      → (String → String)
      → List String
      → Session I N
      → Conversations I N
      → Option (Conversations I N)
  remember_conversation is_zero trim ids session c =
      remember_keys (kept_fields is_zero session conversation_session_fields) c
        (usable_keys trim [] ids)

  abbrev pub touched : ℕ → Conversations I N → Conversations I N
  touched r c = record c {
    entries = set_entry c.entries r (record (c.entries r) { seq = next_seq c });
    conversation_seq = next_seq c;
  }

  -- The client, and the session of the next turn.
  unfoldable pub continue_conversation :
      (N → Bool) → String → Session I N → Conversations I N → Conversations I N × Session I N
  continue_conversation is_zero id session c = elim (find c.conversations id) [
    | none ↦ (c, session)
    | some r ↦ (touched r c, carry_conversation is_zero (some ((c.entries r).kept)) session)
  ]
