-- ===== src/Conversations/Filing.antt =====
-- client.go: a conversation filed under its keys, the part of `rememberConversation` under the lock.
use thalovant_go_sdk.Prelude.{
  ℕ, ◌+◌, ◌≤◌, ◌<◌, ◌^◌, true, some, String, List, ◌≡◌, ◌∙◌, sym, refl, inl, inr, length, take,
  length-take, arith,
}
use thalovant_go_sdk.Carry.{Session}
use thalovant_go_sdk.Conversations.{
  Ids, find, is_seen, distinct, Conversations, group_of, seq_of, next_seq, file_entry, evicted,
}
use thalovant_go_sdk.Conversations.Maps.{
  IsMap, is_seen-take, is_seen-take_append, find-put_all, put_all-IsMap,
}
use thalovant_go_sdk.Conversations.Groups.{Linked, filed, put_all-Linked}
use thalovant_go_sdk.Conversations.TakeOver.{Taken}
use thalovant_go_sdk.Conversations.Eviction.{Evicted, evict_lem}

-- The map of a client: every id of a conversation reaches it, no reference dangles, and no
-- conversation has more than 8 ids.
pub record IsKept {I N : Type 0} (c : Conversations I N) : Type 0 where
  pub linked : Linked (group_of c) c.conversations c.made
  pub is_map : IsMap c.conversations
  pub short : (r : ℕ) → length (group_of c r) ≤ 8

-- No conversation is newer than the count.
unfoldable pub IsAged : {I N : Type 0} → Conversations I N → Type 0
IsAged c = (k : String) (r : ℕ) → find c.conversations k ≡ some r → seq_of c r ≤ c.conversation_seq

module _ {I N : Type 0} where
  group-file_entry :
      (keys : List String) (kept : Session I N) (c : Conversations I N) (m : Ids) (r : ℕ)
      → r < c.made
      → group_of (file_entry keys kept c m) r ≡ group_of c r
  unfolding file_entry
  group-file_entry keys kept c m r h = ground arith

  group-file_entry_new :
      (keys : List String) (kept : Session I N) (c : Conversations I N) (m : Ids)
      → group_of (file_entry keys kept c m) c.made ≡ take 8 keys
  unfolding file_entry
  group-file_entry_new keys kept c m = ground arith

  file_entry-short :
      (keys : List String) (kept : Session I N) (c : Conversations I N) (m : Ids)
      → ((r : ℕ) → length (group_of c r) ≤ 8)
      → (r : ℕ) → length (group_of (file_entry keys kept c m) r) ≤ 8
  unfolding file_entry
  file_entry-short keys kept c m short r = ground (arith, short r, length-take 8 keys)

  file_entry-IsAged :
      (keys : List String) (kept : Session I N) (c : Conversations I N) (m : Ids)
      → c.conversation_seq + 1 < 2 ^ 64
      → Linked (group_of c) m c.made
      → ((k : String) (r : ℕ) → find m k ≡ some r → seq_of c r ≤ c.conversation_seq)
      → (k : String) (r : ℕ) → find (file_entry keys kept c m).conversations k ≡ some r
      → seq_of (file_entry keys kept c m) r ≤ c.conversation_seq + 1
  unfolding file_entry
  file_entry-IsAged keys kept c m h w aged k r e =
      elim (filed (is_seen (take 8 keys) k) (find m k) c.made r
        (sym (find-put_all m (take 8 keys) c.made k) ∙ e)) [
          | inl (_, same) ↦ ground arith
          | inr (_, was) ↦ ground (arith, aged k r was, w.below k r was)
        ]

  -- What a turn leaves that keeps `kept` under `keys`.
  pub record Filed (c : Conversations I N) (keys : List String) (kept : Session I N)
      (c' : Conversations I N) : Type 0 where
    pub intact : IsKept c'
    pub counted : c'.conversation_seq ≤ c.conversation_seq + 1
    pub few : length (distinct (seq_of c') c'.conversations) ≤ 32
    pub aged : c.conversation_seq + 1 < 2 ^ 64 → IsAged c → IsAged c'
    pub resumes :
        c.conversation_seq + 1 < 2 ^ 64
        → IsAged c
        → (k : String) → is_seen (take 8 keys) k ≡ true
        → (r : ℕ) × (find c'.conversations k ≡ some r) × ((c'.entries r).kept ≡ kept)

  kept-file_entry :
      (keys : List String) (kept : Session I N) (c : Conversations I N) (m : Ids)
      → ((file_entry keys kept c m).entries c.made).kept ≡ kept
  unfolding file_entry
  kept-file_entry keys kept c m = ground arith

  seq-file_entry :
      (keys : List String) (kept : Session I N) (c : Conversations I N) (m : Ids)
      → c.conversation_seq + 1 < 2 ^ 64
      → seq_of (file_entry keys kept c m) c.made ≡ c.conversation_seq + 1
  unfolding file_entry
  seq-file_entry keys kept c m h = ground arith

  count-file_entry :
      (keys : List String) (kept : Session I N) (c : Conversations I N) (m : Ids)
      → (file_entry keys kept c m).conversation_seq ≡ next_seq c
  unfolding file_entry
  count-file_entry keys kept c m = refl

  find-file_entry :
      (keys : List String) (kept : Session I N) (c : Conversations I N) (m : Ids) (k : String)
      → is_seen (take 8 keys) k ≡ true
      → find (file_entry keys kept c m).conversations k ≡ some c.made
  unfolding file_entry
  find-file_entry keys kept c m k h = rw (find-put_all m (take 8 keys) c.made k, h) refl

  module _ (c : Conversations I N) (keys all : List String) (m : Ids) (kept : Session I N)
      (t : Taken (group_of c) c.made c.conversations keys all m) (intact : IsKept c) where
    filed_entry : Conversations I N
    filed_entry = file_entry all kept c m

    filed_entry-Linked : Linked (group_of filed_entry) filed_entry.conversations (c.made + 1)
    unfolding filed_entry file_entry
    filed_entry-Linked =
        put_all-Linked t.linked (take 8 all) (λ k h. t.gone k (is_seen-take 8 all k h))
          (group-file_entry all kept c m) (group-file_entry_new all kept c m)

    filed_entry-IsMap : IsMap filed_entry.conversations
    unfolding filed_entry file_entry
    filed_entry-IsMap = put_all-IsMap m (take 8 all) c.made t.is_map

    listed-aged :
        c.conversation_seq + 1 < 2 ^ 64
        → IsAged c
        → (k : String) (r : ℕ) → find filed_entry.conversations k ≡ some r
        → seq_of filed_entry r ≤ c.conversation_seq + 1
    unfolding filed_entry IsAged
    listed-aged h a = file_entry-IsAged all kept c m h t.linked (λ k r e. a k r (t.was k r e))

    filed_lem :
        (m' : Ids)
        → Evicted
            (group_of filed_entry)
            (seq_of filed_entry)
            (c.made + 1)
            filed_entry.conversations
            m'
        → Filed c keys kept (record filed_entry { conversations = m'; made = c.made + 1 })
    unfolding filed_entry IsAged
    filed_lem m' v = record {
      intact = record {
        linked = v.linked;
        is_map = v.is_map;
        short = file_entry-short all kept c m intact.short;
      };
      counted = rw (count-file_entry all kept c m) (omega arith);
      few = v.few;
      aged = λ h a k r e.
          rw (count-file_entry all kept c m) (omega (arith, listed-aged h a k r (v.was k r e)));
      resumes = λ h a k e. (
        c.made,
        v.stays k c.made (find-file_entry all kept c m k (in_front k e))
            (λ j q f. rw (seq-file_entry all kept c m h) (listed-aged h a j q f)),
        kept-file_entry all kept c m,
      );
    }
      where
        in_front : (k : String) → is_seen (take 8 keys) k ≡ true → is_seen (take 8 all) k ≡ true
        in_front k e = rw t.extends (is_seen-take_append 8 keys t.more k e)

    pub evicted_lem :
        (c' : Conversations I N) × (evicted (file_entry all kept c m) ≡ some c')
        × Filed c keys kept c'
    unfolding evicted filed_entry file_entry
    evicted_lem =
        let (m', ends, v) =
          evict_lem (group_of filed_entry) (seq_of filed_entry) (c.made + 1)
            (length filed_entry.conversations + 1) filed_entry.conversations filed_entry-Linked
            filed_entry-IsMap (omega arith) in
        (record filed_entry { conversations = m' }, rw (evicted, ends) refl, filed_lem m' v)
