-- ===== src/Conversations/Turns.antt =====
-- client.go: `rememberConversation` and `continueConversation` over a client's turns.
use thalovant_go_sdk.Prelude.{
  ℕ, ◌+◌, ◌≤◌, ◌<◌, ◌^◌, true, none, some, String, List, [], ◌∷◌, ◌++◌, ◌≡◌, ◌∙◌, sym, refl,
  Bool-cases, ◌≢◌, inl, inr, length, arith,
}
use thalovant_go_sdk.Carry.{Value, Session}
use thalovant_go_sdk.Conversations.{
  Ids, find, erase_all, is_seen, take_over, Conversations, group_of, file_kept, remember_keys,
  touched,
}
use thalovant_go_sdk.Conversations.Maps.{is_seen-append, find-erase_all, erase_all-IsMap}
use thalovant_go_sdk.Conversations.Groups.{Linked-cong}
use thalovant_go_sdk.Conversations.TakeOver.{Taken, take_over_lem}
use thalovant_go_sdk.Conversations.Filing.{IsKept, IsAged, Filed, evicted_lem}

module _ {I N : Type 0} where
  -- What a turn leaves that keeps nothing.
  pub record Forgotten (c : Conversations I N) (keys : List String) (c' : Conversations I N)
      : Type 0 where
    pub intact : IsKept c'
    pub same_count : c'.conversation_seq ≡ c.conversation_seq
    pub aged : IsAged c → IsAged c'
    pub groups : (r : ℕ) → group_of c' r ≡ group_of c r
    pub gone : (k : String) → is_seen keys k ≡ true → find c'.conversations k ≡ none
    pub was :
        (k : String) (r : ℕ) → find c'.conversations k ≡ some r → find c.conversations k ≡ some r

  forgotten_lem :
      (c : Conversations I N) (keys all : List String) (m : Ids)
      → Taken (group_of c) c.made c.conversations keys all m
      → IsKept c
      → Forgotten c keys (record c { conversations = erase_all m all })
  unfolding IsAged
  forgotten_lem c keys all m t h = record {
    intact = record {
      linked = Linked-cong (λ r. refl) same t.linked;
      is_map = erase_all-IsMap m all t.is_map;
      short = h.short;
    };
    same_count = refl;
    aged = λ a k r e. a k r (t.was k r (sym (same k) ∙ e));
    groups = λ r. refl;
    gone = λ k e. same k ∙ t.gone k (rw t.extends (in_front k e));
    was = λ k r e. t.was k r (sym (same k) ∙ e);
  }
    where
      in_front : (k : String) → is_seen keys k ≡ true → is_seen (keys ++ t.more) k ≡ true
      in_front k e = rw (is_seen-append keys t.more k, e) refl

      same : (k : String) → find (erase_all m all) k ≡ find m k
      same k = elim (Bool-cases (is_seen all k)) [
        | inl seen ↦ rw (find-erase_all m all k, seen) (sym (t.gone k seen))
        | inr new ↦ rw (find-erase_all m all k, new) refl
      ]

  taken_keys :
      (c : Conversations I N) (keys : List String)
      → IsKept c
      → (all : List String) × (m : Ids) × (take_over
            (group_of c)
            (length c.conversations)
            []
            keys
            c.conversations
          ≡ some (all, m))
        × Taken (group_of c) c.made c.conversations keys all m
  unfolding is_seen
  taken_keys c keys h =
      take_over_lem (group_of c) c.made (length c.conversations) [] keys c.conversations h.linked
        h.is_map (λ k e. absurd (none_seen k e)) (omega arith)
    where
      none_seen : (k : String) → is_seen [] k ≢ true
      none_seen k e = cc

  pub remember_keys-Filed :
      (c : Conversations I N) (k : String) (keys : List String) (x : String × Value I N)
      (kept : Session I N)
      → IsKept c
      → (c' : Conversations I N) × (remember_keys (x ∷ kept) c (k ∷ keys) ≡ some c')
        × Filed c (k ∷ keys) (x ∷ kept) c'
  unfolding remember_keys file_kept
  remember_keys-Filed c k keys x kept h =
      let (all, m, ends, t) = taken_keys c (k ∷ keys) h in
      let (c', files, f) = evicted_lem c (k ∷ keys) all m (x ∷ kept) t h in
      (c', rw (remember_keys, ends) files, f)

  pub remember_keys-Forgotten :
      (c : Conversations I N) (k : String) (keys : List String)
      → IsKept c
      → (c' : Conversations I N) × (remember_keys [] c (k ∷ keys) ≡ some c')
        × Forgotten c (k ∷ keys) c'
  unfolding remember_keys file_kept
  remember_keys-Forgotten c k keys h =
      let (all, m, ends, t) = taken_keys c (k ∷ keys) h in
      (
        record c { conversations = erase_all m all },
        rw (remember_keys, ends) refl,
        forgotten_lem c (k ∷ keys) all m t h,
      )

  -- What every turn keeps.
  pub record Sound (c c' : Conversations I N) : Type 0 where
    pub intact : IsKept c'
    pub counted : c'.conversation_seq ≤ c.conversation_seq + 1
    pub aged : c.conversation_seq + 1 < 2 ^ 64 → IsAged c → IsAged c'

  pub remember_keys-Sound :
      (kept : Session I N) (c : Conversations I N) (keys : List String)
      → IsKept c
      → (c' : Conversations I N) × (remember_keys kept c keys ≡ some c') × Sound c c'
  unfolding remember_keys
  remember_keys-Sound kept c [] h =
      (c, refl, record { intact = h; counted = omega arith; aged = λ b a. a })
  remember_keys-Sound [] c (k ∷ keys) h =
      let (c', ends, f) = remember_keys-Forgotten c k keys h in
      (
        c',
        ends,
        record { intact = f.intact; counted = omega (arith, f.same_count); aged = λ b a. f.aged a },
      )
  remember_keys-Sound (x ∷ kept) c (k ∷ keys) h =
      let (c', ends, f) = remember_keys-Filed c k keys x kept h in
      (c', ends, record { intact = f.intact; counted = f.counted; aged = f.aged })

  pub touched-Sound : (r : ℕ) (c : Conversations I N) → IsKept c → Sound c (touched r c)
  unfolding IsAged
  touched-Sound r c h = record {
    intact = record {
      linked = Linked-cong (λ q. ground arith) (λ k. refl) h.linked;
      is_map = h.is_map;
      short = λ q. ground (arith, h.short q, h.short r);
    };
    counted = omega arith;
    aged = λ b a k q e. ground (arith, a k q e);
  }
