-- ===== src/Conversations/History.antt =====
-- client.go: what a client remembers after any history of turns.
use mathlib.Core.Path.{subst}
use thalovant_go_sdk.Prelude.{
  ℕ, ◌+◌, ◌≤◌, ◌<◌, ◌^◌, true, none, some, String, List, [], ◌∷◌, ◌≡◌, ◌∙◌, sym, ap, refl, Bool,
  Option, Option-cases, ◌≢◌, inl, inr, length, take, arith,
}
use thalovant_go_sdk.Carry.{
  Session, conversation_session_fields, lookup, kept_fields, carry_conversation,
}
use thalovant_go_sdk.Carry.Fields.{carry_conversation-kept_fields}
use thalovant_go_sdk.Conversations.{
  find, is_seen, distinct, Conversations, group_of, seq_of, touched, remember_keys, usable_keys,
  remember_conversation, continue_conversation,
}
use thalovant_go_sdk.Conversations.Filing.{IsKept, IsAged, Filed}
use thalovant_go_sdk.Conversations.Turns.{
  Forgotten, remember_keys-Filed, remember_keys-Forgotten, Sound, remember_keys-Sound,
  touched-Sound,
}

module _ (I N : Type 0) where
  -- The end of a turn, with its ids and the session of its event, and the start of one.
  pub data TurnPart : Type 0 where
    ends : List String → Session I N → TurnPart
    starts : String → Session I N → TurnPart

some_same : {A : Type 0} (x y : A) → some x ≡ some y → x ≡ y
some_same x y h = cc

module _ {I N : Type 0} where
  -- An alias of a conversation that was forgotten reaches none.
  unreached :
      (c c' : Conversations I N) (keys : List String)
      → IsKept c
      → Forgotten c keys c'
      → (id : String) → is_seen keys id ≡ true
      → (j : String) → find c.conversations j ≡ find c.conversations id
      → find c'.conversations j ≡ none
  unreached c c' keys kept h id e j alias = elim (Option-cases (find c'.conversations j)) [
    | inl gone ↦ gone
    | inr (r, at) ↦
        let was : find c.conversations id ≡ some r = sym alias ∙ h.was j r at in
        let named : is_seen (group_of c' r) id ≡ true =
          rw (h.groups r) (kept.linked.named id r was) in
        absurd (cc (h.gone id e, h.intact.linked.shared j r id at named))
  ]

abbrev pub no_conversations : {I N : Type 0} → Conversations I N
no_conversations = record {
  conversations = [];
  entries = λ r. record { group = []; kept = []; seq = 0 };
  made = 0;
  conversation_seq = 0;
}

no_conversations-IsKept : {I N : Type 0} → IsKept (no_conversations {I = I} {N = N})
unfolding find
no_conversations-IsKept = record {
  linked = record { named = λ k r h. cc; shared = λ k r j h e. cc; below = λ k r h. cc };
  is_map = tt;
  short = λ r. omega arith;
}

no_conversations-IsAged : (I N : Type 0) → IsAged (no_conversations {I = I} {N = N})
unfolding find IsAged
no_conversations-IsAged I N = λ k r h. omega arith

module _ {I N : Type 0} (is_zero : N → Bool) (trim : String → String) where
  unfoldable pub turn_part : TurnPart I N → Conversations I N → Option (Conversations I N)
  turn_part (ends ids session) c = remember_conversation is_zero trim ids session c
  turn_part (starts id session) c = some ((continue_conversation is_zero id session c).0)

  unfoldable pub run : List (TurnPart I N) → Conversations I N → Option (Conversations I N)
  run [] c = some c
  run (t ∷ ts) c = elim (turn_part t c) [ none ↦ none | some c' ↦ run ts c' ]

  turn_part-Sound :
      (t : TurnPart I N) (c : Conversations I N)
      → IsKept c
      → (c' : Conversations I N) × (turn_part t c ≡ some c') × Sound c c'
  unfolding turn_part remember_conversation continue_conversation
  turn_part-Sound (ends ids session) c h =
      remember_keys-Sound (kept_fields is_zero session conversation_session_fields) c
        (usable_keys trim [] ids) h
  turn_part-Sound (starts id session) c h = elim (Option-cases (find c.conversations id)) [
    | inl e ↦ (
      c,
      rw (continue_conversation, e) refl,
      record { intact = h; counted = omega arith; aged = λ b a. a },
    )
    | inr (r, e) ↦ (touched r c, rw (continue_conversation, e) refl, touched-Sound r c h)
  ]

  record Reached (n : ℕ) (c c' : Conversations I N) : Type 0 where
    pub intact : IsKept c'
    pub counted : c'.conversation_seq ≤ c.conversation_seq + n
    pub aged : c.conversation_seq + n < 2 ^ 64 → IsAged c → IsAged c'

  run-Reached :
      (ts : List (TurnPart I N)) (c : Conversations I N)
      → IsKept c
      → (c' : Conversations I N) × (run ts c ≡ some c') × Reached (length ts) c c'
  unfolding run
  run-Reached [] c h = (c, refl, record { intact = h; counted = omega arith; aged = λ b a. a })
  run-Reached (t ∷ ts) c h =
      let (c1, steps, s) = turn_part-Sound t c h in
      let (c2, runs, r) = run-Reached ts c1 s.intact in
      (
        c2,
        rw (run, steps) runs,
        record {
          intact = r.intact;
          counted = omega (arith, r.counted, s.counted);
          aged = λ b a. r.aged (omega (arith, s.counted)) (s.aged (omega arith) a);
        },
      )

  -- Whatever turns a new client has, the loops that remember and evict end, and its map stays
  -- whole: every id of a conversation reaches it, no id stands twice, and no conversation has more
  -- than 8.
  pub run_returns :
      (ts : List (TurnPart I N))
      → (c : Conversations I N) × (run ts no_conversations ≡ some c) × IsKept c
  run_returns ts =
      let (c, runs, r) = run-Reached ts no_conversations no_conversations-IsKept in
      (c, runs, r.intact)

  at_start :
      (ts : List (TurnPart I N)) (c : Conversations I N)
      → run ts no_conversations ≡ some c
      → Reached (length ts) no_conversations c
  at_start ts c runs =
      let (c1, runs1, r) = run-Reached ts no_conversations no_conversations-IsKept in
      subst (Reached (length ts) no_conversations) (some_same c1 c (sym runs1 ∙ runs)) r

  continued :
      (id : String) (r : ℕ) (next : Session I N) (c : Conversations I N)
      → find c.conversations id ≡ some r
      → (continue_conversation is_zero id next c).1
        ≡ carry_conversation is_zero (some ((c.entries r).kept)) next
  unfolding continue_conversation
  continued id r next c e = rw (continue_conversation, e) refl

  not_continued :
      (id : String) (next : Session I N) (c : Conversations I N)
      → find c.conversations id ≡ none
      → (continue_conversation is_zero id next c).1 ≡ next
  unfolding continue_conversation
  not_continued id next c e = rw (continue_conversation, e) refl

  end_keeping :
      (c : Conversations I N) (keys : List String) (kept : Session I N) (id : String)
      → IsKept c
      → kept ≢ []
      → is_seen (take 8 keys) id ≡ true
      → (c' : Conversations I N) × (remember_keys kept c keys ≡ some c') × Filed c keys kept c'
  unfolding is_seen
  end_keeping c [] kept id h some_kept e = cc
  end_keeping c (k ∷ keys) [] id h some_kept e = absurd (some_kept refl)
  end_keeping c (k ∷ keys) (x ∷ kept) id h some_kept e = remember_keys-Filed c k keys x kept h

  -- After fewer than 2^64 - 1 turns of a new client, a turn that ends with something to keep leaves
  -- at most 32 conversations; and each of its first eight usable ids carries the session of the
  -- turn's event into the next turn's.
  pub turn_resumes :
      (ts : List (TurnPart I N)) (c : Conversations I N)
      → run ts no_conversations ≡ some c
      → length ts + 1 < 2 ^ 64
      → (ids : List String) (session : Session I N)
      → kept_fields is_zero session conversation_session_fields ≢ []
      → (id : String) → is_seen (take 8 (usable_keys trim [] ids)) id ≡ true
      → (next : Session I N) (f : String)
      → (c' : Conversations I N) × (turn_part (ends ids session) c ≡ some c')
        × (length (distinct (seq_of c') c'.conversations) ≤ 32)
        × (lookup ((continue_conversation is_zero id next c').1) f
            ≡ lookup (carry_conversation is_zero (some session) next) f)
  unfolding turn_part remember_conversation
  turn_resumes ts c runs bound ids session some_kept id e next f =
      let h : Reached (length ts) no_conversations c = at_start ts c runs in
      let kept = kept_fields is_zero session conversation_session_fields in
      let (c', ends', filed') =
        end_keeping c (usable_keys trim [] ids) kept id h.intact some_kept e in
      let (r, at, same) =
        filed'.resumes (omega (arith, h.counted))
          (h.aged (omega arith) (no_conversations-IsAged I N)) id e in
      (
        c',
        ends',
        filed'.few,
        ap (λ s. lookup s f)
              (continued id r next c' at ∙ ap (λ s. carry_conversation is_zero (some s) next) same)
            ∙ carry_conversation-kept_fields is_zero session next f,
      )

  end_empty :
      (c : Conversations I N) (keys : List String) (kept : Session I N) (id : String)
      → IsKept c
      → kept ≡ []
      → is_seen keys id ≡ true
      → (c' : Conversations I N) × (remember_keys kept c keys ≡ some c') × Forgotten c keys c'
  unfolding is_seen
  end_empty c [] kept id h none_kept e = cc
  end_empty c (k ∷ keys) [] id h none_kept e = remember_keys-Forgotten c k keys h
  end_empty c (k ∷ keys) (x ∷ kept) id h none_kept e = cc

  -- After any turns of a new client, a turn that ends with nothing to keep ends the conversation of
  -- each of its usable ids: that id, and any other id that reached the same conversation, carries
  -- nothing into a next turn.
  pub turn_forgets :
      (ts : List (TurnPart I N)) (c : Conversations I N)
      → run ts no_conversations ≡ some c
      → (ids : List String) (session : Session I N)
      → kept_fields is_zero session conversation_session_fields ≡ []
      → (id : String) → is_seen (usable_keys trim [] ids) id ≡ true
      → (j : String) → find c.conversations j ≡ find c.conversations id
      → (next : Session I N)
      → (c' : Conversations I N) × (turn_part (ends ids session) c ≡ some c')
        × ((continue_conversation is_zero j next c').1 ≡ next)
  unfolding turn_part remember_conversation
  turn_forgets ts c runs ids session none_kept id e j alias next =
      let h : Reached (length ts) no_conversations c = at_start ts c runs in
      let kept = kept_fields is_zero session conversation_session_fields in
      let (c', ends', gone) = end_empty c (usable_keys trim [] ids) kept id h.intact none_kept e in
      (
        c',
        ends',
        not_continued j next c'
            (unreached c c' (usable_keys trim [] ids) h.intact gone id e j alias),
      )
