-- ===== src/Utterances/Counts.antt =====
-- client.go: what the register of utterances counts.
use text.Mathlib.TextEquality.{eq_iff}
use thalovant_go_sdk.Prelude.{
  ℕ, suc, ◌+◌, ◌-◌, ◌≤◌, ◌<◌, Bool, true, false, List, [], ◌∷◌, ◌++◌, ◌≡◌, refl, ap, ◌∙◌, ltb,
  length, length-append, length-drop, drop, zero, Bool-cases, inl, inr, arith,
}
use thalovant_go_sdk.Utterances.{
  ReplyCorrelation, Register, untracked_utterance_grace, same_kind, is_active, delete_key,
  reserve_reply_id, release_reply_id, recent, newest, prune_untracked_sends, record_untracked_send,
  count, utterances_in_flight,
}

delete_key_free :
    (ls : List ReplyCorrelation) (k : ReplyCorrelation)
    → is_active ls k ≡ false
    → delete_key ls k ≡ ls
unfolding is_active delete_key
delete_key_free [] k h = refl
delete_key_free (l ∷ ls) k h = ground (arith, delete_key_free ls k)

same_kind_refl : (b : Bool) → same_kind b b ≡ true
same_kind_refl true = refl
same_kind_refl false = refl

-- An ask or a query whose id is free reserves it and is counted once more, as what it is; when it
-- gives the id back, the register is what it was.
pub release_reply_id-reserve_reply_id :
    (k : ReplyCorrelation) (r : Register)
    → is_active r.reply_ids k ≡ false
    → ((reserve_reply_id k r).1 ≡ true)
      × (count k.query (reserve_reply_id k r).0.reply_ids ≡ suc (count k.query r.reply_ids))
      × (release_reply_id k (reserve_reply_id k r).0 ≡ r)
unfolding reserve_reply_id release_reply_id count delete_key
release_reply_id-reserve_reply_id k r h =
    ground (arith, delete_key_free r.reply_ids k h, same_kind_refl k.query, eq_iff k.id k.id)

length-newest :
    (kept : List ℕ) → (length (newest kept) ≤ 1024) × (0 < length kept → 0 < length (newest kept))
unfolding newest
length-newest kept = ground (arith, length-drop (length kept - 1024) kept)

recent-append :
    (now t : ℕ) (ss : List ℕ)
    → now < t + untracked_utterance_grace
    → recent now (ss ++ (t ∷ [])) ≡ recent now ss ++ (t ∷ [])
unfolding recent
recent-append now t [] h = ground arith
recent-append now t (s ∷ ss) h = ground (arith, recent-append now t ss h)

drop-append-one :
    (n : ℕ) (ys : List ℕ) (t : ℕ) → n ≤ length ys → drop n (ys ++ (t ∷ [])) ≡ drop n ys ++ (t ∷ [])
drop-append-one zero ys t h = refl
drop-append-one (suc n) [] t h = absurd (omega arith)
drop-append-one (suc n) (y ∷ ys) t h = drop-append-one n ys t (omega arith)

-- The newest send is never dropped for the cap.
newest-append : (ys : List ℕ) (t : ℕ) → (zs : List ℕ) × (newest (ys ++ (t ∷ [])) ≡ zs ++ (t ∷ []))
unfolding newest
newest-append ys t = elim (Bool-cases (ltb 1024 (length (ys ++ (t ∷ []))))) [
  | inr few ↦ (ys, rw few refl)
  | inl many ↦
      let n = length (ys ++ (t ∷ [])) - 1024 in
      (drop n ys, rw many (drop-append-one n ys t (omega (arith, length-append ys (t ∷ [])))))
]

-- A fire-and-forget utterance sent at `t` is counted as in flight for the whole of its grace, when
-- nothing else is recorded meanwhile; and never more than 1024 are counted.
pub utterances_in_flight_sends :
    (t now : ℕ) (r : Register)
    → now < t + untracked_utterance_grace
    → (1 ≤ (utterances_in_flight now (record_untracked_send t r)).1.sends)
      × ((utterances_in_flight now (record_untracked_send t r)).1.sends ≤ 1024)
unfolding utterances_in_flight prune_untracked_sends record_untracked_send
utterances_in_flight_sends t now r h =
    let first = recent-append t t r.untracked_sends (omega arith) in
    let (zs, e) = newest-append (recent t r.untracked_sends) t in
    let kept = ap newest first ∙ e in
    let shown = ap (recent now) kept ∙ recent-append now t zs h in
    let size = length-append (recent now zs) (t ∷ []) in
    let (most, some_left) =
      length-newest (recent now (newest (recent t (r.untracked_sends ++ (t ∷ []))))) in
    (some_left (ground (arith, shown, size)), most)
