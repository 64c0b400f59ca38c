-- ===== src/Conversations/Eviction.antt =====
-- client.go: `evictOldestConversationsLocked`.
use text.Mathlib.TextEquality.{eq_iff}
use mathlib.Core.Path.{subst}
use thalovant_go_sdk.Prelude.{
  ℕ, zero, suc, ◌≤◌, ◌<◌, true, false, none, some, String, List, [], ◌∷◌, ◌≡◌, ◌∙◌, sym, refl, Bool,
  Bool-cases, inl, inr, length, if◌then◌else◌, ltb, leb, ltb→lt, All, arith,
}
use thalovant_go_sdk.Conversations.{
  Ids, find, erase_all, is_seen, has_seq, distinct, oldest_from, evict_oldest_conversations,
  max_remembered_conversations,
}
use thalovant_go_sdk.Conversations.Maps.{
  IsMap, find-erase_all, length-erase_all-lt, erase_all-IsMap,
}
use thalovant_go_sdk.Conversations.Groups.{Linked, left_over, same_ref, removed-Linked}

All-map {ℓ κ λ'} :
    {A : Type ℓ} {P : A → Type κ} {Q : A → Type λ'}
    → ((x : A) → P x → Q x)
    → (xs : List A) → All P xs
    → All Q xs
All-map f [] h = tt
All-map f (x ∷ xs) h = (f x h.0, All-map f xs h.1)

All-both {ℓ κ λ' μ} :
    {A : Type ℓ} {P : A → Type κ} {Q : A → Type λ'} {R : A → Type μ}
    → ((x : A) → P x → Q x → R x)
    → (xs : List A) → All P xs
    → All Q xs
    → All R xs
All-both f [] h k = tt
All-both f (x ∷ xs) h k = (f x h.0 k.0, All-both f xs h.1 k.1)

abbrev Reached : Ids → ℕ → Type 0
Reached m r = (k : String) × (find m k ≡ some r)

module _ (seq : ℕ → ℕ) where
  in_tail :
      (k : String) (r : ℕ) (m : Ids)
      → find m k ≡ none
      → (q : ℕ) → Reached m q
      → Reached ((k, r) ∷ m) q
  unfolding find
  in_tail k r m new q (j, e) = (j, ground (arith, eq_iff k j))

  distinct-Reached : (m : Ids) → IsMap m → All (Reached m) (distinct seq m)
  unfolding distinct find
  distinct-Reached [] u = tt
  distinct-Reached ((k, r) ∷ m) u = elim (Bool-cases (has_seq seq (distinct seq m) (seq r))) [
    | inl e ↦ rw e (All-map (in_tail k r m u.0) (distinct seq m) (distinct-Reached m u.1))
    | inr e ↦ rw e (
      (k, ground (arith, eq_iff k k)),
      All-map (in_tail k r m u.0) (distinct seq m) (distinct-Reached m u.1),
    )
  ]

  alone :
      (t r : ℕ) (rs : List ℕ)
      → has_seq seq rs (seq r) ≡ false
      → seq r ≡ t
      → All (λ q. seq q ≡ t) rs
      → length (r ∷ rs) ≤ 1
  unfolding has_seq
  alone t r [] new e h = omega arith
  alone t r (q ∷ rs) new e h = ground (arith, h.0)

  same_step :
      (t r : ℕ) (rs : List ℕ) (b : Bool)
      → has_seq seq rs (seq r) ≡ b
      → (All (λ q. seq q ≡ t) rs → length rs ≤ 1)
      → All (λ q. seq q ≡ t) (if b then rs else r ∷ rs)
      → length (if b then rs else r ∷ rs) ≤ 1
  same_step t r rs true e few h = few h
  same_step t r rs false e few h = alone t r rs e h.0 h.1

  distinct_same :
      (t : ℕ) (m : Ids) → All (λ r. seq r ≡ t) (distinct seq m) → length (distinct seq m) ≤ 1
  unfolding distinct has_seq
  distinct_same t [] h = omega arith
  distinct_same t ((k, r) ∷ m) h =
      same_step t r (distinct seq m) (has_seq seq (distinct seq m) (seq r)) refl (distinct_same t m)
        h

  oldest_from-le : (o : ℕ) (rs : List ℕ) → seq (oldest_from seq o rs) ≤ seq o
  unfolding oldest_from
  oldest_from-le o [] = omega arith
  oldest_from-le o (r ∷ rs) =
      ground (arith, oldest_from-le (if ltb (seq r) (seq o) then r else o) rs)

  oldest_from-All : (o : ℕ) (rs : List ℕ) → All (λ r. seq (oldest_from seq o rs) ≤ seq r) rs
  unfolding oldest_from
  oldest_from-All o [] = tt
  oldest_from-All o (r ∷ rs) = (
    ground (arith, oldest_from-le (if ltb (seq r) (seq o) then r else o) rs),
    oldest_from-All (if ltb (seq r) (seq o) then r else o) rs,
  )

  oldest_from_listed {κ} :
      (P : ℕ → Type κ) (o : ℕ) (rs : List ℕ) → P o → All P rs → P (oldest_from seq o rs)
  unfolding oldest_from
  oldest_from_listed P o [] p h = p
  oldest_from_listed P o (r ∷ rs) p h = elim (Bool-cases (ltb (seq r) (seq o))) [
    | inl e ↦ rw e (oldest_from_listed P r rs h.0 h.1)
    | inr e ↦ rw e (oldest_from_listed P o rs p h.1)
  ]

-- What the rounds leave: whole conversations, 32 of them at most, the newest among them.
pub record Evicted (group : ℕ → List String) (seq : ℕ → ℕ) (made : ℕ) (m m' : Ids) : Type 0 where
  pub linked : Linked group m' made
  pub is_map : IsMap m'
  pub few : length (distinct seq m') ≤ 32
  pub was : (k : String) (r : ℕ) → find m' k ≡ some r → find m k ≡ some r
  pub stays :
      (k : String) (r : ℕ)
      → find m k ≡ some r
      → ((j : String) (q : ℕ) → find m j ≡ some q → seq q ≤ seq r)
      → find m' k ≡ some r

module _ (group : ℕ → List String) (seq : ℕ → ℕ) (made : ℕ) where
  -- With more than 32 conversations, the oldest is older than a newest one.
  oldest-lt :
      (m : Ids) (o : ℕ) (rs : List ℕ) (r : ℕ)
      → IsMap m
      → distinct seq m ≡ o ∷ rs
      → 32 < length (distinct seq m)
      → ((j : String) (q : ℕ) → find m j ≡ some q → seq q ≤ seq r)
      → seq (oldest_from seq o rs) < seq r
  oldest-lt m o rs r u e many newest =
      elim (Bool-cases (ltb (seq (oldest_from seq o rs)) (seq r))) [
        | inl older ↦ ltb→lt _ _ older
        | inr not_older ↦ absurd (
            omega (
              arith,
              distinct_same seq (seq r) m (
                  All-both (λ q low (j, f). ground (arith, newest j q f)) (distinct seq m) lows
                    (distinct-Reached seq m u)),
            ))
      ]
    where
      lows : All (λ q. seq (oldest_from seq o rs) ≤ seq q) (distinct seq m)
      lows = rw e (oldest_from-le seq o rs, oldest_from-All seq o rs)

  dropped :
      (m m' : Ids) (k : String) (o : ℕ)
      → Linked group m made
      → find m k ≡ some o
      → ((r : ℕ) → ((j : String) (q : ℕ) → find m j ≡ some q → seq q ≤ seq r) → seq o < seq r)
      → Evicted group seq made (erase_all m (group o)) m'
      → Evicted group seq made m m'
  dropped m m' k o w e older v = record {
    linked = v.linked;
    is_map = v.is_map;
    few = v.few;
    was = λ j q h. was j q (v.was j q h);
    stays =
        λ j r h newest. v.stays j r (stay j r h (older r newest)) (λ i q f. newest i q (was i q f));
  }
    where
      was : (j : String) (q : ℕ) → find (erase_all m (group o)) j ≡ some q → find m j ≡ some q
      was j q h =
          (left_over (is_seen (group o) j) (find m j) q (sym (find-erase_all m (group o) j) ∙ h)).1

      stay :
          (j : String) (r : ℕ)
          → find m j ≡ some r
          → seq o < seq r
          → find (erase_all m (group o)) j ≡ some r
      stay j r h lt = elim (Bool-cases (is_seen (group o) j)) [
        | inl seen ↦ absurd (ground (arith, same_ref o r (sym (w.shared k o j e seen) ∙ h)))
        | inr not_seen ↦ rw (find-erase_all m (group o) j, not_seen) h
      ]

  abbrev Done : ℕ → Ids → Type 0
  Done fuel m =
      (m' : Ids) × (evict_oldest_conversations group seq fuel m ≡ some m')
      × Evicted group seq made m m'

  round :
      (fuel : ℕ) (m : Ids) (ds : List ℕ)
      → Linked group m made
      → IsMap m
      → distinct seq m ≡ ds
      → leb (length (distinct seq m)) max_remembered_conversations ≡ false
      → ((k : String) (o : ℕ)
          → find m k ≡ some o
          → Linked group (erase_all m (group o)) made
          → Done fuel (erase_all m (group o)))
      → Done (suc fuel) m
  unfolding evict_oldest_conversations
  round fuel m [] w u e many again = absurd (ground (arith, e))
  round fuel m (o ∷ rs) w u e many again =
      let old : ℕ = oldest_from seq o rs in
      let listed : All (Reached m) (o ∷ rs) =
        subst (λ l. All (Reached m) l) e (distinct-Reached seq m u) in
      let (k, at) = oldest_from_listed seq (Reached m) o rs listed.0 listed.1 in
      let (m', ends, v) =
        again k old at
          (removed-Linked w k old at (erase_all m (group old)) (find-erase_all m (group old))) in
      (
        m',
        rw (evict_oldest_conversations, many, e) ends,
        dropped m m' k old w at (λ r newest. oldest-lt m o rs r u e (ground arith) newest) v,
      )

  pub evict_lem :
      (fuel : ℕ) (m : Ids) → Linked group m made → IsMap m → length m < fuel → Done fuel m
  unfolding evict_oldest_conversations
  evict_lem zero m w u h = elim h [ ]
  evict_lem (suc fuel) m w u h =
      elim (Bool-cases (leb (length (distinct seq m)) max_remembered_conversations)) [
        | inl few ↦ (
          m,
          rw (evict_oldest_conversations, few) refl,
          record {
            linked = w;
            is_map = u;
            few = ground arith;
            was = λ k r f. f;
            stays = λ k r f newest. f;
          },
        )
        | inr many ↦ round fuel m (distinct seq m) w u refl many (λ k o at linked.
            evict_lem fuel (erase_all m (group o)) linked (erase_all-IsMap m (group o) u)
              (omega (arith, length-erase_all-lt m (group o) k o at (w.named k o at))))
      ]
