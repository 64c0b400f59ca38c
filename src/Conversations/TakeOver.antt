-- ===== src/Conversations/TakeOver.antt =====
-- client.go: the loop of `rememberConversation` that takes over the conversations of its keys.
use text.Mathlib.TextEquality.{eq_iff}
use mathlib.Core.List.{append-nil, append_assoc}
use thalovant_go_sdk.Prelude.{
  ℕ, zero, suc, ◌≤◌, true, false, none, some, String, List, [], ◌∷◌, ◌++◌, ◌≡◌, ◌∙◌, sym, ap, refl,
  Bool, Option, Bool-cases, Option-cases, inl, inr, length, if◌then◌else◌, arith,
}
use thalovant_go_sdk.Conversations.{Ids, find, erase, erase_all, is_seen, add_siblings, take_over}
use thalovant_go_sdk.Conversations.Maps.{
  IsMap, is_seen-append, length-erase-le, length-erase_all-lt, erase-IsMap, erase_all-IsMap,
}
use thalovant_go_sdk.Conversations.Groups.{Linked, left_over, removed-Linked, find-taken}

-- The siblings come after the keys.
add_siblings-append :
    (done todo ss : List String) → (more : List String) × (add_siblings done todo ss ≡ todo ++ more)
unfolding add_siblings
add_siblings-append done todo [] = ([], sym (append-nil todo))
add_siblings-append done todo (s ∷ ss) = elim (Bool-cases (is_seen (done ++ todo) s)) [
  | inl e ↦ rw e (add_siblings-append done todo ss)
  | inr e ↦
      let (more, same) = add_siblings-append done (todo ++ s ∷ []) ss in
      (s ∷ more, rw e (same ∙ append_assoc todo (s ∷ []) more))
]

-- What the loop over the keys leaves.
pub record Taken (group : ℕ → List String) (made : ℕ) (m : Ids) (keys0 keys : List String)
    (m' : Ids) : Type 0 where
  pub linked : Linked group m' made
  pub is_map : IsMap m'
  pub gone : (k : String) → is_seen keys k ≡ true → find m' k ≡ none
  pub was : (k : String) (r : ℕ) → find m' k ≡ some r → find m k ≡ some r
  pub more : List String
  pub extends : keys ≡ keys0 ++ more
  pub shorter : length m' ≤ length m

none_if : (b : Bool) → let o : Option ℕ = none in (if b then o else o) ≡ o
none_if true = refl
none_if false = refl

module _ (group : ℕ → List String) (made : ℕ) where
  -- With nothing left to do.
  taken_all :
      (keys : List String) (m : Ids)
      → Linked group m made
      → IsMap m
      → ((k : String) → is_seen keys k ≡ true → find m k ≡ none)
      → Taken group made m (keys ++ []) keys m
  unfolding is_seen
  taken_all keys m w u gone = record {
    linked = w;
    is_map = u;
    gone = gone;
    was = λ k r h. h;
    more = [];
    extends = simp append-nil;
    shorter = omega arith;
  }

  taken_after :
      {m m1 m' : Ids} {keys0 keys1 keys : List String}
      → ((k : String) (r : ℕ) → find m1 k ≡ some r → find m k ≡ some r)
      → (more : List String) → keys1 ≡ keys0 ++ more
      → length m1 ≤ length m
      → Taken group made m1 keys1 keys m'
      → Taken group made m keys0 keys m'
  taken_after {keys0} was more extends shorter t = record {
    linked = t.linked;
    is_map = t.is_map;
    gone = t.gone;
    was = λ k r h. was k r (t.was k r h);
    more = more ++ t.more;
    extends = t.extends ∙ ap (λ l. l ++ t.more) extends ∙ append_assoc keys0 more t.more;
    shorter = omega (arith, t.shorter);
  }

  abbrev Result : ℕ → List String → List String → Ids → Type 0
  Result fuel done todo m =
      (keys : List String) × (m' : Ids) × (take_over group fuel done todo m ≡ some (keys, m'))
      × Taken group made m (done ++ todo) keys m'

  done_with :
      (done : List String) (k : String) (m : Ids)
      → ((j : String) → is_seen done j ≡ true → find m j ≡ none)
      → find m k ≡ none
      → (j : String) → is_seen (done ++ k ∷ []) j ≡ true
      → find m j ≡ none
  unfolding is_seen
  done_with done k m gone e j h = elim (Bool-cases (is_seen done j)) [
    | inl before ↦ gone j before
    | inr new ↦ ground (arith, eq_iff k j, is_seen-append done (k ∷ []) j)
  ]

  pass :
      (fuel : ℕ) (done todo : List String) (k : String) (m : Ids)
      → find m k ≡ none
      → take_over group fuel (done ++ k ∷ []) todo m ≡ take_over group fuel done (k ∷ todo) m
  unfolding take_over
  pass zero done todo k m e = rw (take_over, e) refl
  pass (suc fuel) done todo k m e = rw (take_over, e) refl

  passed :
      (fuel : ℕ) (done todo : List String) (k : String) (m : Ids)
      → find m k ≡ none
      → Result fuel (done ++ k ∷ []) todo m
      → Result fuel done (k ∷ todo) m
  passed fuel done todo k m e (keys, m', ends, t) = (
    keys,
    m',
    sym (pass fuel done todo k m e) ∙ ends,
    taken_after (λ j r h. h) [] (simp (append_assoc, append-nil)) (omega arith) t,
  )

  taken : ℕ → String → Ids → Ids
  taken r k m = erase (erase_all m (group r)) k

  grown :
      (done todo : List String) (k : String) (r : ℕ)
      → (more : List String) × ((done ++ k ∷ []) ++ add_siblings (done ++ k ∷ []) todo (group r)
          ≡ (done ++ k ∷ todo) ++ more)
  grown done todo k r =
      let (more, same) = add_siblings-append (done ++ k ∷ []) todo (group r) in
      (more, rw same (simp append_assoc))

  took :
      (fuel : ℕ) (done todo : List String) (k : String) (r : ℕ) (m : Ids)
      → Linked group m made
      → find m k ≡ some r
      → Result fuel (done ++ k ∷ []) (add_siblings (done ++ k ∷ []) todo (group r)) (taken r k m)
      → Result (suc fuel) done (k ∷ todo) m
  unfolding take_over taken
  took fuel done todo k r m w e (keys, m', ends, t) = (
    keys,
    m',
    rw (take_over, e) ends,
    taken_after
        (λ j q h. (left_over (is_seen (group r) j) (find m j) q (sym (find-taken w k r e j) ∙ h)).1)
        (grown done todo k r).0 (grown done todo k r).1
        (omega (
          arith,
          length-erase_all-lt m (group r) k r e (w.named k r e),
          length-erase-le (erase_all m (group r)) k,
        ))
        t,
  )

  -- The loop ends within one conversation for each id listed; of its keys none is listed then.
  pub take_over_lem :
      (fuel : ℕ) (done todo : List String) (m : Ids)
      → Linked group m made
      → IsMap m
      → ((k : String) → is_seen done k ≡ true → find m k ≡ none)
      → length m ≤ fuel
      → Result fuel done todo m
  unfolding take_over taken find
  take_over_lem fuel done [] m w u gone h = (done, m, refl, taken_all done m w u gone)
  take_over_lem zero done (k ∷ todo) [] w u gone h =
      passed zero done todo k [] refl
        (take_over_lem zero (done ++ k ∷ []) todo [] w u (done_with done k [] gone refl) h)
  take_over_lem zero done (k ∷ todo) (x ∷ m) w u gone h = absurd (omega arith)
  take_over_lem (suc fuel) done (k ∷ todo) m w u gone h = elim (Option-cases (find m k)) [
    | inl e ↦
        passed (suc fuel) done todo k m e
          (take_over_lem (suc fuel) (done ++ k ∷ []) todo m w u (done_with done k m gone e) h)
    | inr (r, e) ↦ took fuel done todo k r m w e (
        take_over_lem fuel (done ++ k ∷ []) (add_siblings (done ++ k ∷ []) todo (group r))
          (taken r k m) (removed-Linked w k r e (taken r k m) (find-taken w k r e))
          (erase-IsMap (erase_all m (group r)) k (erase_all-IsMap m (group r) u))
          (done_with done k (taken r k m)
            (λ j d. rw (find-taken w k r e j, gone j d) (none_if (is_seen (group r) j)))
            (rw (find-taken w k r e k, w.named k r e) refl))
          (omega (
            arith,
            length-erase_all-lt m (group r) k r e (w.named k r e),
            length-erase-le (erase_all m (group r)) k,
          )))
  ]
