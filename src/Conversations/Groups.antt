-- ===== src/Conversations/Groups.antt =====
-- client.go: the conversations that share the map of session ids.
use text.Mathlib.TextEquality.{eq_iff}
use mathlib.Core.Path.{subst}
use thalovant_go_sdk.Prelude.{
  ℕ, ◌+◌, ◌<◌, true, false, none, some, String, List, ◌≡◌, ◌∙◌, sym, ap, refl, Bool, Option,
  Bool-cases, ◌⊎◌, inl, inr, if◌then◌else◌, arith,
}
use thalovant_go_sdk.Conversations.{Ids, find, erase, erase_all, put_all, is_seen}
use thalovant_go_sdk.Conversations.Maps.{find-erase, find-erase_all, find-put_all}

-- Each id stands in the group of its conversation, every id of a group reaches the same
-- conversation, and no reference dangles.
pub record Linked (group : ℕ → List String) (m : Ids) (made : ℕ) : Type 0 where
  pub named : (k : String) (r : ℕ) → find m k ≡ some r → is_seen (group r) k ≡ true
  pub shared :
      (k : String) (r : ℕ) (j : String)
      → find m k ≡ some r
      → is_seen (group r) j ≡ true
      → find m j ≡ some r
  pub below : (k : String) (r : ℕ) → find m k ≡ some r → r < made

pub same_ref : (q r : ℕ) → some q ≡ some r → q ≡ r
same_ref q r h = ground arith

pub left_over :
    (b : Bool) (o : Option ℕ) (q : ℕ)
    → (if b then none else o) ≡ some q
    → (b ≡ false) × (o ≡ some q)
left_over b o q h = ground arith

module _ {group : ℕ → List String} {m : Ids} {made : ℕ} (w : Linked group m made) where
  -- A conversation that loses all its ids leaves the others whole.
  pub removed-Linked :
      (k : String) (r : ℕ)
      → find m k ≡ some r
      → (m' : Ids) → ((j : String) → find m' j ≡ (if is_seen (group r) j then none else find m j))
      → Linked group m' made
  removed-Linked k r at m' after = record {
    named = λ j q h. w.named j q (was j q h);
    shared = λ j q i h e. elim (Bool-cases (is_seen (group r) i)) [
      | inl gone ↦ absurd (
          cc (
            w.named j q (was j q h),
            (stays j q h).0,
            same_ref q r (sym (w.shared j q i (was j q h) e) ∙ w.shared k r i at gone),
          ))
      | inr kept ↦ rw (after i, kept) (w.shared j q i (was j q h) e)
    ];
    below = λ j q h. w.below j q (was j q h);
  }
    where
      stays :
          (j : String) (q : ℕ)
          → find m' j ≡ some q
          → (is_seen (group r) j ≡ false) × (find m j ≡ some q)
      stays j q h = left_over (is_seen (group r) j) (find m j) q (sym (after j) ∙ h)

      was : (j : String) (q : ℕ) → find m' j ≡ some q → find m j ≡ some q
      was j q h = (stays j q h).1

  -- A key of the loop and its whole group.
  pub find-taken :
      (k : String) (r : ℕ)
      → find m k ≡ some r
      → (j : String)
      → find (erase (erase_all m (group r)) k) j ≡ (if is_seen (group r) j then none else find m j)
  find-taken k r at j = ground (
    arith,
    eq_iff k j,
    w.named k r at,
    find-erase (erase_all m (group r)) k j,
    find-erase_all m (group r) j,
  )

pub filed :
    (b : Bool) (o : Option ℕ) (n q : ℕ)
    → (if b then some n else o) ≡ some q
    → ((b ≡ true) × (n ≡ q)) ⊎ ((b ≡ false) × (o ≡ some q))
filed true o n q h = inl (refl, ground arith)
filed false o n q h = inr (refl, h)

-- A new conversation under ids that reach none.
pub put_all-Linked :
    {g g' : ℕ → List String} {m : Ids} {n : ℕ}
    → Linked g m n
    → (ks : List String) → ((k : String) → is_seen ks k ≡ true → find m k ≡ none)
    → ((r : ℕ) → r < n → g' r ≡ g r)
    → g' n ≡ ks
    → Linked g' (put_all m ks n) (n + 1)
put_all-Linked {g} {g'} {m} {n} w ks gone old new = record {
  named = λ k q h. elim (at k q h) [
    | inl (seen, same) ↦ rw (← same, new) seen
    | inr (_, was) ↦ rw (old q (w.below k q was)) (w.named k q was)
  ];
  shared = λ k q j h e. elim (at k q h) [
    | inl (_, same) ↦
        rw (find-put_all m ks n j, subst (λ l. is_seen l j ≡ true) (ap g' (sym same) ∙ new) e)
          (ap some same)
    | inr (_, was) ↦
        other j q (w.shared k q j was (subst (λ l. is_seen l j ≡ true) (old q (w.below k q was)) e))
  ];
  below = λ k q h. elim (at k q h) [
    | inl (_, same) ↦ omega arith
    | inr (_, was) ↦ omega (arith, w.below k q was)
  ];
}
  where
    at :
        (k : String) (q : ℕ)
        → find (put_all m ks n) k ≡ some q
        → ((is_seen ks k ≡ true) × (n ≡ q)) ⊎ ((is_seen ks k ≡ false) × (find m k ≡ some q))
    at k q h = filed (is_seen ks k) (find m k) n q (sym (find-put_all m ks n k) ∙ h)

    other : (j : String) (q : ℕ) → find m j ≡ some q → find (put_all m ks n) j ≡ some q
    other j q h = elim (Bool-cases (is_seen ks j)) [
      | inl seen ↦ absurd (ground (arith, gone j seen))
      | inr fresh ↦ rw (find-put_all m ks n j, fresh) h
    ]

pub Linked-cong :
    {g g' : ℕ → List String} {m m' : Ids} {n : ℕ}
    → ((r : ℕ) → g' r ≡ g r)
    → ((k : String) → find m' k ≡ find m k)
    → Linked g m n
    → Linked g' m' n
Linked-cong same finds w = record {
  named = λ k r h. rw (same r) (w.named k r (sym (finds k) ∙ h));
  shared = λ k r j h e.
      finds j ∙ w.shared k r j (sym (finds k) ∙ h) (subst (λ l. is_seen l j ≡ true) (same r) e);
  below = λ k r h. w.below k r (sym (finds k) ∙ h);
}
