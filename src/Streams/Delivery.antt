-- ===== src/Streams/Delivery.antt =====
-- subscriptions.go: what one subscription of a stream gets, whatever is asked of the stream.
use mathlib.Core.List.{append_assoc, append-nil}
use thalovant_go_sdk.Prelude.{
  ℕ, zero, suc, Bool, true, false, none, some, List, [], ◌∷◌, ◌++◌, map, ◌≡◌, refl, sym, ap, ◌∙◌,
  ◌||◌, ◌==◌, if◌then◌else◌, Bool-cases, inl, inr, arith,
}
use thalovant_go_sdk.Streams.{
  Subscription, EventStream, Action, subscribed, published, receives, stops, subscribe, offer,
  publish, stop, receive, at, act, act_all, find,
}

neither : (x y : Bool) → x || y ≡ false → (x ≡ false) × (y ≡ false)
neither x y h = ground arith

module _ {A : Type 0} where
  -- What an action does to the subscription `n`.
  unfoldable pub act_one : ℕ → Subscription A → Action A → Subscription A
  act_one n s (subscribed capacity) = s
  act_one n s (published value) = offer value s
  act_one n s (receives m) = if m == n then (receive s).0 else s
  act_one n s (stops m) = if m == n then stop s else s

  unfoldable pub act_one_all : ℕ → Subscription A → List (Action A) → Subscription A
  act_one_all n s [] = s
  act_one_all n s (a ∷ xs) = act_one_all n (act_one n s a) xs

  find-append :
      (b c : EventStream A) (n : ℕ) (s : Subscription A)
      → find b n ≡ some s
      → find (b ++ c) n ≡ some s
  unfolding find
  find-append [] c n s h = cc
  find-append (x ∷ b) c zero s h = h
  find-append (x ∷ b) c (suc n) s h = find-append b c n s h

  find-map :
      (f : Subscription A → Subscription A) (b : EventStream A) (n : ℕ) (s : Subscription A)
      → find b n ≡ some s
      → find (map f b) n ≡ some (f s)
  unfolding find
  find-map f [] n s h = cc
  find-map f (x ∷ b) zero s h = ground arith
  find-map f (x ∷ b) (suc n) s h = find-map f b n s h

  find-at :
      (m : ℕ) (f : Subscription A → Subscription A) (b : EventStream A) (n : ℕ) (s : Subscription A)
      → find b n ≡ some s
      → find (at m f b) n ≡ some (if m == n then f s else s)
  unfolding find at
  find-at m f [] n s h = cc
  find-at zero f (x ∷ b) zero s h = ground arith
  find-at zero f (x ∷ b) (suc n) s h = ground arith
  find-at (suc m) f (x ∷ b) zero s h = ground arith
  find-at (suc m) f (x ∷ b) (suc n) s h = ground (arith, find-at m f b n s h)

  find-act :
      (b : EventStream A) (a : Action A) (n : ℕ) (s : Subscription A)
      → find b n ≡ some s
      → find (act b a) n ≡ some (act_one n s a)
  unfolding act act_one subscribe publish
  find-act b (subscribed capacity) n s h = find-append b _ n s h
  find-act b (published value) n s h = find-map (offer value) b n s h
  find-act b (receives m) n s h = find-at m (λ s. (receive s).0) b n s h
  find-act b (stops m) n s h = find-at m stop b n s h

  -- Subscriptions are independent: what is asked of a stream changes one as if it were alone.
  pub find-act_all :
      (b : EventStream A) (xs : List (Action A)) (n : ℕ) (s : Subscription A)
      → find b n ≡ some s
      → find (act_all b xs) n ≡ some (act_one_all n s xs)
  unfolding act_all act_one_all
  find-act_all b [] n s h = h
  find-act_all b (a ∷ xs) n s h = find-act_all (act b a) xs n (act_one n s a) (find-act b a n s h)

  -- The values published, and those that the reader of the subscription `n` gets.
  abbrev pub sent_by : Action A → List A
  sent_by (published v) = v ∷ []
  sent_by _ = []

  unfoldable pub sent : List (Action A) → List A
  sent [] = []
  sent (a ∷ xs) = sent_by a ++ sent xs

  abbrev pub got : ℕ → Subscription A → Action A → List A
  got n s (receives m) = if m == n then elim (receive s).1 [ some v ↦ v ∷ [] | none ↦ [] ] else []
  got n s _ = []

  unfoldable pub reads : ℕ → Subscription A → List (Action A) → List A
  reads n s [] = []
  reads n s (a ∷ xs) = got n s a ++ reads n (act_one n s a) xs

  -- Whether the reader of `n` closes it.
  abbrev pub closes_by : ℕ → Action A → Bool
  closes_by n (stops m) = m == n
  closes_by n _ = false

  unfoldable pub closes : ℕ → List (Action A) → Bool
  closes n [] = false
  closes n (a ∷ xs) = closes_by n a || closes n xs

  act_one_dead :
      (n : ℕ) (s : Subscription A) (a : Action A)
      → s.live ≡ false
      → ((act_one n s a).live ≡ false) × (got n s a ++ (act_one n s a).queue ≡ s.queue)
  unfolding act_one offer stop receive
  act_one_dead n s a h = ground arith

  -- A closed subscription gives what it holds.
  dead_reads :
      (n : ℕ) (s : Subscription A) (xs : List (Action A))
      → s.live ≡ false
      → reads n s xs ++ (act_one_all n s xs).queue ≡ s.queue
  unfolding reads act_one_all
  dead_reads n s [] h = refl
  dead_reads n s (a ∷ xs) h =
      let (dead, same) = act_one_dead n s a h in
      let later = dead_reads n (act_one n s a) xs dead in
      append_assoc (got n s a) (reads n (act_one n s a) xs) _
      ∙ ap (λ l. got n s a ++ l) later
      ∙ same

  dead_stays :
      (n : ℕ) (s : Subscription A) (xs : List (Action A))
      → s.live ≡ false
      → (act_one_all n s xs).live ≡ false
  unfolding act_one_all
  dead_stays n s [] h = h
  dead_stays n s (a ∷ xs) h = dead_stays n (act_one n s a) xs (act_one_dead n s a h).0

  act_one_live :
      (n : ℕ) (s : Subscription A) (a : Action A)
      → (act_one n s a).live ≡ true
      → got n s a ++ (act_one n s a).queue ≡ s.queue ++ sent_by a
  unfolding act_one offer stop receive
  act_one_live n s (subscribed capacity) h = sym (append-nil s.queue)
  act_one_live n s (published v) h = ground arith
  act_one_live n s (receives m) h = ground (arith, append-nil s.queue)
  act_one_live n s (stops m) h = ground (arith, append-nil s.queue)

  -- One action, and the ones after it.
  step_reads :
      (n : ℕ) (s : Subscription A) (a : Action A) (xs : List (Action A)) (q rest : List A)
      → got n s a ++ (act_one n s a).queue ≡ s.queue ++ sent_by a
      → (reads n (act_one n s a) xs ++ q) ++ rest ≡ (act_one n s a).queue ++ sent xs
      → (reads n s (a ∷ xs) ++ q) ++ rest ≡ s.queue ++ sent (a ∷ xs)
  unfolding reads sent
  step_reads n s a xs q rest one later =
      ap (λ l. l ++ rest) (append_assoc (got n s a) (reads n (act_one n s a) xs) q)
      ∙ append_assoc (got n s a) (reads n (act_one n s a) xs ++ q) rest
      ∙ ap (λ l. got n s a ++ l) later
      ∙ sym (append_assoc (got n s a) (act_one n s a).queue (sent xs))
      ∙ ap (λ l. l ++ sent xs) one
      ∙ append_assoc s.queue (sent_by a) (sent xs)

  live_reads :
      (n : ℕ) (s : Subscription A) (xs : List (Action A))
      → (act_one_all n s xs).live ≡ true
      → (reads n s xs ++ (act_one_all n s xs).queue) ++ [] ≡ s.queue ++ sent xs
  unfolding act_one_all reads sent
  live_reads n s [] h = append-nil s.queue ∙ sym (append-nil s.queue)
  live_reads n s (a ∷ xs) h = elim (Bool-cases (act_one n s a).live) [
    | inr dead ↦ absurd (ground (arith, dead_stays n (act_one n s a) xs dead))
    | inl live ↦
        step_reads n s a xs _ [] (act_one_live n s a live) (live_reads n (act_one n s a) xs h)
  ]

  -- A subscription that its reader has not closed is live until it overflows.
  act_one_open :
      (n : ℕ) (s : Subscription A) (a : Action A)
      → (s.err ≡ none → s.live ≡ true)
      → closes_by n a ≡ false
      → (act_one n s a).err ≡ none
      → (act_one n s a).live ≡ true
  unfolding act_one offer stop receive
  act_one_open n s (subscribed capacity) h c e = h e
  act_one_open n s (published v) h c e = ground arith
  act_one_open n s (receives m) h c e = ground arith
  act_one_open n s (stops m) h c e = ground arith

  open_live :
      (n : ℕ) (s : Subscription A) (xs : List (Action A))
      → (s.err ≡ none → s.live ≡ true)
      → closes n xs ≡ false
      → (act_one_all n s xs).err ≡ none
      → (act_one_all n s xs).live ≡ true
  unfolding act_one_all closes
  open_live n s [] h c e = h e
  open_live n s (a ∷ xs) h c e =
      open_live n (act_one n s a) xs (act_one_open n s a h (neither _ _ c).0) (neither _ _ c).1 e

  some_same : (s t : Subscription A) → some s ≡ some t → s ≡ t
  some_same s t h = cc

  -- Nothing is lost in silence: when the reader of a live subscription does not close it and finds
  -- no error at the end, then what it read, followed by what waits in the queue, is what waited
  -- there at first, followed by every value published, in order.
  pub act_all_complete :
      (b : EventStream A) (xs : List (Action A)) (n : ℕ) (s t : Subscription A)
      → find b n ≡ some s
      → s.live ≡ true
      → closes n xs ≡ false
      → find (act_all b xs) n ≡ some t
      → t.err ≡ none
      → reads n s xs ++ t.queue ≡ s.queue ++ sent xs
  act_all_complete b xs n s t found l c at_end e =
      let same = some_same (act_one_all n s xs) t (sym (find-act_all b xs n s found) ∙ at_end) in
      let live = open_live n s xs (λ x. l) c (ap (λ (u : Subscription A). u.err) same ∙ e) in
      ap (λ (u : Subscription A). reads n s xs ++ u.queue) (sym same)
      ∙ sym (append-nil _)
      ∙ live_reads n s xs live
