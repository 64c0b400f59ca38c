-- ===== src/Streams/Bounds.antt =====
-- subscriptions.go: the queues of a stream are bounded.
use thalovant_go_sdk.Prelude.{ℕ, zero, suc, ◌≤◌, List, [], ◌∷◌, length, length-append, All, arith}
use thalovant_go_sdk.Streams.{
  Subscription, EventStream, Action, subscribed, published, receives, stops, clamp, subscribe,
  offer, publish, stop, receive, at, act, act_all,
}

module _ {A : Type 0} where
  -- A subscription with a capacity that `subscribe` gives, and a queue that fits it.
  pub record IsBounded (s : Subscription A) : Type 0 where
    pub some_room : 1 ≤ s.capacity
    pub most : s.capacity ≤ 65536
    pub fits : length s.queue ≤ s.capacity

  offer-IsBounded : (v : A) (s : Subscription A) → IsBounded s → IsBounded (offer v s)
  unfolding offer
  offer-IsBounded v s h = ground (arith, length-append s.queue (v ∷ []))

  receive-IsBounded : (s : Subscription A) → IsBounded s → IsBounded (receive s).0
  unfolding receive
  receive-IsBounded s h = ground arith

  stop-IsBounded : (s : Subscription A) → IsBounded s → IsBounded (stop s)
  unfolding stop
  stop-IsBounded s h = record { some_room = h.some_room; most = h.most; fits = h.fits }

  subscribe-All :
      (capacity : ℕ) (b : EventStream A) → All IsBounded b → All IsBounded (subscribe capacity b)
  unfolding subscribe clamp
  subscribe-All capacity [] h =
      (record { some_room = ground arith; most = ground arith; fits = ground arith }, tt)
  subscribe-All capacity (s ∷ b) (i, h) = (i, subscribe-All capacity b h)

  publish-All : (v : A) (b : EventStream A) → All IsBounded b → All IsBounded (publish v b)
  unfolding publish
  publish-All v [] h = tt
  publish-All v (s ∷ b) (i, h) = (offer-IsBounded v s i, publish-All v b h)

  at-All :
      (n : ℕ) (f : Subscription A → Subscription A) (b : EventStream A)
      → ((s : Subscription A) → IsBounded s → IsBounded (f s))
      → All IsBounded b
      → All IsBounded (at n f b)
  unfolding at
  at-All n f [] k h = tt
  at-All zero f (s ∷ b) k (i, h) = (k s i, h)
  at-All (suc n) f (s ∷ b) k (i, h) = (i, at-All n f b k h)

  act-All : (b : EventStream A) (a : Action A) → All IsBounded b → All IsBounded (act b a)
  unfolding act
  act-All b (subscribed capacity) h = subscribe-All capacity b h
  act-All b (published v) h = publish-All v b h
  act-All b (receives n) h = at-All n (λ s. (receive s).0) b receive-IsBounded h
  act-All b (stops n) h = at-All n stop b stop-IsBounded h

  act_all-All :
      (b : EventStream A) (xs : List (Action A)) → All IsBounded b → All IsBounded (act_all b xs)
  unfolding act_all
  act_all-All b [] h = h
  act_all-All b (a ∷ xs) h = act_all-All (act b a) xs (act-All b a h)

  -- Whatever is asked of a new stream, every subscription has a capacity between 1 and 65536, and
  -- its queue holds no more than that.
  pub act_all-IsBounded : (xs : List (Action A)) → All IsBounded (act_all [] xs)
  act_all-IsBounded xs = act_all-All [] xs tt
