-- ===== src/Streams.antt =====
-- subscriptions.go: `eventStream`, the bounded streams of events that a transport hands out.
--
-- A subscription is known by its number, in the order of `subscribe`. Its queue is the buffer of the
-- channel, the oldest value first. A subscription that is not live has left the stream's entries and
-- its channel is closed; what the buffer still holds can be read.
pub mod Delivery
pub mod Bounds
mod Tests
use thalovant_go_sdk.Prelude.{
  ℕ, zero, suc, Bool, true, false, Option, none, some, List, [], ◌∷◌, ◌++◌, map, ltb, leb, length,
  if◌then◌else◌,
}
use thalovant_go_sdk.Errors.{Sentinel, err_event_overflow}

module _ (A : Type 0) where
  pub record Subscription : Type 0 where
    pub capacity : ℕ
    pub queue : List A
    pub live : Bool
    pub err : Option Sentinel

  abbrev pub EventStream : Type 0
  EventStream = List Subscription

  -- What is asked of a stream; a reader and a close name their subscription.
  pub data Action : Type 0 where
    subscribed : ℕ → Action
    published : A → Action
    receives : ℕ → Action
    stops : ℕ → Action

unfoldable pub clamp : ℕ → ℕ
clamp capacity = if leb capacity 0 then 256 else if ltb 65536 capacity then 65536 else capacity

module _ {A : Type 0} where
  unfoldable pub subscribe : ℕ → EventStream A → EventStream A
  subscribe capacity b =
      b ++ (record { capacity = clamp capacity; queue = []; live = true; err = none } ∷ [])

  -- The body of the loop of `publish`.
  unfoldable pub offer : A → Subscription A → Subscription A
  offer value s =
      if s.live
      then (if ltb (length s.queue) s.capacity
          then record s { queue = s.queue ++ (value ∷ []) }
          else record s { err = some err_event_overflow; live = false })
      else s

  unfoldable pub publish : A → EventStream A → EventStream A
  publish value b = map (offer value) b

  -- `stop`, of which a second call does nothing.
  unfoldable pub stop : Subscription A → Subscription A
  stop s = record s { live = false }

  -- A read of the channel: the value, or `none` where it would block or finds the channel closed.
  unfoldable pub receive : Subscription A → Subscription A × Option A
  receive s = elim s.queue [ [] ↦ (s, none) | x ∷ xs ↦ (record s { queue = xs }, some x) ]

  -- A change of one subscription.
  unfoldable pub at : ℕ → (Subscription A → Subscription A) → EventStream A → EventStream A
  at n f [] = []
  at zero f (s ∷ b) = f s ∷ b
  at (suc n) f (s ∷ b) = s ∷ at n f b

  unfoldable pub act : EventStream A → Action A → EventStream A
  act b (subscribed capacity) = subscribe capacity b
  act b (published value) = publish value b
  act b (receives n) = at n (λ s. (receive s).0) b
  act b (stops n) = at n stop b

  unfoldable pub act_all : EventStream A → List (Action A) → EventStream A
  act_all b [] = b
  act_all b (a ∷ xs) = act_all (act b a) xs

  unfoldable pub find : EventStream A → ℕ → Option (Subscription A)
  find [] n = none
  find (s ∷ b) zero = some s
  find (s ∷ b) (suc n) = find b n
