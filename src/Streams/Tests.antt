-- ===== src/Streams/Tests.antt =====
-- A stream with two subscriptions, and the theorems about streams applied to it.
use thalovant_go_sdk.Prelude.{ℕ, true, false, none, some, List, [], ◌∷◌, ◌++◌, ◌≡◌, refl}
use thalovant_go_sdk.Errors.{err_event_overflow}
use thalovant_go_sdk.Streams.{
  Subscription, EventStream, Action, subscribed, published, receives, offer, publish, receive, at,
  act, act_all, find,
}
use thalovant_go_sdk.Streams.Delivery.{reads, sent, closes, act_all_complete}

abbrev fresh : ℕ → Subscription ℕ
fresh n = record { capacity = n; queue = []; live = true; err = none }

abbrev pair : EventStream ℕ
pair = fresh 2 ∷ fresh 1 ∷ []

abbrev talk : List (Action ℕ)
talk = published 7 ∷ receives 0 ∷ published 8 ∷ published 9 ∷ []

abbrev first_after : Subscription ℕ
first_after = record { capacity = 2; queue = 8 ∷ 9 ∷ []; live = true; err = none }

first_found : find (act_all pair talk) 0 ≡ some first_after
unfolding find act_all act publish offer at receive
first_found = refl

-- The second subscription is not read, and overflows at the second value.
second_overflows :
    find (act_all pair talk) 1
    ≡ some (record { capacity = 1; queue = 7 ∷ []; live = false; err = some err_event_overflow })
unfolding find act_all act publish offer at receive
second_overflows = refl

pair_first : find pair 0 ≡ some (fresh 2)
unfolding find
pair_first = refl

no_close : closes 0 talk ≡ false
unfolding closes
no_close = refl

act_all_complete_example : reads 0 (fresh 2) talk ++ first_after.queue ≡ [] ++ sent talk
act_all_complete_example =
    act_all_complete pair talk 0 (fresh 2) first_after pair_first refl no_close first_found refl

abbrev brief : List (Action ℕ)
brief = subscribed 0 ∷ published 5 ∷ receives 0 ∷ []
