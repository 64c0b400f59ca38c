-- ===== src/Routing.antt =====
-- client.go: `Reply`, `replyTo` and `ReplyContext`, the context of an answer to an event.
--
-- A context is an association list in which the first entry for a key counts. A value is null, a list,
-- or another value, whose content is a parameter. Values do not change, so a deep copy of one is the
-- value itself.
pub mod Turns
mod Tests
use text.Mathlib.Text.{◌==◌ as str_eq}
use thalovant_go_sdk.Prelude.{
  Bool, true, false, Option, none, some, String, List, [], ◌∷◌, ◌++◌, if◌then◌else◌,
}

module _ (A : Type 0) where
  mutual
    pub data Value : Type 0 where
      null : Value
      items : Values → Value
      other : A → Value

    pub data Values : Type 0 where
      no_more : Values
      entry : Value → Values → Values

  abbrev pub Context : Type 0
  Context = List (String × Value)

module _ {A : Type 0} where
  unfoldable pub lookup : Context A → String → Option (Value A)
  lookup [] k = none
  lookup ((j, v) ∷ m) k = if str_eq j k then some v else lookup m k

  -- `m[k]`, nil for a missing key
  unfoldable pub get : Context A → String → Value A
  get m k = elim (lookup m k) [ none ↦ null | some v ↦ v ]

  unfoldable pub delete : Context A → String → Context A
  delete [] k = []
  delete ((j, v) ∷ m) k = let rest = delete m k in if str_eq j k then rest else (j, v) ∷ rest

  abbrev pub is_nil : Value A → Bool
  is_nil null = true
  is_nil _ = false

  -- The first entry of a list that has one, or the value itself.
  abbrev pub first_of : Value A → Value A
  first_of (items (entry v vs)) = v
  first_of v = v

  unfoldable pub turn_source : Context A → Value A → Context A
  turn_source m destination = if is_nil destination then m else ("source", first_of destination) ∷ m

  unfoldable pub turn_destination : Context A → Value A → Value A → Context A
  turn_destination m source destination =
      if is_nil source
      then (if is_nil destination then m else delete m "destination")
      else ("destination", source) ∷ m

  unfoldable pub reply_context : Context A → Context A
  reply_context m =
      turn_destination (turn_source m (get m "destination")) (get m "source") (get m "destination")

  -- The caller's entries are laid over the event's.
  unfoldable pub reply_to : Context A → Context A → Context A
  reply_to event_context entries = reply_context (entries ++ event_context)

  -- `Reply`: the type and the context to emit, or an error. `trim` is `strings.TrimSpace`.
  unfoldable pub reply :
      (String → String) → Context A → String → Context A → Option (String × Context A)
  reply trim event_context msg_type entries =
      if str_eq (trim msg_type) ""
      then none
      else some (trim msg_type, reply_to event_context entries)
