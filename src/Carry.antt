-- ===== src/Carry.antt =====
-- events.go and client.go: the conversation fields of a session, kept from one turn
-- (`rememberConversation`) and filled in on the next (`CarryConversation`).
--
-- A decoded JSON object is an association list. The items of lists and objects, numbers, and values of
-- other types are parameters.
pub mod Fields
mod Tests
use text.Mathlib.Text.{◌==◌ as str_eq}
use thalovant_go_sdk.Prelude.{
  Bool, true, false, not, Option, none, some, String, List, [], ◌∷◌, is_some, if◌then◌else◌,
}

abbrev pub conversation_session_fields : List String
conversation_session_fields =
    "converse_handlers" ∷ "active_handlers" ∷ "active_skills" ∷ "context" ∷ "utterance_states"
    ∷ "response_mode" ∷ []

-- `I` holds what a list or an object contains, `N` the numbers.
module _ (I N : Type 0) where
  pub data Value : Type 0 where
    null : Value
    list : List I → Value
    object : List (String × I) → Value
    string : String → Value
    flag : Bool → Value
    number : N → Value
    other : I → Value

  abbrev pub Session : Type 0
  Session = List (String × Value)

module _ {I N : Type 0} where
  unfoldable pub lookup : Session I N → String → Option (Value I N)
  lookup [] f = none
  lookup ((k, v) ∷ s) f = if str_eq k f then some v else lookup s f

module _ {I N : Type 0} (is_zero : N → Bool) where
  unfoldable pub carried_value : Value I N → Bool
  carried_value null = false
  carried_value (list []) = false
  carried_value (list (x ∷ xs)) = true
  carried_value (object []) = false
  carried_value (object (x ∷ xs)) = true
  carried_value (string t) = not (str_eq t "")
  carried_value (flag b) = b
  carried_value (number n) = not (is_zero n)
  carried_value (other x) = true

  -- The body of the loop of `CarryConversation`.
  unfoldable pub carry_field : Session I N → Session I N → String → Session I N
  carry_field previous carried f =
      if is_some (lookup carried f) then carried else elim (lookup previous f) [
        | none ↦ carried
        | some v ↦ if carried_value v then (f, v) ∷ carried else carried
      ]

  unfoldable pub carry_fields : Session I N → Session I N → List String → Session I N
  carry_fields previous carried [] = carried
  carry_fields previous carried (f ∷ fs) = carry_fields previous (carry_field previous carried f) fs

  unfoldable pub carry_conversation : Option (Session I N) → Session I N → Session I N
  carry_conversation none session = session
  carry_conversation (some previous) session =
      carry_fields previous session conversation_session_fields

  -- The loop at the head of `rememberConversation`.
  unfoldable pub kept_fields : Session I N → List String → Session I N
  kept_fields session [] = []
  kept_fields session (f ∷ fs) =
      let rest = kept_fields session fs in
      elim (lookup session f) [
        | none ↦ rest
        | some v ↦ if carried_value v then (f, v) ∷ rest else rest
      ]
