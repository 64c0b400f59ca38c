-- ===== src/Carry/Tests.antt =====
-- A session carried to the next turn, and the theorems about it applied.
use thalovant_go_sdk.Prelude.{ℕ, Bool, some, [], ◌∷◌, ◌≡◌, refl, ◌==◌}
use thalovant_go_sdk.Carry.{
  list, string, Session, lookup, carried_value, carry_field, carry_fields, carry_conversation,
}

abbrev is_zero : ℕ → Bool
is_zero n = n == 0

abbrev last_turn : Session ℕ ℕ
last_turn =
    ("active_skills", list (1 ∷ [])) ∷ ("response_mode", string "") ∷ ("lang", string "fr") ∷ []

abbrev this_turn : Session ℕ ℕ
this_turn = ("lang", string "en") ∷ []

carried_skills :
    lookup (carry_conversation is_zero (some last_turn) this_turn) "active_skills"
    ≡ some (list (1 ∷ []))
unfolding carry_conversation carry_fields carry_field lookup carried_value
carried_skills = refl
