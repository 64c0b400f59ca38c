-- ===== src/Carry/Fields.antt =====
-- events.go: what each field of a carried session is.
use text.Mathlib.Text.{◌==◌ as str_eq}
use text.Mathlib.TextEquality.{eq_iff}
use thalovant_go_sdk.Prelude.{
  Bool, false, ◌||◌, Option, none, some, String, List, [], ◌∷◌, ◌≡◌, ◌∙◌, sym, ap, refl, Bool-cases,
  inl, inr, if◌then◌else◌, arith,
}
use thalovant_go_sdk.Carry.{
  Value, Session, conversation_session_fields, lookup, carried_value, carry_field, carry_fields,
  carry_conversation, kept_fields,
}

abbrev pub has_name : List String → String → Bool
has_name [] f = false
has_name (g ∷ fs) f = str_eq g f || has_name fs f

module _ {I N : Type 0} (is_zero : N → Bool) where
  -- The value of the last turn, when it is one to carry.
  abbrev pub worth : Option (Value I N) → Option (Value I N)
  worth none = none
  worth (some v) = if carried_value is_zero v then some v else none

  abbrev pub filled : Option (Value I N) → Option (Value I N) → Option (Value I N)
  filled (some v) w = some v
  filled none w = w

  lookup-carry_field :
      (previous carried : Session I N) (g f : String)
      → lookup (carry_field is_zero previous carried g) f
        ≡ filled (lookup carried f) (if str_eq g f then worth (lookup previous f) else none)
  unfolding carry_field lookup
  lookup-carry_field previous carried g f = ground (arith, eq_iff g f)

  lookup-carry_fields :
      (previous carried : Session I N) (fs : List String) (f : String)
      → lookup (carry_fields is_zero previous carried fs) f
        ≡ filled (lookup carried f) (if has_name fs f then worth (lookup previous f) else none)
  unfolding carry_fields
  lookup-carry_fields previous carried [] f = ground arith
  lookup-carry_fields previous carried (g ∷ fs) f = ground (
    arith,
    lookup-carry_field previous carried g f,
    lookup-carry_fields previous (carry_field is_zero previous carried g) fs f,
  )

  lookup-kept_fields :
      (session : Session I N) (fs : List String) (f : String)
      → lookup (kept_fields is_zero session fs) f
        ≡ (if has_name fs f then worth (lookup session f) else none)
  unfolding kept_fields lookup
  lookup-kept_fields session [] f = refl
  lookup-kept_fields session (g ∷ fs) f =
      ground (arith, eq_iff g f, lookup-kept_fields session fs f)

  -- A carried session has every field of this turn's session as it is, and of the conversation
  -- fields that it leaves out those that the last turn's session has with a value worth carrying;
  -- no other.
  pub lookup-carry_conversation :
      (previous session : Session I N) (f : String)
      → lookup (carry_conversation is_zero (some previous) session) f
        ≡ filled
            (lookup session f)
            (if has_name conversation_session_fields f then worth (lookup previous f) else none)
  unfolding carry_conversation
  lookup-carry_conversation previous session f =
      lookup-carry_fields previous session conversation_session_fields f

  worth_twice : (o : Option (Value I N)) → worth (worth o) ≡ worth o
  worth_twice none = refl
  worth_twice (some v) = ground arith

  -- To carry what was kept of a session is to carry the session: what a client remembers of the
  -- last turn is all that the next turn takes from it.
  pub carry_conversation-kept_fields :
      (previous session : Session I N) (f : String)
      → lookup
          (carry_conversation is_zero
            (some (kept_fields is_zero previous conversation_session_fields))
            session)
          f
        ≡ lookup (carry_conversation is_zero (some previous) session) f
  carry_conversation-kept_fields previous session f =
      let kept = kept_fields is_zero previous conversation_session_fields in
      lookup-carry_conversation kept session f
      ∙ ap (filled (lookup session f)) (kept_worth f)
      ∙ sym (lookup-carry_conversation previous session f)
    where
      kept_worth :
          (f : String)
          → (if has_name conversation_session_fields f
              then worth (lookup (kept_fields is_zero previous conversation_session_fields) f)
              else none)
            ≡ (if has_name conversation_session_fields f then worth (lookup previous f) else none)
      kept_worth f = elim (Bool-cases (has_name conversation_session_fields f)) [
        | inl e ↦
            rw (lookup-kept_fields previous conversation_session_fields f, e)
              (worth_twice (lookup previous f))
        | inr e ↦ rw e refl
      ]
