-- ===== src/RuntimeConfig/Redaction.antt =====
-- control.go: what `redactSensitiveTree` leaves.
use thalovant_go_sdk.Prelude.{Bool, true, false, String, ◌≡◌, refl, if◌then◌else◌}
use thalovant_go_sdk.RuntimeConfig.{
  Value, leaf, items, object, ConfigItems, no_items, item, ConfigMembers, no_members, member,
  redact, redact_items, redact_members,
}

unfoldable mutual
  -- Every member with a secret key, at any depth, is the placeholder.
  pub IsRedacted : {L : Type 0} → (String → Bool) → L → Value L → Type 0
  IsRedacted is_secret hidden (leaf x) = Unit {0}
  IsRedacted is_secret hidden (items xs) = AreRedacted is_secret hidden xs
  IsRedacted is_secret hidden (object m) = HasRedacted is_secret hidden m

  pub AreRedacted : {L : Type 0} → (String → Bool) → L → ConfigItems L → Type 0
  AreRedacted is_secret hidden no_items = Unit {0}
  AreRedacted is_secret hidden (item v xs) =
      IsRedacted is_secret hidden v × AreRedacted is_secret hidden xs

  pub HasRedacted : {L : Type 0} → (String → Bool) → L → ConfigMembers L → Type 0
  HasRedacted is_secret hidden no_members = Unit {0}
  HasRedacted is_secret hidden (member k v m) =
      (is_secret k ≡ true → v ≡ leaf hidden)
      × IsRedacted is_secret hidden v
      × HasRedacted is_secret hidden m

hidden_member :
    {L : Type 0} (b : Bool) (hidden : L) (v : Value L)
    → b ≡ true
    → (if b then leaf hidden else v) ≡ leaf hidden
hidden_member true hidden v h = refl
hidden_member false hidden v h = cc

either :
    {L : Type 0} (is_secret : String → Bool) (b : Bool) (hidden : L) (v : Value L)
    → IsRedacted is_secret hidden v
    → IsRedacted is_secret hidden (if b then leaf hidden else v)
unfolding IsRedacted
either is_secret true hidden v h = tt
either is_secret false hidden v h = h

mutual
  unfolding IsRedacted redact

  value-IsRedacted :
      {L : Type 0} (is_secret : String → Bool) (hidden : L) (v : Value L)
      → IsRedacted is_secret hidden (redact is_secret hidden v)
  value-IsRedacted is_secret hidden (leaf x) = tt
  value-IsRedacted is_secret hidden (items xs) = items-AreRedacted is_secret hidden xs
  value-IsRedacted is_secret hidden (object m) = members-HasRedacted is_secret hidden m

  items-AreRedacted :
      {L : Type 0} (is_secret : String → Bool) (hidden : L) (xs : ConfigItems L)
      → AreRedacted is_secret hidden (redact_items is_secret hidden xs)
  items-AreRedacted is_secret hidden no_items = tt
  items-AreRedacted is_secret hidden (item v xs) =
      (value-IsRedacted is_secret hidden v, items-AreRedacted is_secret hidden xs)

  members-HasRedacted :
      {L : Type 0} (is_secret : String → Bool) (hidden : L) (m : ConfigMembers L)
      → HasRedacted is_secret hidden (redact_members is_secret hidden m)
  members-HasRedacted is_secret hidden no_members = tt
  members-HasRedacted is_secret hidden (member k v m) = (
    hidden_member (is_secret k) hidden (redact is_secret hidden v),
    either is_secret (is_secret k) hidden (redact is_secret hidden v)
        (value-IsRedacted is_secret hidden v),
    members-HasRedacted is_secret hidden m,
  )

-- Whatever the value, no member with a secret key, at any depth of objects and lists, is left after
-- the redaction with anything but the placeholder.
pub redact-IsRedacted :
    {L : Type 0} (is_secret : String → Bool) (hidden : L) (v : Value L)
    → IsRedacted is_secret hidden (redact is_secret hidden v)
redact-IsRedacted is_secret hidden v = value-IsRedacted is_secret hidden v
