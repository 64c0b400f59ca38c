-- ===== src/RuntimeConfig.antt =====
-- control.go: the configuration of a runtime group: `mergeRuntimeConfig`, the rounds of
-- `UpdateRuntimeGroupConfig`, and `redactSensitiveTree`.
--
-- A decoded JSON value that is neither a list nor an object is a leaf. An object is the list of its
-- members.
pub mod Merge
pub mod Redaction
pub mod Updates
pub mod Lossless
mod Tests
use text.Mathlib.Text.{◌==◌ as str_eq}
use thalovant_go_sdk.Prelude.{
  ℕ, zero, suc, ◌+◌, ◌*◌, Bool, Option, none, some, String, List, ltb, ◌==◌, if◌then◌else◌,
}
use thalovant_go_sdk.Errors.{Err}

mutual
  pub data Value (L : Type 0) : Type 0 where
    leaf : L → Value L
    items : ConfigItems L → Value L
    object : ConfigMembers L → Value L

  pub data ConfigItems (L : Type 0) : Type 0 where
    no_items : ConfigItems L
    item : Value L → ConfigItems L → ConfigItems L

  pub data ConfigMembers (L : Type 0) : Type 0 where
    no_members : ConfigMembers L
    member : String → Value L → ConfigMembers L → ConfigMembers L

module _ {L : Type 0} where
  unfoldable pub find : ConfigMembers L → String → Option (Value L)
  find no_members k = none
  find (member j v m) k = if str_eq j k then some v else find m k

  unfoldable pub set : ConfigMembers L → String → Value L → ConfigMembers L
  set no_members k v = member k v no_members
  set (member j w m) k v =
      let rest = set m k v in if str_eq j k then member j v m else member j w rest

unfoldable mutual
  -- The loop of `mergeRuntimeConfig`: `result` so far, and the members of the delta that are left.
  pub merge_into :
      {L : Type 0} → ConfigMembers L → ConfigMembers L → ConfigMembers L → ConfigMembers L
  merge_into base result no_members = result
  merge_into base result (member k v delta) =
      merge_into base (set result k (merge_value (find base k) v)) delta

  pub merge_value : {L : Type 0} → Option (Value L) → Value L → Value L
  merge_value (some (object old)) (object next) = object (merge_into old old next)
  merge_value old v = v

unfoldable pub merge_runtime_config :
    {L : Type 0} → ConfigMembers L → ConfigMembers L → ConfigMembers L
merge_runtime_config base delta = merge_into base base delta

unfoldable mutual
  -- `is_secret` is of a key in lower case; `hidden` is the placeholder.
  pub redact : {L : Type 0} → (String → Bool) → L → Value L → Value L
  redact is_secret hidden (leaf x) = leaf x
  redact is_secret hidden (items xs) = items (redact_items is_secret hidden xs)
  redact is_secret hidden (object m) = object (redact_members is_secret hidden m)

  pub redact_items : {L : Type 0} → (String → Bool) → L → ConfigItems L → ConfigItems L
  redact_items is_secret hidden no_items = no_items
  redact_items is_secret hidden (item v xs) =
      item (redact is_secret hidden v) (redact_items is_secret hidden xs)

  pub redact_members : {L : Type 0} → (String → Bool) → L → ConfigMembers L → ConfigMembers L
  redact_members is_secret hidden no_members = no_members
  redact_members is_secret hidden (member k v m) =
      member k (if is_secret k then leaf hidden else redact is_secret hidden v)
        (redact_members is_secret hidden m)
