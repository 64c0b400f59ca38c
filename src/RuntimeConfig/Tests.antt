-- ===== src/RuntimeConfig/Tests.antt =====
-- control.go: a configuration merged, written and redacted, and the theorems at inputs.
use text.Mathlib.Text.{◌==◌ as str_eq}
use thalovant_go_sdk.Prelude.{
  ℕ, ◌+◌, Bool, true, none, some, String, [], ◌∷◌, ◌≡◌, refl, ◌⊎◌, ◌==◌, if◌then◌else◌, arith,
}
use thalovant_go_sdk.Errors.{err_api}
use thalovant_go_sdk.RuntimeConfig.{
  leaf, items, object, no_items, item, ConfigMembers, no_members, member, find, set, merge_into,
  merge_runtime_config, redact,
}
use thalovant_go_sdk.RuntimeConfig.Merge.{IsMap, at, misses, merge-written, merge-kept}
use thalovant_go_sdk.RuntimeConfig.Redaction.{IsRedacted, redact-IsRedacted}
use thalovant_go_sdk.RuntimeConfig.Updates.{
  ConfigAnswer, Plane, World, written, failed, read_failed, after_put, put,
  update_runtime_group_config, update_rounds, applied,
}
use thalovant_go_sdk.RuntimeConfig.Lossless.{Honest, Reported, update_runtime_group_config_lossless}

abbrev base : ConfigMembers ℕ
base =
    member "lang" (leaf 1) (
      member "tts" (object (member "voice" (leaf 2) (member "rate" (leaf 3) no_members)))
        no_members)

abbrev delta : ConfigMembers ℕ
delta = member "tts" (object (member "voice" (leaf 9) no_members)) no_members

merged_voice :
    merge_runtime_config base delta
    ≡ member "lang" (leaf 1) (
        member "tts"
          (object (member "voice" (leaf 9) (member "rate" (leaf 3) no_members)))
          no_members)
unfolding merge_runtime_config merge_into set find
merged_voice = refl

delta-IsMap : IsMap delta
unfolding IsMap find
delta-IsMap = (refl, (refl, tt, tt), tt)

merge-written_example :
    at (some (object (merge_runtime_config base delta))) ("tts" ∷ "voice" ∷ []) ≡ some (leaf 9)
unfolding at find
merge-written_example =
    merge-written base delta ("tts" ∷ "voice" ∷ []) (leaf 9) delta-IsMap refl refl

merge-kept_example :
    at (some (object (merge_runtime_config base delta))) ("tts" ∷ "rate" ∷ []) ≡ some (leaf 3)
unfolding at misses find
merge-kept_example = merge-kept base delta ("tts" ∷ "rate" ∷ []) (leaf 3) delta-IsMap refl refl

-- Somebody else writes before the second request; a revision is one more than the last.
abbrev other_config : ConfigMembers ℕ
other_config = member "lang" (leaf 7) no_members

abbrev found : ConfigAnswer
found = record { lost = none; status = 200; is_json = true; has_revision = true; has_config = true }

abbrev world : World ℕ
world = record {
  others = λ n s. if n == 1 then record { config = other_config; revision = s.revision + 1 } else s;
  gets = λ n. found;
  put_fails = λ n. none;
  revisions = λ n. 50 + n;
}

abbrev start : Plane ℕ
start = record { config = base; revision = 10 }

abbrev met : Plane ℕ
met = record { config = other_config; revision = 11 }

-- The first round meets the other write, and the second one keeps it.
second_round :
    update_runtime_group_config world delta start
    ≡ written met (record {
      config =
          member "lang"
            (leaf 7)
            (member "tts" (object (member "voice" (leaf 9) no_members)) no_members);
      revision = 51;
    })
unfolding update_runtime_group_config update_rounds read_failed put after_put applied
    merge_runtime_config merge_into set find
second_round = refl

-- A hub that is always ahead: the third conflict is returned.
third_conflict :
    update_runtime_group_config
      (record world { others = λ n s. record { config = s.config; revision = s.revision + 1 } })
      delta
      start
    ≡ failed (err_api ∷ []) (record { config = base; revision = 16 })
unfolding update_runtime_group_config update_rounds read_failed put after_put
third_conflict = refl

world-Honest : Honest world
world-Honest n s h = ground arith

update_runtime_group_config_lossless_example :
    ((before : Plane ℕ) × (after : Plane ℕ) × (update_runtime_group_config world delta start
        ≡ written before after)
      × (after.config ≡ merge_runtime_config before.config delta))
    ⊎ Reported world delta (update_runtime_group_config world delta start)
update_runtime_group_config_lossless_example =
    update_runtime_group_config_lossless world delta start world-Honest

abbrev hidden : ℕ
hidden = 0

abbrev is_secret : String → Bool
is_secret k = str_eq k "password"

redact-IsRedacted_example : IsRedacted is_secret hidden (
    redact is_secret hidden (
      items
        (item (object (member "password" (leaf 5) (member "host" (leaf 6) no_members))) no_items)))
redact-IsRedacted_example = redact-IsRedacted is_secret hidden (
    items (item (object (member "password" (leaf 5) (member "host" (leaf 6) no_members))) no_items))
