-- ===== src/Deletion/Tests.antt =====
-- A deletion whose etag was changed meanwhile, and the theorems about deletions applied to it.
use text.Mathlib.Text.{◌==◌ as str_eq}
use thalovant_go_sdk.Prelude.{ℕ, zero, suc, Bool, some, String, List, [], ◌∷◌, ◌≡◌, refl}
use thalovant_go_sdk.Deletion.{
  api_status, found, Removed, gone, remove_failed, Api, Request, looked, removed, Ending, deleted,
  is_api_status, after_remove, current_etag, delete_loop, delete_client,
}

abbrev is_empty : String → Bool
is_empty t = str_eq t ""

abbrev answer_to : ℕ → Removed
answer_to zero = remove_failed (api_status 412)
answer_to (suc n) = gone

abbrev changed : Api
changed = record { look = λ n. found "new"; remove = λ n t. answer_to n }

abbrev retried : Ending × List Request
retried = (
  deleted,
  removed "new" gone ∷ looked (found "new") ∷ removed "old" (remove_failed (api_status 412)) ∷ [],
)

changed_deleted : delete_client is_empty changed 2 "c1" "old" ≡ some retried
unfolding delete_client delete_loop current_etag after_remove is_api_status
changed_deleted = refl
