-- ===== src/Deletion.antt =====
-- connections.go: `DeleteClient`, the deletion of a connection under its etag.
--
-- The control plane's answers are the record `Api`, by the number of the attempt. The log holds the
-- requests that were answered with their answers, the last one first. A resource without an etag has
-- the etag "". The function that tests for a blank string is a parameter.
pub mod Attempts
mod Tests
use thalovant_go_sdk.Prelude.{
  ℕ, zero, suc, Bool, true, false, ◌&&◌, Option, none, some, String, List, [], ◌∷◌, ◌==◌,
  if◌then◌else◌,
}

-- An error of a request: an APIError with its status, or another.
pub data ApiErr : Type 0 where
  api_status : ℕ → ApiErr
  other : ApiErr

pub data Looked : Type 0 where
  found : String → Looked
  look_failed : ApiErr → Looked

pub data Removed : Type 0 where
  gone : Removed
  remove_failed : ApiErr → Removed

pub record Api : Type 0 where
  pub look : ℕ → Looked
  pub remove : ℕ → String → Removed

pub data Request : Type 0 where
  looked : Looked → Request
  removed : String → Removed → Request

-- nil, or an error by its kind.
pub data Ending : Type 0 where
  deleted no_id missing_etag : Ending
  failed_with : ApiErr → Ending

unfoldable pub is_api_status : ApiErr → ℕ → Bool
is_api_status (api_status n) status = n == status
is_api_status other status = false

-- The etag to send, or the end.
pub data Tagged : Type 0 where
  tagged : String → Tagged
  over : Ending → Tagged

-- What follows a deletion: the end, or another attempt.
pub data Next : Type 0 where
  ends : Ending → Next
  again : Next

unfoldable pub after_remove : ℕ → Removed → Next
unfolding is_api_status
after_remove attempt gone = ends deleted
after_remove attempt (remove_failed e) =
    if is_api_status e 404
    then ends deleted
    else if attempt == 0 && is_api_status e 412
    then again
    else ends (failed_with e)

module _ (is_blank : String → Bool) (api : Api) where
  tag_of : Looked → Tagged
  unfolding is_api_status
  tag_of (found etag) = if is_blank etag then over missing_etag else tagged etag
  tag_of (look_failed e) = if is_api_status e 404 then over deleted else over (failed_with e)

  unfoldable pub current_etag : ℕ → String → List Request → Tagged × List Request
  unfolding tag_of
  current_etag attempt etag log =
      if is_blank etag
      then (tag_of (api.look attempt), looked (api.look attempt) ∷ log)
      else (tagged etag, log)

  -- The loop; `none` when the fuel is out.
  unfoldable pub delete_loop : ℕ → ℕ → String → List Request → Option (Ending × List Request)
  delete_loop zero attempt etag log = none
  delete_loop (suc fuel) attempt etag log =
      let (t, seen) = current_etag attempt etag log in
      elim t [
        | over e ↦ some (e, seen)
        | tagged tag ↦
            let answer = api.remove attempt tag in
            let more = delete_loop fuel (suc attempt) "" (removed tag answer ∷ seen) in
            elim (after_remove attempt answer) [
              | ends e ↦ some (e, removed tag answer ∷ seen)
              | again ↦ more
            ]
      ]

  unfoldable pub delete_client : ℕ → String → String → Option (Ending × List Request)
  delete_client fuel client_id etag =
      if is_blank client_id then some (no_id, []) else delete_loop fuel 0 etag []
