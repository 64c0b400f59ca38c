-- ===== src/Deletion/Attempts.antt =====
-- connections.go: how many requests `DeleteClient` makes, and what its success means.
use thalovant_go_sdk.Prelude.{
  ℕ, suc, ◌≤◌, Bool, true, false, none, some, String, List, [], ◌∷◌, ◌≡◌, ◌≢◌, arith,
}
use thalovant_go_sdk.Deletion.{
  found, look_failed, gone, remove_failed, Api, Request, looked, removed, Ending, deleted,
  is_api_status, after_remove, current_etag, delete_loop, delete_client,
}

abbrev pub looks : List Request → ℕ
looks [] = 0
looks (looked a ∷ log) = suc (looks log)
looks (removed t a ∷ log) = looks log

abbrev pub removals : List Request → ℕ
removals [] = 0
removals (looked a ∷ log) = removals log
removals (removed t a ∷ log) = suc (removals log)

-- The last request found the connection gone: it was deleted, or it is unknown.
abbrev pub shows_gone : List Request → Bool
shows_gone [] = false
shows_gone (looked (found t) ∷ log) = false
shows_gone (looked (look_failed e) ∷ log) = is_api_status e 404
shows_gone (removed t gone ∷ log) = true
shows_gone (removed t (remove_failed e) ∷ log) = is_api_status e 404

module _ (is_blank : String → Bool) (api : Api) where
  last_round :
      (etag : String) (log : List Request) (r : Ending × List Request)
      → delete_loop is_blank api 1 1 etag log ≡ some r
      → (looks r.1 ≤ suc (looks log))
        × (removals r.1 ≤ suc (removals log))
        × (r.0 ≡ deleted → shows_gone r.1 ≡ true)
  unfolding delete_loop current_etag after_remove
  last_round etag log r h = ground arith

  last_returns : (etag : String) (log : List Request) → delete_loop is_blank api 1 1 etag log ≢ none
  unfolding delete_loop current_etag after_remove
  last_returns etag log = ground arith

  -- DeleteClient returns within two rounds, whatever the control plane answers.
  pub delete_client_returns :
      (client_id etag : String) → delete_client is_blank api 2 client_id etag ≢ none
  unfolding delete_client delete_loop current_etag after_remove
  delete_client_returns client_id etag = ground (arith, last_returns "")

  -- DeleteClient makes two reads and two deletions at most, and it returns nil only when the last
  -- answer was that the connection is deleted or unknown.
  pub delete_client_sound :
      (client_id etag : String) (r : Ending × List Request)
      → delete_client is_blank api 2 client_id etag ≡ some r
      → (looks r.1 ≤ 2) × (removals r.1 ≤ 2) × (r.0 ≡ deleted → shows_gone r.1 ≡ true)
  unfolding delete_client delete_loop current_etag after_remove
  delete_client_sound client_id etag r h = ground (arith, last_round "")
