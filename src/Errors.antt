-- ===== src/Errors.antt =====
-- errors.go: the sentinel errors that a decision reads by errors.Is. An error is the list of the
-- sentinels in its tree, so wrapping with %w and errors.Join are concatenation; other text is not
-- kept. `none` is the nil error.
use thalovant_go_sdk.Prelude.{ℕ, Bool, false, ◌||◌, List, [], ◌∷◌, ◌==◌}

pub data Sentinel : Type 0 where
  err_connection err_timeout err_runtime err_api err_identity err_hub_refused err_hub_key_changed
        err_client_key_rejected err_event_overflow context_done other_error :
      Sentinel

abbrev pub rank : Sentinel → ℕ
rank err_connection = 0
rank err_timeout = 1
rank err_runtime = 2
rank err_api = 3
rank err_identity = 4
rank err_hub_refused = 5
rank err_hub_key_changed = 6
rank err_client_key_rejected = 7
rank err_event_overflow = 8
rank context_done = 9
rank other_error = 10

abbrev pub Err : Type 0
Err = List Sentinel

abbrev pub sentinel_eq : Sentinel → Sentinel → Bool
sentinel_eq a b = rank a == rank b

-- errors.Is
abbrev pub is : Err → Sentinel → Bool
is [] k = false
is (x ∷ e) k = sentinel_eq x k || is e k
