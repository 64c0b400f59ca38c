-- ===== src/Session/Watchers.antt =====
-- What the watchers of a session are told, and when its relay passes events on.
use thalovant_go_sdk.Prelude.{
  ◌≡◌, arith, Bool, true, false, none, some, List, [], ◌∷◌, is_some, if◌then◌else◌,
}
use thalovant_go_sdk.Link.{HubSessionPolicy}
use thalovant_go_sdk.Session.{
  HubSession, Effect, notified, retire, back_off, hold_client, log_dial, state_change,
  new_hub_session, bool_eq,
}
use thalovant_go_sdk.Session.Moves.{
  Move, close_fails, closes, retires, turned, admits, marks, warms, shuts, Moves, here, next,
}
use thalovant_go_sdk.Session.Calls.{Step, run}
use thalovant_go_sdk.Session.Calls.Runs.{run-Moves}

-- What the watchers were told last; a session begins with its link down.
abbrev pub last_told : List Effect → Bool
last_told [] = false
last_told (notified b ∷ l) = b
last_told (_ ∷ l) = last_told l

-- Each notification differs from the one before.
abbrev pub Alternates : List Effect → Type 0
Alternates [] = Unit
Alternates (notified b ∷ l) = (bool_eq (last_told l) b ≡ false) × Alternates l
Alternates (_ ∷ l) = Alternates l

pub record IsTold (s : HubSession) : Type 0 where
  pub told : last_told s.log ≡ s.up
  pub turns : Alternates s.log
  pub lit : s.up ≡ true → is_some s.client ≡ true
  pub relayed : s.relay ≡ (if is_some s.client then some s.generation else none)

Move-IsTold : (s t : HubSession) → Move s t → IsTold s → IsTold t
unfolding retire back_off hold_client log_dial state_change
Move-IsTold s t (close_fails c e q) i = ground arith
Move-IsTold s t (closes c e q) i = ground arith
Move-IsTold s t (retires q) i = ground arith
Move-IsTold s t (turned v b hc hr ho q) i = ground arith
Move-IsTold s t (admits f hc hr ho q) i = ground arith
Move-IsTold s t (marks c e q) i = ground arith
Move-IsTold s t (warms b q) i = ground arith
Move-IsTold s t (shuts q) i = ground arith

pub Moves-IsTold : {s t : HubSession} → Moves s t → IsTold s → IsTold t
Moves-IsTold here i = i
Moves-IsTold (next {t} {u} p m) i = Move-IsTold t u m (Moves-IsTold p i)

-- Whatever a new session is asked to do, its watchers are told in turn that the link is up and that
-- it is down, beginning with up; what they were told last is the session's state; an up session
-- holds a client; and the open relay is the one of the client held, under its generation.
pub run-IsTold : (p : HubSessionPolicy) (xs : List Step) → IsTold (run (new_hub_session p) xs)
unfolding new_hub_session
run-IsTold p xs = Moves-IsTold (run-Moves (new_hub_session p) xs) (ground arith)
