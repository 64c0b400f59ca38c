-- ===== src/Session/Closed.antt =====
-- A closed session, and the backoff of a session that cannot connect.
use thalovant_go_sdk.Prelude.{ℕ, suc, ◌≤◌, ◌≡◌, refl, arith, true, List, [], ◌∷◌}
use thalovant_go_sdk.Link.{HubSessionPolicy}
use thalovant_go_sdk.Link.Ladder.{IsPolicy, le-next_wait, next_wait-le}
use thalovant_go_sdk.Session.{
  HubSession, Effect, dialled, retire, back_off, hold_client, log_dial, state_change,
  new_hub_session,
}
use thalovant_go_sdk.Session.Moves.{
  Move, close_fails, closes, retires, turned, admits, marks, warms, shuts, Moves, here, next,
}
use thalovant_go_sdk.Session.Calls.{Step, run}
use thalovant_go_sdk.Session.Calls.Runs.{run-Moves}

-- How often the factory returned a client.
abbrev pub dials : List Effect → ℕ
dials [] = 0
dials (dialled c ∷ l) = suc (dials l)
dials (_ ∷ l) = dials l

pub record IsShut (n : ℕ) (s : HubSession) : Type 0 where
  pub shut : s.is_closed ≡ true
  pub dialled_before : dials s.log ≡ n

Move-IsShut : (n : ℕ) (s t : HubSession) → Move s t → IsShut n s → IsShut n t
unfolding retire back_off hold_client log_dial state_change
Move-IsShut n s t (close_fails c e q) i = ground arith
Move-IsShut n s t (closes c e q) i = ground arith
Move-IsShut n s t (retires q) i = ground arith
Move-IsShut n s t (turned v b hc hr ho q) i = ground arith
Move-IsShut n s t (admits f hc hr ho q) i = ground arith
Move-IsShut n s t (marks c e q) i = ground arith
Move-IsShut n s t (warms b q) i = ground arith
Move-IsShut n s t (shuts q) i = ground arith

Moves-IsShut : {n : ℕ} {s t : HubSession} → Moves s t → IsShut n s → IsShut n t
Moves-IsShut here i = i
Moves-IsShut {n} (next {t} {u} p m) i = Move-IsShut n t u m (Moves-IsShut p i)

-- Once a session is closed it stays closed, and the factory never returns it another client,
-- whatever it is asked to do.
pub run_closed :
    (s : HubSession) (xs : List Step)
    → s.is_closed ≡ true
    → ((run s xs).is_closed ≡ true) × (dials (run s xs).log ≡ dials s.log)
run_closed s xs h =
    let i = Moves-IsShut (run-Moves s xs) (record { shut = h; dialled_before = refl }) in
    (i.shut, i.dialled_before)

pub record IsPatient (p : HubSessionPolicy) (s : HubSession) : Type 0 where
  pub same : s.policy ≡ p
  pub least : p.retry ≤ s.retry_wait
  pub most : s.retry_wait ≤ p.retry_ceiling

Move-IsPatient :
    (p : HubSessionPolicy) (s t : HubSession)
    → IsPolicy p
    → Move s t
    → IsPatient p s
    → IsPatient p t
unfolding retire back_off hold_client log_dial state_change
Move-IsPatient p s t v (close_fails c e q) i = ground arith
Move-IsPatient p s t v (closes c e q) i = ground arith
Move-IsPatient p s t v (retires q) i = ground arith
Move-IsPatient p s t v (turned w b hc hr ho q) i =
    ground (arith, le-next_wait p s.retry_wait, next_wait-le p s.retry_wait)
Move-IsPatient p s t v (admits f hc hr ho q) i = ground arith
Move-IsPatient p s t v (marks c e q) i = ground arith
Move-IsPatient p s t v (warms b q) i = ground arith
Move-IsPatient p s t v (shuts q) i = ground arith

Moves-IsPatient :
    {p : HubSessionPolicy} {s t : HubSession}
    → IsPolicy p
    → Moves s t
    → IsPatient p s
    → IsPatient p t
Moves-IsPatient v here i = i
Moves-IsPatient {p} v (next {t} {u} q m) i = Move-IsPatient p t u v m (Moves-IsPatient v q i)

-- Under an accepted policy the wait of a new session stays between `Retry` and `RetryCeiling`,
-- whatever it is asked to do.
pub run-IsPatient :
    (p : HubSessionPolicy) (xs : List Step) → IsPolicy p → IsPatient p (run (new_hub_session p) xs)
unfolding new_hub_session
run-IsPatient p xs v =
    Moves-IsPatient v (run-Moves (new_hub_session p) xs)
      (record { same = refl; least = omega arith; most = v.ordered })
