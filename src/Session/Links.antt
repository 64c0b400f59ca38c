-- ===== src/Session/Links.antt =====
-- How many links to the hub a session has open, by its log: a client opens one when the factory
-- returns it, and a successful Close ends it.
use thalovant_go_sdk.Prelude.{ℕ, suc, ◌+◌, ◌-◌, ◌≤◌, ◌≡◌, arith, Option, none, some, List, [], ◌∷◌}
use thalovant_go_sdk.Link.{HubSessionPolicy}
use thalovant_go_sdk.Session.{
  HubSession, Effect, dialled, closed, retire, back_off, hold_client, log_dial, state_change,
  new_hub_session,
}
use thalovant_go_sdk.Session.Moves.{
  Move, close_fails, closes, retires, turned, admits, marks, warms, shuts, Moves, here, next,
}
use thalovant_go_sdk.Session.Calls.{Step, run}
use thalovant_go_sdk.Session.Calls.Runs.{run-Moves}

abbrev pub open_links : List Effect → ℕ
open_links [] = 0
open_links (dialled c ∷ l) = suc (open_links l)
open_links (closed c ∷ l) = open_links l - 1
open_links (_ ∷ l) = open_links l

-- At no time were two links open.
abbrev pub NeverTwo : List Effect → Type 0
NeverTwo [] = Unit
NeverTwo (e ∷ l) = (open_links (e ∷ l) ≤ 1) × NeverTwo l

abbrev pub held : Option ℕ → ℕ
held none = 0
held (some c) = 1

pub record IsSingle (s : HubSession) : Type 0 where
  pub counted : open_links s.log ≡ held s.client + held s.retired
  pub alone : held s.client + held s.retired ≤ 1
  pub past : NeverTwo s.log

Move-IsSingle : (s t : HubSession) → Move s t → IsSingle s → IsSingle t
unfolding retire back_off hold_client log_dial state_change
Move-IsSingle s t (close_fails c e q) i = ground arith
Move-IsSingle s t (closes c e q) i = ground arith
Move-IsSingle s t (retires q) i = ground arith
Move-IsSingle s t (turned v b hc hr ho q) i = ground arith
Move-IsSingle s t (admits f hc hr ho q) i = ground arith
Move-IsSingle s t (marks c e q) i = ground arith
Move-IsSingle s t (warms b q) i = ground arith
Move-IsSingle s t (shuts q) i = ground arith

pub Moves-IsSingle : {s t : HubSession} → Moves s t → IsSingle s → IsSingle t
Moves-IsSingle here i = i
Moves-IsSingle (next {t} {u} p m) i = Move-IsSingle t u m (Moves-IsSingle p i)

-- Whatever a new session is asked to do, and whatever the factory, the clients and the clock
-- answer, at no time are two of the clients that the factory returned open.
pub run-NeverTwo :
    (p : HubSessionPolicy) (xs : List Step) → NeverTwo (run (new_hub_session p) xs).log
unfolding new_hub_session
run-NeverTwo p xs = (Moves-IsSingle (run-Moves (new_hub_session p) xs) (ground arith)).past
