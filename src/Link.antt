-- ===== src/Link.antt =====
-- session.go: the reconnect policy (HubSessionPolicy) and the LinkSupervisor.
-- A duration is a number of nanoseconds. A negative one is not represented: `Validate` and
-- `NewLinkSupervisor` treat every nonpositive duration alike. A time is a number of nanoseconds.
pub mod Ladder
pub mod History
pub mod Verdicts
mod Tests
use thalovant_go_sdk.Prelude.{
  ℕ, ◌*◌, ◌-◌, ◌/◌, Bool, true, false, ◌||◌, ltb, leb, if◌then◌else◌, List, [], ◌∷◌,
}

pub record HubSessionPolicy : Type 0 where
  pub retry : ℕ
  pub retry_ceiling : ℕ
  pub probe : ℕ
  pub probe_down : ℕ

abbrev pub second : ℕ
second = 1_000_000_000

unfoldable pub default_hub_session_policy : HubSessionPolicy
default_hub_session_policy = record {
  retry = 10 * second;
  retry_ceiling = 120 * second;
  probe = 60 * second;
  probe_down = 5 * second;
}

-- Whether `Validate` returns nil.
unfoldable pub validate : HubSessionPolicy → Bool
validate p =
    if leb p.retry 0 || ltb p.retry_ceiling p.retry || leb p.probe 0 || leb p.probe_down 0
    then false
    else true

unfoldable pub next_wait : HubSessionPolicy → ℕ → ℕ
next_wait p current = if leb (p.retry_ceiling / 2) current then p.retry_ceiling else current * 2

pub data LinkOutcome : Type 0 where
  up dropped failed refused key_changed client_key_rejected : LinkOutcome

-- `LinkDecision`: the wait belongs to `LinkRetry` and the reason to `LinkGiveUp`.
pub data LinkDecision : Type 0 where
  hold : LinkDecision
  retry : ℕ → LinkDecision
  give_up : LinkOutcome → LinkDecision

pub record LinkSupervisor : Type 0 where
  pub policy : HubSessionPolicy
  pub refusal_grace : ℕ
  pub wait : ℕ
  pub refused_since : ℕ
  pub refusing : Bool

abbrev pub default_hub_refusal_grace : ℕ
default_hub_refusal_grace = 600 * second

unfoldable pub new_link_supervisor : HubSessionPolicy → ℕ → LinkSupervisor
new_link_supervisor p grace = record {
  policy = p;
  refusal_grace = if leb grace 0 then default_hub_refusal_grace else grace;
  wait = p.retry;
  refused_since = 0;
  refusing = false;
}

-- The two lines after the switch: a step of the ladder.
unfoldable pub climb : LinkSupervisor → LinkSupervisor × LinkDecision
climb l = (record l { wait = next_wait l.policy l.wait }, retry l.wait)

-- The first refusal starts the clock.
unfoldable pub start_refusing : LinkSupervisor → ℕ → LinkSupervisor
start_refusing l now = if l.refusing then l else record l { refusing = true; refused_since = now }

-- `now.Sub(refusedSince)` is negative for an earlier `now`, and the truncated difference is 0: both
-- are below a grace, which `NewLinkSupervisor` makes positive.
unfoldable pub after_refused : LinkSupervisor → ℕ → LinkSupervisor × LinkDecision
unfolding climb
after_refused l now =
    if leb l.refusal_grace (now - l.refused_since) then (l, give_up refused) else climb l

unfoldable pub after : LinkSupervisor → LinkOutcome → ℕ → LinkSupervisor × LinkDecision
unfolding climb start_refusing after_refused
after l up now = (record l { wait = l.policy.retry; refusing = false }, hold)
after l dropped now = (l, retry 0)
after l key_changed now = (l, give_up key_changed)
after l client_key_rejected now = (l, give_up client_key_rejected)
after l refused now = after_refused (start_refusing l now) now
after l failed now = climb (record l { refusing = false })

-- The outcomes that a supervisor has been given, the last one first.
abbrev pub History : Type 0
History = List (LinkOutcome × ℕ)

-- The supervisor after a history.
unfoldable pub supervise : LinkSupervisor → History → LinkSupervisor
supervise l [] = l
supervise l ((o, now) ∷ h) = (after (supervise l h) o now).0
