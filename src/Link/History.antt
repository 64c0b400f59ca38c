-- ===== src/Link/History.antt =====
-- The LinkSupervisor read as a function of what happened: the state and the decision follow from
-- the history of outcomes alone.
use thalovant_go_sdk.Prelude.{
  ℕ, suc, ◌-◌, ◌<◌, ◌≡◌, refl, arith, Option, none, some, [], ◌∷◌, leb, if◌then◌else◌,
}
use thalovant_go_sdk.Link.{
  HubSessionPolicy, LinkOutcome, up, dropped, failed, refused, key_changed, client_key_rejected,
  LinkDecision, hold, retry, give_up, LinkSupervisor, new_link_supervisor, after, History,
  supervise,
}
use thalovant_go_sdk.Link.Ladder.{ladder}

-- The time of the first refusal since the link was last up or the hub was last out of reach.
unfoldable pub first_refusal : History → Option ℕ
first_refusal [] = none
first_refusal ((up, t) ∷ h) = none
first_refusal ((failed, t) ∷ h) = none
first_refusal ((refused, t) ∷ h) = elim (first_refusal h) [ none ↦ some t | some s ↦ some s ]
first_refusal ((_, t) ∷ h) = first_refusal h

-- How long the hub has been refusing when it refuses at `t` after `h`.
unfoldable pub refused_for : History → ℕ → ℕ
refused_for h t = elim (first_refusal h) [ none ↦ 0 | some s ↦ t - s ]

-- The attempts since the link was last up that were put on the ladder.
unfoldable pub rung : ℕ → History → ℕ
rung grace [] = 0
rung grace ((up, t) ∷ h) = 0
rung grace ((failed, t) ∷ h) = suc (rung grace h)
rung grace ((refused, t) ∷ h) =
    if leb grace (refused_for h t) then rung grace h else suc (rung grace h)
rung grace ((_, t) ∷ h) = rung grace h

-- The decision that the rules of the component's documentation give after a history.
unfoldable pub decide : HubSessionPolicy → ℕ → History → LinkOutcome → ℕ → LinkDecision
decide p grace h up t = hold
decide p grace h dropped t = retry 0
decide p grace h key_changed t = give_up key_changed
decide p grace h client_key_rejected t = give_up client_key_rejected
decide p grace h failed t = retry (ladder p (rung grace h))
decide p grace h refused t =
    if leb grace (refused_for h t) then give_up refused else retry (ladder p (rung grace h))

-- The state that a history leads to; the clock's field is read only while refusing.
pub record Reflects (p : HubSessionPolicy) (grace : ℕ) (h : History) (l : LinkSupervisor)
    : Type 0 where
  pub policy : l.policy ≡ p
  pub grace_kept : l.refusal_grace ≡ grace
  pub wait : l.wait ≡ ladder p (rung grace h)
  pub clock : (if l.refusing then some l.refused_since else none) ≡ first_refusal h

after-Reflects :
    (p : HubSessionPolicy) (grace : ℕ) (h : History) (l : LinkSupervisor) (o : LinkOutcome) (t : ℕ)
    → 0 < grace
    → Reflects p grace h l
    → Reflects p grace ((o, t) ∷ h) (after l o t).0
unfolding after first_refusal refused_for rung ladder
after-Reflects p grace h l up t g r = ground arith
after-Reflects p grace h l refused t g r = ground arith
after-Reflects p grace h l _ t g r = ground arith

new-Reflects :
    (p : HubSessionPolicy) (grace : ℕ)
    → 0 < grace
    → Reflects p grace [] (new_link_supervisor p grace)
unfolding new_link_supervisor first_refusal rung ladder
new-Reflects p grace g = ground arith

-- After any history a new supervisor's state is the one that the history determines.
pub supervise-Reflects :
    (p : HubSessionPolicy) (grace : ℕ) (h : History)
    → 0 < grace
    → Reflects p grace h (supervise (new_link_supervisor p grace) h)
unfolding supervise
supervise-Reflects p grace [] g = new-Reflects p grace g
supervise-Reflects p grace ((o, t) ∷ h) g =
    after-Reflects p grace h (supervise (new_link_supervisor p grace) h) o t g
      (supervise-Reflects p grace h g)

after-decide :
    (p : HubSessionPolicy) (grace : ℕ) (h : History) (l : LinkSupervisor) (o : LinkOutcome) (t : ℕ)
    → 0 < grace
    → Reflects p grace h l
    → (after l o t).1 ≡ decide p grace h o t
unfolding after decide refused_for
after-decide p grace h l up t g r = refl
after-decide p grace h l refused t g r = ground arith
after-decide p grace h l _ t g r = ground arith

-- A supervisor made with a positive grace, told any history of outcomes, answers the next outcome
-- with the decision that the rules give for that history.
pub supervise-decide :
    (p : HubSessionPolicy) (grace : ℕ) (h : History) (o : LinkOutcome) (t : ℕ)
    → 0 < grace
    → (after (supervise (new_link_supervisor p grace) h) o t).1 ≡ decide p grace h o t
supervise-decide p grace h o t g =
    after-decide p grace h (supervise (new_link_supervisor p grace) h) o t g
      (supervise-Reflects p grace h g)
