-- ===== src/Link/Verdicts.antt =====
-- When a LinkSupervisor gives up, and how long it waits when it does not.
use thalovant_go_sdk.Prelude.{
  ℕ, ◌-◌, ◌≤◌, ◌<◌, ◌≡◌, ◌≢◌, ◌↔◌, refl, sym, ◌∙◌, arith, some, inl, inr, Option-cases,
}
use thalovant_go_sdk.Link.{
  HubSessionPolicy, LinkOutcome, dropped, refused, retry, give_up, new_link_supervisor, after,
  History, supervise,
}
use thalovant_go_sdk.Link.Ladder.{IsPolicy, ladder_bounds}
use thalovant_go_sdk.Link.History.{first_refusal, refused_for, rung, decide, supervise-decide}

decide_retry_bounds :
    (p : HubSessionPolicy) (grace : ℕ) (h : History) (o : LinkOutcome) (t w : ℕ)
    → IsPolicy p
    → o ≢ dropped
    → decide p grace h o t ≡ retry w
    → (p.retry ≤ w) × (w ≤ p.retry_ceiling)
unfolding decide
decide_retry_bounds p grace h dropped t w v d e = absurd (d refl)
decide_retry_bounds p grace h _ t w v d e = ground (arith, ladder_bounds p (rung grace h) v)

-- For an accepted policy and a positive grace, whatever happened before: a supervisor that retries
-- after anything but a dropped link waits at least `Retry` and at most `RetryCeiling`.
pub retry_wait_bounds :
    (p : HubSessionPolicy) (grace : ℕ) (h : History) (o : LinkOutcome) (t w : ℕ)
    → IsPolicy p
    → 0 < grace
    → o ≢ dropped
    → (after (supervise (new_link_supervisor p grace) h) o t).1 ≡ retry w
    → (p.retry ≤ w) × (w ≤ p.retry_ceiling)
retry_wait_bounds p grace h o t w v g d e =
    decide_retry_bounds p grace h o t w v d (sym (supervise-decide p grace h o t g) ∙ e)

decide_give_up :
    (p : HubSessionPolicy) (grace : ℕ) (h : History) (t : ℕ)
    → 0 < grace
    → (decide p grace h refused t ≡ give_up refused)
      ↔ ((s : ℕ) × (first_refusal h ≡ some s) × (grace ≤ t - s))
unfolding decide refused_for
decide_give_up p grace h t g = elim (Option-cases (first_refusal h)) [
  | inl e ↦ (ground arith, λ x. ground arith)
  | inr (s, e) ↦ (λ x. (s, e, ground arith), λ x. ground arith)
]

-- With a positive grace, after any history, a refusal at `t` ends the link exactly when an earlier
-- refusal started the clock, at some `s`, and the grace has passed since then.
pub refusal_gives_up :
    (p : HubSessionPolicy) (grace : ℕ) (h : History) (t : ℕ)
    → 0 < grace
    → ((after (supervise (new_link_supervisor p grace) h) refused t).1 ≡ give_up refused)
      ↔ ((s : ℕ) × (first_refusal h ≡ some s) × (grace ≤ t - s))
refusal_gives_up p grace h t g =
    rw (supervise-decide p grace h refused t g) (decide_give_up p grace h t g)
