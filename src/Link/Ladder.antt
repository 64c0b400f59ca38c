-- ===== src/Link/Ladder.antt =====
-- The retry ladder of a HubSessionPolicy: `NextWait` iterated from the policy's `Retry`.
use thalovant_go_sdk.Prelude.{
  ℕ, zero, suc, ◌*◌, ◌^◌, ◌≤◌, ◌<◌, ◌≡◌, refl, arith, true, Bool-cases, inl, inr, ltb, ltb→lt,
}
use native.Mathlib.Nat.{pow-suc}
use thalovant_go_sdk.Link.{HubSessionPolicy, validate, next_wait}

-- What `Validate` accepts.
pub record IsPolicy (p : HubSessionPolicy) : Type 0 where
  pub retry_pos : 0 < p.retry
  pub ordered : p.retry ≤ p.retry_ceiling
  pub probe_pos : 0 < p.probe
  pub probe_down_pos : 0 < p.probe_down

pub validate-IsPolicy : (p : HubSessionPolicy) → validate p ≡ true → IsPolicy p
unfolding validate
validate-IsPolicy p h = ground arith

pub IsPolicy-validate : (p : HubSessionPolicy) → IsPolicy p → validate p ≡ true
unfolding validate
IsPolicy-validate p h = ground arith

-- The wait after `n` steps.
unfoldable pub ladder : HubSessionPolicy → ℕ → ℕ
ladder p zero = p.retry
ladder p (suc n) = next_wait p (ladder p n)

pub next_wait-le : (p : HubSessionPolicy) (c : ℕ) → next_wait p c ≤ p.retry_ceiling
unfolding next_wait
next_wait-le p c = ground arith

pub le-next_wait : (p : HubSessionPolicy) (c : ℕ) → c ≤ p.retry_ceiling → c ≤ next_wait p c
unfolding next_wait
le-next_wait p c h = ground arith

pub next_wait_double :
    (p : HubSessionPolicy) (c : ℕ) → next_wait p c < p.retry_ceiling → next_wait p c ≡ c * 2
unfolding next_wait
next_wait_double p c h = ground arith

pub ladder_bounds :
    (p : HubSessionPolicy) (n : ℕ)
    → IsPolicy p
    → (p.retry ≤ ladder p n) × (ladder p n ≤ p.retry_ceiling)
unfolding ladder
ladder_bounds p zero v = (omega arith, v.ordered)
ladder_bounds p (suc n) v =
    let ih = ladder_bounds p n v in
    (omega (arith, le-next_wait p (ladder p n) ih.1), next_wait-le p (ladder p n))

pub ladder_mono : (p : HubSessionPolicy) (n : ℕ) → IsPolicy p → ladder p n ≤ ladder p (suc n)
unfolding ladder
ladder_mono p n v = le-next_wait p (ladder p n) (ladder_bounds p n v).1

pow_suc_double : (r n : ℕ) → r * 2 ^ suc n ≡ r * 2 ^ n * 2
pow_suc_double r n = rw pow-suc (omega arith)

next_wait_full :
    (p : HubSessionPolicy) (c : ℕ) → p.retry_ceiling ≤ c * 2 → next_wait p c ≡ p.retry_ceiling
unfolding next_wait
next_wait_full p c h = ground arith

ladder_below :
    (p : HubSessionPolicy) (n : ℕ)
    → IsPolicy p
    → ladder p n < p.retry_ceiling
    → ladder p n ≡ p.retry * 2 ^ n
ladder_below p zero v h = unfold ladder in omega arith
ladder_below p (suc n) v h =
    let step : ladder p (suc n) ≡ next_wait p (ladder p n) = unfold ladder in refl in
    omega (
      arith,
      step,
      ladder_below p n v (omega (arith, ladder_mono p n v)),
      next_wait_double p (ladder p n),
      pow_suc_double p.retry n,
    )

-- The wait after `n` steps is `Retry` doubled `n` times while it stays below the ceiling, and it is
-- the ceiling from the step on at which that product reaches the ceiling, for an accepted policy.
pub ladder_exact :
    (p : HubSessionPolicy) (n : ℕ)
    → IsPolicy p
    → (ladder p n < p.retry_ceiling → ladder p n ≡ p.retry * 2 ^ n)
      × (p.retry_ceiling ≤ p.retry * 2 ^ n → ladder p n ≡ p.retry_ceiling)
ladder_exact p n v = (ladder_below p n v, λ h. ladder_full (ladder_bounds p n v).1 h)
  where
    ladder_full :
        ladder p n ≤ p.retry_ceiling
        → p.retry_ceiling ≤ p.retry * 2 ^ n
        → ladder p n ≡ p.retry_ceiling
    ladder_full b h = elim (Bool-cases (ltb (ladder p n) p.retry_ceiling)) [
      | inl lt ↦ omega (arith, ladder_below p n v (ltb→lt _ _ lt))
      | inr ge ↦ ground arith
    ]
