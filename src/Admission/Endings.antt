-- ===== src/Admission/Endings.antt =====
-- connections.go: `WaitForAdmission` ends, and how long its sleeps are.
use thalovant_go_sdk.Prelude.{
  ℕ, zero, suc, ◌+◌, ◌*◌, ◌≤◌, ◌<◌, some, ◌≡◌, ◌⊎◌, refl, inl, inr, arith,
}
use thalovant_go_sdk.Admission.{
  Answer, operation, api_error, unreached, Poll, Verdict, Read, verdict, wait, read_operation,
  read_too_many, read_error, read_answer, nap, round, wait_loop,
}

read_answer_wait :
    (interval deadline : ℕ) (p : Poll) (a : Answer) (w : ℕ)
    → read_answer interval deadline p a ≡ wait w
    → interval ≤ w
unfolding read_answer read_operation read_error read_too_many
read_answer_wait interval deadline p (operation o) w h = ground arith
read_answer_wait interval deadline p (api_error status retry_after) w h = ground arith
read_answer_wait interval deadline p (unreached e) w h = cc

nap_wait :
    (interval deadline : ℕ) (p : Poll) (r : Read) (w : ℕ)
    → ((v : ℕ) → r ≡ wait v → interval ≤ v)
    → nap deadline p r ≡ wait w
    → (p.later < deadline) × (p.later + w ≤ deadline) × ((interval ≤ w) ⊎ (p.later + w ≡ deadline))
unfolding nap
nap_wait interval deadline p (verdict v) w long h = cc
nap_wait interval deadline p (wait v) w long h = ground (arith, long v refl)

-- A sleep between two reads does not go past the deadline, and it lasts the poll interval at least
-- unless it lasts until the deadline.
pub round_wait :
    (interval deadline : ℕ) (p : Poll) (w : ℕ)
    → round interval deadline p ≡ wait w
    → (p.later < deadline) × (p.later + w ≤ deadline) × ((interval ≤ w) ⊎ (p.later + w ≡ deadline))
unfolding round
round_wait interval deadline p w h =
    nap_wait interval deadline p (read_answer interval deadline p p.answer) w
      (λ v. read_answer_wait interval deadline p p.answer v) (ground arith)

pub Read-cases : (r : Read) → ((v : Verdict) × (r ≡ verdict v)) ⊎ ((w : ℕ) × (r ≡ wait w))
Read-cases (verdict v) = inl (v, refl)
Read-cases (wait w) = inr (w, refl)

-- A clock on which a sleep of `w` lasts `w` at least.
unfoldable pub IsClock : ℕ → ℕ → (ℕ → Poll) → Type 0
IsClock interval deadline polls =
    (n w : ℕ)
    → round interval deadline (polls n) ≡ wait w
    → (polls n).later + w ≤ (polls (suc n)).later

suc_mul : (k m : ℕ) → suc k * m ≡ m + k * m
suc_mul k m = omega arith

-- When sleeps last as long as asked, the wait ends: within one read more than the poll intervals
-- that reach over the time left.
pub wait_loop_returns :
    (interval deadline : ℕ) (polls : ℕ → Poll) (k n : ℕ)
    → IsClock interval deadline polls
    → deadline ≤ (polls n).later + k * interval
    → (v : Verdict) × (wait_loop interval deadline polls (suc k) n ≡ some v)
unfolding wait_loop IsClock
wait_loop_returns interval deadline polls zero n clock h =
    elim (Read-cases (round interval deadline (polls n))) [
      | inl (v, e) ↦ (v, ground arith)
      | inr (w, e) ↦
          let (early, most, least) = round_wait interval deadline (polls n) w e in
          absurd (omega arith)
    ]
wait_loop_returns interval deadline polls (suc k) n clock h =
    elim (Read-cases (round interval deadline (polls n))) [
      | inl (v, e) ↦ (v, ground arith)
      | inr (w, e) ↦
          let (early, most, least) = round_wait interval deadline (polls n) w e in
          let later = clock n w e in
          let (v, q) =
            wait_loop_returns interval deadline polls k (suc n) clock
              (ground (arith, suc_mul k interval)) in
          (v, ground arith)
    ]
