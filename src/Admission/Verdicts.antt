-- ===== src/Admission/Verdicts.antt =====
-- connections.go: what the verdicts of `WaitForAdmission` say of the reads.
use thalovant_go_sdk.Prelude.{
  ℕ, zero, suc, ◌≤◌, ◌<◌, false, some, ◌≡◌, ◌⊎◌, ap, ◌∙◌, inl, inr, arith,
}
use thalovant_go_sdk.Admission.{
  OperationResource, OperationStatus, ready, failed, timed_out, Answer, operation, api_error,
  unreached, Poll, Verdict, admitted, admission_failed, verdict, wait, read_operation,
  read_too_many, read_error, read_answer, nap, round, wait_loop,
}
use thalovant_go_sdk.Admission.Endings.{Read-cases}

-- The answers that admit: a ready operation, or one that the API no longer tracks.
pub data Admits : Answer → Type 0 where
  is_ready : (o : OperationResource) → o.status ≡ ready → Admits (operation o)
  untracked : (retry_after : ℕ) → Admits (api_error 404 retry_after)

-- The operations that fail.
pub HasFailed : OperationResource → Type 0
HasFailed o = (o.status ≡ failed) ⊎ (o.status ≡ timed_out)

read_operation_verdict :
    (interval : ℕ) (o : OperationResource) (s : OperationStatus)
    → (read_operation interval o s ≡ verdict admitted → s ≡ ready)
      × ((f : OperationResource)
          → read_operation interval o s ≡ verdict (admission_failed f)
          → (f ≡ o) × ((s ≡ failed) ⊎ (s ≡ timed_out)))
unfolding read_operation
read_operation_verdict interval o s = ground arith

read_answer-Admits :
    (interval deadline : ℕ) (p : Poll) (a : Answer)
    → read_answer interval deadline p a ≡ verdict admitted
    → Admits a
unfolding read_answer read_error read_too_many
read_answer-Admits interval deadline p (operation o) h =
    is_ready o ((read_operation_verdict interval o o.status).0 h)
read_answer-Admits interval deadline p (api_error status retry_after) h =
    let e : status ≡ 404 = ground arith in rw e (untracked retry_after)
read_answer-Admits interval deadline p (unreached e) h = cc

round-Admits :
    (interval deadline : ℕ) (p : Poll)
    → round interval deadline p ≡ verdict admitted
    → Admits p.answer × (p.ctx_err ≡ false) × (p.wait_over ≡ false)
unfolding round nap
round-Admits interval deadline p h =
    (read_answer-Admits interval deadline p p.answer (ground arith), ground arith, ground arith)

-- The verdict of a wait is the verdict of one of its reads, and every read before it was none.
pub record IsVerdictOf (interval deadline : ℕ) (polls : ℕ → Poll) (n : ℕ) (v : Verdict)
    : Type 0 where
  pub at : ℕ
  pub no_sooner : n ≤ at
  pub decided : round interval deadline (polls at) ≡ verdict v
  pub undecided : (j : ℕ) → n ≤ j → j < at → (w : ℕ) × (round interval deadline (polls j) ≡ wait w)

first_or_later : (n j : ℕ) → n ≤ j → (j ≡ n) ⊎ (suc n ≤ j)
first_or_later n j h = ground arith

wait_loop-IsVerdictOf :
    (interval deadline : ℕ) (polls : ℕ → Poll) (fuel n : ℕ) (v : Verdict)
    → wait_loop interval deadline polls fuel n ≡ some v
    → IsVerdictOf interval deadline polls n v
unfolding wait_loop
wait_loop-IsVerdictOf interval deadline polls zero n v h = cc
wait_loop-IsVerdictOf interval deadline polls (suc fuel) n v h =
    elim (Read-cases (round interval deadline (polls n))) [
      | inl (u, e) ↦ record {
        at = n;
        no_sooner = omega arith;
        decided = ground arith;
        undecided = λ j most least. absurd (omega arith);
      }
      | inr (w, e) ↦
          let i = wait_loop-IsVerdictOf interval deadline polls fuel (suc n) v (ground arith) in
          record {
            at = i.at;
            no_sooner = omega (arith, i.no_sooner);
            decided = i.decided;
            undecided = λ j most least. elim (first_or_later n j most) [
              | inl same ↦ (w, ap (λ k. round interval deadline (polls k)) same ∙ e)
              | inr next ↦ i.undecided j next least
            ];
          }
    ]

-- When the wait reports that the hub admitted the connection, one of its reads said so, by a ready
-- operation or one that the API no longer tracks, while neither the caller's context nor the wait's
-- own had ended; and every read before it left the matter open.
pub wait_loop-Admits :
    (interval deadline : ℕ) (polls : ℕ → Poll) (fuel n : ℕ)
    → wait_loop interval deadline polls fuel n ≡ some admitted
    → (i : IsVerdictOf interval deadline polls n admitted) × Admits (polls i.at).answer
      × ((polls i.at).ctx_err ≡ false)
      × ((polls i.at).wait_over ≡ false)
wait_loop-Admits interval deadline polls fuel n h =
    let i = wait_loop-IsVerdictOf interval deadline polls fuel n admitted h in
    let (a, c, w) = round-Admits interval deadline (polls i.at) i.decided in (i, a, c, w)
