-- ===== src/Admission/Tests.antt =====
-- A wait at concrete answers, and the theorems about waits applied to it.
use thalovant_go_sdk.Prelude.{ℕ, zero, suc, ◌*◌, false, some, ◌≡◌, refl, arith}
use thalovant_go_sdk.Admission.{
  OperationStatus, applied, ready, Answer, operation, api_error, Poll, Verdict, admitted, wait,
  read_operation, read_too_many, read_error, read_answer, nap, round, wait_loop,
}
use thalovant_go_sdk.Admission.Endings.{IsClock, wait_loop_returns}
use thalovant_go_sdk.Admission.Verdicts.{Admits, IsVerdictOf, wait_loop-Admits}

abbrev operation_in : OperationStatus → Answer
operation_in s = operation (record {
  id = "op1";
  self_link = "/v1/operations/op1";
  status = s;
  error_code = "";
  error_message = "";
})

abbrev answered : ℕ → Answer
answered zero = operation_in applied
answered (suc zero) = api_error 429 7
answered (suc (suc zero)) = api_error 503 0
answered _ = operation_in ready

-- The clock of the reads, with sleeps of 5, 7 and 5.
abbrev polls : ℕ → Poll
polls n = record {
  answer = answered n;
  ctx_err = false;
  wait_over = false;
  now = n * 7;
  later = n * 7;
  cut_short = false;
}

polls_admit : wait_loop 5 100 polls 9 0 ≡ some admitted
unfolding wait_loop round read_answer read_operation read_error read_too_many nap
polls_admit = refl

wait_loop-Admits_example :
    (i : IsVerdictOf 5 100 polls 0 admitted) × Admits (polls i.at).answer
    × ((polls i.at).ctx_err ≡ false)
    × ((polls i.at).wait_over ≡ false)
wait_loop-Admits_example = wait_loop-Admits 5 100 polls 9 0 polls_admit

-- Reads that find an applied operation each time, 5 apart.
abbrev slow_polls : ℕ → Poll
slow_polls n = record {
  answer = operation_in applied;
  ctx_err = false;
  wait_over = false;
  now = n * 5;
  later = n * 5;
  cut_short = false;
}

slow_polls-IsClock : IsClock 5 20 slow_polls
unfolding IsClock round read_answer read_operation nap
slow_polls-IsClock n w h = ground arith

wait_loop_returns_example : (v : Verdict) × (wait_loop 5 20 slow_polls 5 0 ≡ some v)
wait_loop_returns_example = wait_loop_returns 5 20 slow_polls 4 0 slow_polls-IsClock (omega arith)

first_round : round 5 100 (polls 0) ≡ wait 5
unfolding round read_answer read_operation nap
first_round = refl
