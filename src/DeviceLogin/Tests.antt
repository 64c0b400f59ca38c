-- ===== src/DeviceLogin/Tests.antt =====
-- A sign-in that is asked to slow down once, and the theorems about sign-ins applied to it.
use thalovant_go_sdk.Prelude.{none, ℕ, zero, suc, ◌*◌, true, false, some, [], ◌≡◌, refl, arith}
use thalovant_go_sdk.Link.{second}
use thalovant_go_sdk.DeviceLogin.{
  max_duration, add_duration, is_negative, device_slow_down_increment, Token, TokenAnswer, granted,
  refused, refusal, device_token_once, Poll, Outcome, token, sleeps, sleep_or_end, round,
  poll_device_token,
}
use thalovant_go_sdk.DeviceLogin.Polling.{
  interval_at, round_at, IsClock, IsOutcomeOf, poll_device_token_returns,
}

abbrev fresh_token : Token
fresh_token = record {
  access_token = "t";
  token_id = "id";
  token_type = "bearer";
  scopes = [];
  expires_at = none;
}

abbrev answers : ℕ → TokenAnswer
answers zero = refused 400 "slow_down"
answers (suc zero) = refused 400 "authorization_pending"
answers (suc (suc n)) = granted fresh_token

abbrev polls : ℕ → Poll
polls n = record { answer = answers n; now = n * (20 * second); cut_short = false }

signs_in : poll_device_token (900 * second) polls 9 0 (5 * second) ≡ some (token fresh_token)
unfolding poll_device_token device_token_once refusal add_duration round sleep_or_end
signs_in = refl

second_wait : round_at (900 * second) polls (5 * second) 1 ≡ sleeps (10 * second)
unfolding device_token_once refusal add_duration round sleep_or_end interval_at
second_wait = refl

-- An interval that a grant may ask for, and one answer to slow down: the interval is negative then.
longest_wraps : is_negative (add_duration max_duration device_slow_down_increment) ≡ true
unfolding add_duration
longest_wraps = refl

-- A sign-in that nobody approves.
abbrev ignored : ℕ → Poll
ignored n = record {
  answer = refused 400 "authorization_pending";
  now = n * (5 * second);
  cut_short = false;
}

ignored_interval : (n : ℕ) → interval_at ignored (5 * second) n ≡ 5 * second
unfolding interval_at device_token_once refusal
ignored_interval zero = refl
ignored_interval (suc n) = ignored_interval n

ignored-IsClock : IsClock (20 * second) ignored (5 * second)
unfolding IsClock device_token_once refusal round sleep_or_end
ignored-IsClock n w h = ground (arith, ignored_interval n)

poll_device_token_returns_example :
    (o : Outcome) × (poll_device_token (20 * second) ignored 5 0 (5 * second) ≡ some o)
    × IsOutcomeOf (20 * second) ignored (5 * second) 0 o
poll_device_token_returns_example =
    poll_device_token_returns (20 * second) ignored (5 * second) 4 (omega arith) ignored-IsClock
      (omega arith)
