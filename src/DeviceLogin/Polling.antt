-- ===== src/DeviceLogin/Polling.antt =====
-- device_login.go and control.go: how a device sign-in polls, and that it ends.
use text.Mathlib.Text.{◌==◌ as str_eq}
use text.Mathlib.TextEquality.{eq_iff}
use thalovant_go_sdk.Prelude.{
  ℕ, zero, suc, ◌+◌, ◌*◌, ◌-◌, ◌^◌, ◌≤◌, ◌<◌, Bool, false, some, String, ◌≡◌, ◌⊎◌, refl, inl, inr,
  arith, ap, Bool-cases, ◌∙◌, if◌then◌else◌, ◌==◌, ◌&&◌,
}
use thalovant_go_sdk.DeviceLogin.{
  add_duration, device_slow_down_increment, TokenAnswer, granted, undecodable, refused, unreached,
  pending, denied, expired, bad_answer, not_sent, api_error, Polled, signed_in, failed, refusal,
  device_token_once, Poll, Outcome, Round, over, sleeps, sleep_or_end, round, poll_device_token,
}

-- The polls that asked to slow down, of the first `n` after `m`.
abbrev pub is_slow_down : TokenAnswer → Bool
is_slow_down (refused status code) = status == 400 && str_eq code "slow_down"
is_slow_down _ = false

unfoldable pub slow_downs : (ℕ → Poll) → ℕ → ℕ
slow_downs polls zero = 0
slow_downs polls (suc n) = slow_downs polls n + (if is_slow_down (polls n).answer then 1 else 0)

slow_downs-le : (polls : ℕ → Poll) (n : ℕ) → slow_downs polls n ≤ n
unfolding slow_downs
slow_downs-le polls zero = omega arith
slow_downs-le polls (suc n) = ground (arith, slow_downs-le polls n)

-- A sum that does not wrap.
add_duration_lem : (a b : ℕ) → a + b < 2 ^ 63 → add_duration a b ≡ a + b
unfolding add_duration
add_duration_lem a b h = omega arith

refusal_interval :
    (interval status : ℕ) (code : String)
    → interval + device_slow_down_increment < 2 ^ 63
    → (refusal interval status code).0
      ≡ interval + (if str_eq code "slow_down" then device_slow_down_increment else 0)
unfolding refusal
refusal_interval interval status code h = elim (Bool-cases (str_eq code "authorization_pending")) [
  | inl e ↦ rw ((eq_iff code "authorization_pending").0 e) (omega arith)
  | inr e ↦ ground (arith, add_duration_lem interval device_slow_down_increment h)
]

once_interval :
    (interval : ℕ) (a : TokenAnswer)
    → interval + device_slow_down_increment < 2 ^ 63
    → (device_token_once interval a).0
      ≡ interval + (if is_slow_down a then device_slow_down_increment else 0)
unfolding device_token_once
once_interval interval (granted t) small = omega arith
once_interval interval undecodable small = omega arith
once_interval interval unreached small = omega arith
once_interval interval (refused status code) small = elim (Bool-cases (status == 400)) [
  | inl bad ↦ rw bad (refusal_interval interval status code small)
  | inr other ↦ rw other (refusal_interval interval status "" small)
]

once_pending :
    (interval w : ℕ) (a : TokenAnswer)
    → (device_token_once interval a).1 ≡ failed (pending w)
    → w ≡ (device_token_once interval a).0
unfolding device_token_once refusal
once_pending interval w (granted t) h = cc
once_pending interval w undecodable h = cc
once_pending interval w unreached h = cc
once_pending interval w (refused status code) h = ground arith

round_sleeps :
    (deadline : ℕ) (p : Poll) (r : Polled) (w : ℕ)
    → round deadline p r ≡ sleeps w
    → (v : ℕ) × (r ≡ failed (pending v))
      × (p.now + w ≤ deadline)
      × (0 < deadline - p.now)
      × (v < 2 ^ 63 → (w ≡ v) ⊎ (p.now + w ≡ deadline))
unfolding round sleep_or_end
round_sleeps deadline p (signed_in t) w h = cc
round_sleeps deadline p (failed (pending v)) w h =
    (v, refl, ground arith, ground arith, ground arith)
round_sleeps deadline p (failed denied) w h = cc
round_sleeps deadline p (failed expired) w h = cc
round_sleeps deadline p (failed bad_answer) w h = cc
round_sleeps deadline p (failed not_sent) w h = cc
round_sleeps deadline p (failed (api_error s)) w h = cc

-- The interval of the sign-in at the poll `n`.
unfoldable pub interval_at : (ℕ → Poll) → ℕ → ℕ → ℕ
interval_at polls start zero = start
interval_at polls start (suc n) = (device_token_once (interval_at polls start n) (polls n).answer).0

interval_at_lem :
    (polls : ℕ → Poll) (start n : ℕ)
    → start + device_slow_down_increment * n < 2 ^ 63
    → interval_at polls start n ≡ start + device_slow_down_increment * slow_downs polls n
unfolding interval_at slow_downs
interval_at_lem polls start zero small = omega arith
interval_at_lem polls start (suc n) small =
    let before = interval_at_lem polls start n (omega arith) in
    let room : interval_at polls start n + device_slow_down_increment < 2 ^ 63 =
      omega (arith, slow_downs-le polls n) in
    ground (arith, once_interval (interval_at polls start n) (polls n).answer room)

-- The round after the poll `n` of a sign-in.
abbrev pub round_at : ℕ → (ℕ → Poll) → ℕ → ℕ → Round
round_at deadline polls start n =
    round deadline (polls n) (device_token_once (interval_at polls start n) (polls n).answer).1

round_at_sleeps :
    (deadline : ℕ) (polls : ℕ → Poll) (start n w : ℕ)
    → start + device_slow_down_increment * suc n < 2 ^ 63
    → round_at deadline polls start n ≡ sleeps w
    → ((polls n).now < deadline)
      × ((polls n).now + w ≤ deadline)
      × ((w ≡ interval_at polls start (suc n)) ⊎ ((polls n).now + w ≡ deadline))
unfolding interval_at
round_at_sleeps deadline polls start n w small h =
    let polled = device_token_once (interval_at polls start n) (polls n).answer in
    let (v, e, most, early, least) = round_sleeps deadline (polls n) polled.1 w h in
    let same = once_pending (interval_at polls start n) v (polls n).answer e in
    let fits : interval_at polls start (suc n) < 2 ^ 63 =
      omega (arith, interval_at_lem polls start (suc n) small, slow_downs-le polls (suc n)) in
    (omega arith, most, ground (arith, least (omega (arith, fits, same))))

-- Between two polls a sign-in sleeps for the interval that it began with and five seconds more for
-- every answer so far that asked it to slow down, or until its deadline when that comes first; while
-- five seconds for every poll do not take the interval past 2^63 - 1 nanoseconds.
pub poll_interval :
    (deadline : ℕ) (polls : ℕ → Poll) (start n w : ℕ)
    → start + device_slow_down_increment * suc n < 2 ^ 63
    → round_at deadline polls start n ≡ sleeps w
    → ((polls n).now + w ≤ deadline)
      × ((w ≡ start + device_slow_down_increment * slow_downs polls (suc n))
          ⊎ ((polls n).now + w ≡ deadline))
poll_interval deadline polls start n w small h =
    let (early, most, least) = round_at_sleeps deadline polls start n w small h in
    (most, ground (arith, interval_at_lem polls start (suc n) small))

-- A clock on which a sleep lasts as long as asked at least.
unfoldable pub IsClock : ℕ → (ℕ → Poll) → ℕ → Type 0
IsClock deadline polls start =
    (n w : ℕ) → round_at deadline polls start n ≡ sleeps w → (polls n).now + w ≤ (polls (suc n)).now

-- The outcome of a sign-in is that of one of its polls, and every poll before it left it open.
pub record IsOutcomeOf (deadline : ℕ) (polls : ℕ → Poll) (start n : ℕ) (o : Outcome) : Type 0 where
  pub at : ℕ
  pub no_sooner : n ≤ at
  pub decided : round_at deadline polls start at ≡ over o
  pub undecided : (j : ℕ) → n ≤ j → j < at → (w : ℕ) × (round_at deadline polls start j ≡ sleeps w)

Round-cases : (r : Round) → ((o : Outcome) × (r ≡ over o)) ⊎ ((w : ℕ) × (r ≡ sleeps w))
Round-cases (over o) = inl (o, refl)
Round-cases (sleeps w) = inr (w, refl)

first_or_later : (n j : ℕ) → n ≤ j → (j ≡ n) ⊎ (suc n ≤ j)
first_or_later n j h = ground arith

interval_at-le :
    (polls : ℕ → Poll) (start n : ℕ)
    → start + device_slow_down_increment * n < 2 ^ 63
    → start ≤ interval_at polls start n
interval_at-le polls start n small = omega (arith, interval_at_lem polls start n small)

suc_mul : (k m : ℕ) → suc k * m ≡ m + k * m
suc_mul k m = omega arith

-- From the poll `n` on, with the interval that the sign-in has there.
poll_returns :
    (deadline : ℕ) (polls : ℕ → Poll) (start k n : ℕ)
    → start + device_slow_down_increment * (suc n + k) < 2 ^ 63
    → IsClock deadline polls start
    → deadline ≤ (polls n).now + k * start
    → (o : Outcome) × (poll_device_token deadline polls (suc k) n (interval_at polls start n)
        ≡ some o)
      × IsOutcomeOf deadline polls start n o
unfolding poll_device_token IsClock interval_at
poll_returns deadline polls start zero n small clock h =
    elim (Round-cases (round_at deadline polls start n)) [
      | inl (o, e) ↦ (
        o,
        ground arith,
        record {
          at = n;
          no_sooner = omega arith;
          decided = e;
          undecided = λ j most least. absurd (omega arith);
        },
      )
      | inr (w, e) ↦
          let (early, most, least) = round_at_sleeps deadline polls start n w (omega arith) e in
          absurd (omega arith)
    ]
poll_returns deadline polls start (suc k) n small clock h =
    elim (Round-cases (round_at deadline polls start n)) [
      | inl (o, e) ↦ (
        o,
        ground arith,
        record {
          at = n;
          no_sooner = omega arith;
          decided = e;
          undecided = λ j most least. absurd (omega arith);
        },
      )
      | inr (w, e) ↦
          let (early, most, least) = round_at_sleeps deadline polls start n w (omega arith) e in
          let later = clock n w e in
          let longer = interval_at-le polls start (suc n) (omega arith) in
          let (o, q, i) =
            poll_returns deadline polls start k (suc n) (omega arith) clock
              (ground (arith, suc_mul k start)) in
          (
            o,
            ground arith,
            record {
              at = i.at;
              no_sooner = omega (arith, i.no_sooner);
              decided = i.decided;
              undecided = λ j most least. elim (first_or_later n j most) [
                | inl same ↦ (w, ap (λ m. round_at deadline polls start m) same ∙ e)
                | inr next ↦ i.undecided j next least
              ];
            },
          )
    ]

-- When sleeps last as long as asked, and five seconds for every poll do not take the interval past
-- 2^63 - 1 nanoseconds, a sign-in ends within one poll more than the intervals that reach over its
-- time; it ends as the first poll says that leaves it open no longer.
pub poll_device_token_returns :
    (deadline : ℕ) (polls : ℕ → Poll) (start k : ℕ)
    → start + device_slow_down_increment * suc k < 2 ^ 63
    → IsClock deadline polls start
    → deadline ≤ (polls 0).now + k * start
    → (o : Outcome) × (poll_device_token deadline polls (suc k) 0 start ≡ some o)
      × IsOutcomeOf deadline polls start 0 o
unfolding interval_at
poll_device_token_returns deadline polls start k small clock h =
    poll_returns deadline polls start k 0 (omega arith) clock h
