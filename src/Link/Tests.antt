-- ===== src/Link/Tests.antt =====
-- The supervisor's theorems at the default policy and a short history.
use thalovant_go_sdk.Prelude.{◌*◌, ◌≡◌, refl, arith, [], ◌∷◌}
use thalovant_go_sdk.Link.{
  dropped, failed, refused, retry, default_hub_session_policy, default_hub_refusal_grace,
  new_link_supervisor, after, History, supervise, second, next_wait,
}
use thalovant_go_sdk.Link.Ladder.{IsPolicy}
use thalovant_go_sdk.Link.History.{decide, supervise-decide}

default-IsPolicy : IsPolicy default_hub_session_policy
unfolding default_hub_session_policy
default-IsPolicy = record {
  retry_pos = omega arith;
  ordered = omega arith;
  probe_pos = omega arith;
  probe_down_pos = omega arith;
}

-- A refusal, a drop and another refusal 600 seconds later.
abbrev refused_twice : History
refused_twice = (dropped, 5 * second) ∷ (refused, 1 * second) ∷ []

supervise-decide_example :
    (after
      (supervise
        (new_link_supervisor default_hub_session_policy default_hub_refusal_grace)
        refused_twice)
      refused
      (601 * second)).1
    ≡ decide default_hub_session_policy default_hub_refusal_grace refused_twice refused
        (601 * second)
supervise-decide_example =
    supervise-decide default_hub_session_policy default_hub_refusal_grace refused_twice refused
      (601 * second) (omega arith)

second_failure_waits :
    (after
      (supervise
        (new_link_supervisor default_hub_session_policy default_hub_refusal_grace)
        ((failed, 0) ∷ []))
      failed
      second).1
    ≡ retry (20 * second)
unfolding after supervise new_link_supervisor default_hub_session_policy next_wait
second_failure_waits = refl
