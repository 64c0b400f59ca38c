-- ===== src/Client/Ownership.antt =====
-- client.go: when a client's transport is connected, and when it is torn down.
use thalovant_go_sdk.Prelude.{true, false, none, is_some, ◌≡◌, ◌⊎◌, arith}
use thalovant_go_sdk.Client.{Dialing, dial_err, connect_work, connect}

-- When Connect returns nil, it had the gate, its deadline had not passed, one of its health checks
-- found the transport ready, and its worker does not disconnect it; and when the worker disconnects
-- the transport, Connect returns an error.
pub connect_result :
    (d : Dialing)
    → ((connect d).result ≡ none
        → (d.at_gate ≡ none)
          × (d.late_caller ≡ false)
          × ((d.ready_before ≡ true) ⊎ (d.ready_after ≡ true))
          × ((connect d).disconnects ≡ false))
      × ((connect d).disconnects ≡ true → is_some (connect d).result ≡ true)
unfolding connect connect_work dial_err
connect_result d = ground arith
