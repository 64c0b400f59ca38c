-- ===== src/Telemetry/Spans.antt =====
-- transport.go: what the times of a connection say.
use thalovant_go_sdk.Prelude.{ℕ, Bool, ◌+◌, ◌≤◌, ◌<◌, arith}
use thalovant_go_sdk.Telemetry.{ConnectionTelemetry, elapsed, begin, mark_open, complete}

-- Of a connection that begins, opens and completes at rising times, the time to connect is the time
-- to open and the time of the handshake, to the microsecond.
pub complete_spans :
    (c : ConnectionTelemetry) (start open_at now : ℕ) (socket : Bool)
    → 0 < start
    → start ≤ open_at
    → open_at ≤ now
    → let info = (complete now (mark_open open_at socket (begin start c))).info in
      (info.transport_open + info.handshake_time ≤ info.connect_time)
      × (info.connect_time ≤ info.transport_open + info.handshake_time + 1)
unfolding elapsed begin mark_open complete
complete_spans c start open_at now socket h k l = ground arith
