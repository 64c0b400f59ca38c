-- ===== src/Telemetry/Tests.antt =====
-- transport.go: the times of a connection that opens after 1 ms and is ready after 8.
use thalovant_go_sdk.Prelude.{true, ◌≡◌, refl}
use thalovant_go_sdk.Telemetry.{no_telemetry, elapsed, begin, mark_open, complete}

eight_milliseconds :
    (complete 9000700 (mark_open 2000900 true (begin 1000500 no_telemetry))).info.connect_time
    ≡ 8000
unfolding complete mark_open begin elapsed
eight_milliseconds = refl
