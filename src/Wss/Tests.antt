-- ===== src/Wss/Tests.antt =====
-- transport_wss.go: a connect, a stale reader and a send, and the theorems at inputs.
use thalovant_go_sdk.Prelude.{
  ℕ, true, false, ◌||◌, ◌&&◌, Option, none, some, is_some, List, [], ◌∷◌, ◌++◌, ◌≡◌, refl,
}
use thalovant_go_sdk.Errors.{err_connection}
use thalovant_go_sdk.Wss.{Made, xx, new_wss_transport}
use thalovant_go_sdk.Wss.Writer.{Sending, send_hive_message, write_generation}
use thalovant_go_sdk.Wss.Moves.{
  Move, step, run, live, enters, leaves, opens, confirms, disconnects, hears, greets, starts,
  finals, makes, raises, fails, forgets_psk,
}
use thalovant_go_sdk.Wss.Attempts.{made_by, IsOwn, run-IsOwn}
use thalovant_go_sdk.Wss.Stale.{uncached, run-live}
use thalovant_go_sdk.Wss.Sends.{written_frame}

abbrev socket : Made
socket = record { attempt = 1; id = 4 }

abbrev connecting : List Move
connecting =
    enters 10
    ∷ opens 1 4 false 20
    ∷ greets 1 "hub"
    ∷ starts 1 5 xx
    ∷ finals 1
    ∷ makes 1 6
    ∷ raises 1 30
    ∷ confirms 1 socket false 40
    ∷ leaves
    ∷ []

connected_is_up : (run connecting new_wss_transport).handshake ≡ true
unfolding run step
connected_is_up = refl

-- The hub closes with 1008 right after the handshake, having said nothing: it refused this key.
closed_is_rejected :
    (run
      (fails 1 (err_connection ∷ []) 1008 50 ∷ [])
      (run connecting new_wss_transport)).closed_key_rejected
    ≡ true
unfolding run step
closed_is_rejected = refl

abbrev no_scope : Option ℕ
no_scope = none

abbrev message : Sending
message = record { generation = 1; session = record { attempt = 1; id = 6 }; conn = some socket }

written_frame_example :
    let t = run (hears 1 ∷ fails 0 [] 0 9 ∷ []) (run connecting new_wss_transport) in
    (t.conn ≡ some socket)
    × (made_by t.conn 1 ≡ true)
    × (t.generation ≡ 1)
    × (((run connecting new_wss_transport).handshake || is_some no_scope && false) ≡ true)
unfolding run step send_hive_message write_generation
written_frame_example =
    written_frame connecting (hears 1 ∷ fails 0 [] 0 9 ∷ []) none false message refl refl

abbrev late : List Move
late = fails 0 [] 0 9 ∷ disconnects ∷ hears 1 ∷ makes 1 8 ∷ forgets_psk 1 "hub" ∷ []

-- What is left of the reader of an attempt that was disconnected makes no session.
run-live_example :
    uncached (run (live late (run connecting new_wss_transport)) (run connecting new_wss_transport))
    ≡ uncached (run late (run connecting new_wss_transport))
run-live_example = run-live late (run connecting new_wss_transport)

run-IsOwn_example : IsOwn (run (connecting ++ late) new_wss_transport)
run-IsOwn_example = run-IsOwn (connecting ++ late)
