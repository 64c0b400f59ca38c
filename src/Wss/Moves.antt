-- ===== src/Wss/Moves.antt =====
-- transport_wss.go: the sections of the code that hold the transport's lock, in any order: the
-- interleavings of connects, readers, writers and disconnects, whatever each of them brings.
use thalovant_go_sdk.Prelude.{
  ℕ, Bool, Option, String, List, [], ◌∷◌, not, false, ◌==◌, if◌then◌else◌,
}
use thalovant_go_sdk.Errors.{Err}
use thalovant_go_sdk.Wss.{
  Made, NoisePattern, WssTransport, enter, retry_xx, leave, open_socket, confirm, disconnect,
  poison_generation, begin_connection, generation_current,
}
use thalovant_go_sdk.Wss.Reader.{
  hear_frame, handle_hello, start_handshake, mark_final, make_session, bring_up,
  record_read_failure, signal_read_done, keep_psk, forget_psk, read_refuses, read_rejects,
  close_refuses,
}

pub data Move : Type 0 where
  enters : ℕ → Move
  retries : Option Err → Bool → ℕ → Move
  leaves : Move
  opens : ℕ → ℕ → Bool → ℕ → Move
  confirms : ℕ → Made → Bool → ℕ → Move
  disconnects : Move
  poisons : ℕ → Option Made → Err → ℕ → Move
  hears : ℕ → Move
  greets : ℕ → String → Move
  starts : ℕ → ℕ → NoisePattern → Move
  finals : ℕ → Move
  makes : ℕ → ℕ → Move
  raises : ℕ → ℕ → Move
  fails : ℕ → Err → ℕ → ℕ → Move
  signals : ℕ → Move
  keeps_psk : ℕ → ℕ → String → String → Move
  forgets_psk : ℕ → String → Move

unfoldable pub step : Move → WssTransport → WssTransport
unfolding enter begin_connection retry_xx leave open_socket confirm disconnect poison_generation
    hear_frame handle_hello start_handshake mark_final make_session bring_up record_read_failure
    signal_read_done keep_psk forget_psk generation_current read_refuses read_rejects close_refuses
step (enters now) t = enter now t
step (retries e done now) t = retry_xx e done now t
step leaves t = leave t
step (opens g id done now) t = open_socket g id done now t
step (confirms g c done now) t = confirm g c done now t
step disconnects t = disconnect t
step (poisons g c e now) t = poison_generation g c e now t
step (hears g) t = hear_frame g t
step (greets g node) t = handle_hello g node t
step (starts g id p) t = start_handshake g id p t
step (finals g) t = mark_final g t
step (makes g id) t = make_session g id t
step (raises g now) t = bring_up g now t
step (fails g e code now) t = record_read_failure g e code now t
step (signals g) t = signal_read_done g t
step (keeps_psk g psk node password) t = keep_psk g psk node password t
step (forgets_psk g node) t = forget_psk node t

unfoldable pub run : List Move → WssTransport → WssTransport
run [] t = t
run (m ∷ ms) t = run ms (step m t)

-- A section that a goroutine of an attempt runs for it, and its generation is not the transport's. The
-- sections of `Connect` itself, and `Disconnect`, are of no attempt. `forgetPSK` does not ask for the
-- generation: its caller did, under a lock that it let go.
unfoldable pub is_stale : Move → ℕ → Bool
is_stale (opens g id done now) n = not (n == g)
is_stale (confirms g c done now) n = not (n == g)
is_stale (poisons g c e now) n = not (n == g)
is_stale (hears g) n = not (n == g)
is_stale (greets g node) n = not (n == g)
is_stale (starts g id p) n = not (n == g)
is_stale (finals g) n = not (n == g)
is_stale (makes g id) n = not (n == g)
is_stale (raises g now) n = not (n == g)
is_stale (fails g e code now) n = not (n == g)
is_stale (signals g) n = not (n == g)
is_stale (keeps_psk g psk node password) n = not (n == g)
is_stale (forgets_psk g node) n = not (n == g)
is_stale _ n = false

-- The sections of `ms` but those that are stale when their turn comes.
unfoldable pub live : List Move → WssTransport → List Move
live [] t = []
live (m ∷ ms) t =
    let rest = live ms (step m t) in if is_stale m t.generation then rest else m ∷ rest
