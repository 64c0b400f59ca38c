-- ===== src/Wss/Sends.antt =====
-- transport_wss.go: the session and the socket of a frame that is written.
use thalovant_go_sdk.Prelude.{
  ℕ, Bool, true, ◌||◌, Option, some, is_some, List, ◌≡◌, ◌∙◌, sym, ◌&&◌, arith,
}
use thalovant_go_sdk.Wss.{WssTransport, new_wss_transport}
use thalovant_go_sdk.Wss.Writer.{Sending, send_hive_message, write_generation}
use thalovant_go_sdk.Wss.Moves.{Move, run}
use thalovant_go_sdk.Wss.Attempts.{IsOwn, made_by, run-IsOwn, run-IsOwn_from}

sending-own :
    (scoped : Option ℕ) (is_hello : Bool) (t : WssTransport) (s : Sending)
    → IsOwn t
    → send_hive_message scoped is_hello t ≡ some s
    → (s.session.attempt ≡ s.generation) × ((t.handshake || is_some scoped && is_hello) ≡ true)
unfolding send_hive_message
sending-own scoped is_hello t s w h = ground arith

written-same :
    (s : Sending) (t : WssTransport)
    → write_generation s t ≡ true
    → (t.generation ≡ s.generation) × (t.conn ≡ s.conn)
unfolding write_generation
written-same s t h = ground arith

written :
    (t u : WssTransport) (scoped : Option ℕ) (is_hello : Bool) (s : Sending)
    → IsOwn t
    → IsOwn u
    → send_hive_message scoped is_hello t ≡ some s
    → write_generation s u ≡ true
    → (u.conn ≡ s.conn)
      × (made_by u.conn (s.session.attempt) ≡ true)
      × (u.generation ≡ s.session.attempt)
      × ((t.handshake || is_some scoped && is_hello) ≡ true)
written t u scoped is_hello s w v sends writes =
    let (own, asked) = sending-own scoped is_hello t s w sends in
    let (same, conn) = written-same s u writes in
    let now : u.generation ≡ s.session.attempt = same ∙ sym own in
    (conn, rw (← now) (v.own_conn), now, asked)

-- However long a send waits for its turn, and whatever happens to the transport meanwhile: the
-- frame is written only when the transport still holds the socket that it held, under the
-- generation of the session that encrypts the frame; and only a reader's own hello goes out before
-- the handshake is complete.
pub written_frame :
    (before after : List Move) (scoped : Option ℕ) (is_hello : Bool) (s : Sending)
    → send_hive_message scoped is_hello (run before new_wss_transport) ≡ some s
    → write_generation s (run after (run before new_wss_transport)) ≡ true
    → let t = run after (run before new_wss_transport) in
      (t.conn ≡ s.conn)
      × (made_by t.conn (s.session.attempt) ≡ true)
      × (t.generation ≡ s.session.attempt)
      × (((run before new_wss_transport).handshake || is_some scoped && is_hello) ≡ true)
written_frame before after scoped is_hello s sends writes =
    let own = run-IsOwn before in
    written (run before new_wss_transport) (run after (run before new_wss_transport)) scoped
      is_hello s own (run-IsOwn_from after (run before new_wss_transport) own) sends writes
