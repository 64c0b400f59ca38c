-- ===== src/Wss/Writer.antt =====
-- transport_wss.go: the sections of a send.
use thalovant_go_sdk.Prelude.{
  ℕ, Bool, true, false, not, ◌&&◌, ◌||◌, Option, none, some, ◌==◌, is_some, if◌then◌else◌,
}
use thalovant_go_sdk.Wss.{Made, WssTransport, generation_current, holds}

-- `sendHiveMessage`: what a send captures, or none when it is refused. `scoped` is the generation of
-- the context of a reader that sends.
pub record Sending : Type 0 where
  pub generation : ℕ
  pub session : Made
  pub conn : Option Made

abbrev pub is_current : Option ℕ → WssTransport → Bool
is_current none t = true
is_current (some g) t = generation_current g t

sending : Option Made → WssTransport → Option Sending
sending none t = none
sending (some session) t =
    some (record { generation = t.generation; session = session; conn = t.conn })

unfoldable pub send_hive_message : Option ℕ → Bool → WssTransport → Option Sending
unfolding sending
send_hive_message scoped is_hello t =
    if not (is_current scoped t)
    then none
    else if t.handshake || is_some scoped && is_hello
    then sending t.session t
    else none

holds_some : Option Made → Option Made → Bool
holds_some held none = false
holds_some held (some c) = holds held c

-- `writeGeneration`: whether the frame is written, once the writer has its turn.
unfoldable pub write_generation : Sending → WssTransport → Bool
unfolding holds_some
write_generation s t = t.generation == s.generation && holds_some t.conn s.conn && t.connected
