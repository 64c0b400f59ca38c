-- ===== src/Noise.antt =====
-- noise.go: the transport session (noiseSession), which cuts a message into frames and puts frames
-- together again. A byte is a number, a byte slice is a list; a nil slice is the empty list, and the
-- source's reassembly buffer is nil exactly when it is empty.
-- The cipher states of github.com/flynn/noise are the parameter `Cipher`.
pub mod Reassembly
pub mod Delivery
mod Tests
use thalovant_go_sdk.Prelude.{
  ℕ, zero, suc, ◌+◌, ◌*◌, ◌-◌, Bool, true, false, ◌||◌, Option, none, some, List, [], ◌∷◌, ◌++◌,
  ltb, leb, ◌==◌, if◌then◌else◌, length, take, drop,
}

abbrev pub Bytes : Type 0
Bytes = List ℕ

-- A transport cipher state: `Encrypt` and `Decrypt` advance the state, and fail with `none`.
pub record Cipher : Type 1 where
  pub State : Type 0
  pub encrypt : State → Bytes → Option (State × Bytes)
  pub decrypt : State → Bytes → Option (State × Bytes)

-- noiseSession, its sending state and its receiving state.
pub record NoiseSession (c : Cipher) : Type 0 where
  pub send : c.State
  pub recv : c.State
  pub reassembly : Bytes
  pub is_json : Bool

-- The first plaintext byte of a frame.
abbrev pub frame_json : ℕ
frame_json = 0x00

abbrev pub frame_binary : ℕ
frame_binary = 0x01

abbrev pub frame_first_json : ℕ
frame_first_json = 0x02

abbrev pub frame_first_binary : ℕ
frame_first_binary = 0x03

abbrev pub frame_more : ℕ
frame_more = 0x04

abbrev pub frame_last : ℕ
frame_last = 0x05

unfoldable pub noise_chunk_size : ℕ
noise_chunk_size = 65000

unfoldable pub noise_max_reassembly : ℕ
noise_max_reassembly = 32 * 1024 * 1024

pub data SendError : Type 0 where
  encryption_failed write_failed : SendError

-- What a send comes to: the cipher state and the carrier that it leaves, and its error.
pub record Sent (S W : Type 0) : Type 0 where
  pub state : S
  pub wire : W
  pub error : Option SendError

pub data FrameError : Type 0 where
  rejected empty_message complete_inside chunk_inside no_open_chunk past_cap unknown_marker :
      FrameError

pub data Received : Type 0 where
  broken : FrameError → Received
  incomplete : Received
  complete : Bytes → Bool → Received

abbrev pub is_empty : Bytes → Bool
is_empty [] = true
is_empty (b ∷ bs) = false

-- The switch on the offset in the loop of `sendMessage`.
unfoldable pub chunk_marker : ℕ → ℕ → ℕ → ℕ
chunk_marker first offset size =
    if offset == 0
    then first
    else if leb (size - noise_chunk_size) offset
    then frame_last
    else frame_more

-- The early return on an error.
unfoldable pub unless_failed : {S W : Type 0} → Sent S W → (S → W → Sent S W) → Sent S W
unless_failed sent next = elim sent.error [ none ↦ next sent.state sent.wire | some e ↦ sent ]

-- `rawSend` is the carrier: it takes the wire as it is and a frame, and says whether it succeeded.
module _ (c : Cipher) {W : Type 0} (raw_send : W → Bytes → W × Bool) where
  unfoldable pub put_frame : ℕ → Bytes → c.State → W → Sent c.State W
  put_frame marker body s w = elim (c.encrypt s (marker ∷ body)) [
    | none ↦ record { state = s; wire = w; error = some encryption_failed }
    | some (s', frame) ↦
        let (w', sent) = raw_send w frame in
        record { state = s'; wire = w'; error = if sent then none else some write_failed }
  ]

  -- The loop over the offsets. The fuel is the number of bytes left, and each round takes some.
  unfoldable pub send_chunks : ℕ → ℕ → ℕ → Bytes → c.State → W → Sent c.State W
  send_chunks zero first offset payload s w = record { state = s; wire = w; error = none }
  send_chunks (suc fuel) first offset payload s w =
      if ltb offset (length payload)
      then unless_failed
          (put_frame (chunk_marker first offset (length payload))
            (take noise_chunk_size (drop offset payload)) s w)
          (λ s' w'. send_chunks fuel first (offset + noise_chunk_size) payload s' w')
      else record { state = s; wire = w; error = none }

  unfoldable pub send_message : Bytes → Bool → c.State → W → Sent c.State W
  send_message payload is_json s w =
      if leb (length payload) noise_chunk_size
      then put_frame (if is_json then frame_json else frame_binary) payload s w
      else send_chunks (length payload) (if is_json then frame_first_json else frame_first_binary) 0
          payload s w

module _ {c : Cipher} where
  unfoldable pub reset_reassembly : NoiseSession c → NoiseSession c
  reset_reassembly r = record r { reassembly = []; is_json = false }

  -- A frame that may not come now: a message in progress is dropped.
  unfoldable pub refuse : NoiseSession c → FrameError → NoiseSession c × Received
  unfolding reset_reassembly
  refuse r e = (reset_reassembly r, broken e)

  -- `guardReassemblyCap` on the session with the chunk appended, and what follows when it passes.
  unfoldable pub guarded : NoiseSession c → NoiseSession c × Received → NoiseSession c × Received
  unfolding refuse
  guarded r next =
      if leb (length r.reassembly) noise_max_reassembly then next else refuse r past_cap

  -- The switch on the marker.
  unfoldable pub read_frame : NoiseSession c → ℕ → Bytes → NoiseSession c × Received
  unfolding guarded refuse reset_reassembly
  read_frame r marker body =
      if marker == frame_json || marker == frame_binary
      then (if is_empty r.reassembly
          then (r, complete body (marker == frame_json))
          else refuse r complete_inside)
      else if marker == frame_first_json || marker == frame_first_binary
      then (if is_empty r.reassembly
          then (let t = record r { reassembly = body; is_json = marker == frame_first_json } in
              guarded t (t, incomplete))
          else refuse r chunk_inside)
      else if marker == frame_more
      then (if is_empty r.reassembly
          then (r, broken no_open_chunk)
          else (let t = record r { reassembly = r.reassembly ++ body } in
              guarded t (t, incomplete)))
      else if marker == frame_last
      then (if is_empty r.reassembly
          then (r, broken no_open_chunk)
          else (let t = record r { reassembly = r.reassembly ++ body } in
              guarded t (reset_reassembly t, complete t.reassembly t.is_json)))
      else (r, broken unknown_marker)

  unfoldable pub decrypt_frame : NoiseSession c → Bytes → NoiseSession c × Received
  unfolding read_frame
  decrypt_frame r frame = elim (c.decrypt r.recv frame) [
    | none ↦ (r, broken rejected)
    | some (s, []) ↦ (record r { recv = s }, broken empty_message)
    | some (s, marker ∷ body) ↦ read_frame (record r { recv = s }) marker body
  ]
