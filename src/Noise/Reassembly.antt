-- ===== src/Noise/Reassembly.antt =====
-- The reassembly buffer of noise.go under any frames at all, from a peer that need not be honest.
use thalovant_go_sdk.Prelude.{ℕ, ◌≤◌, arith, List, [], ◌∷◌, length}
use thalovant_go_sdk.Noise.{
  Bytes, Cipher, NoiseSession, noise_max_reassembly, read_frame, decrypt_frame,
}

abbrev pub IsCapped : {c : Cipher} → NoiseSession c → Type 0
IsCapped r = length r.reassembly ≤ noise_max_reassembly

module _ {c : Cipher} where
  read_frame-IsCapped :
      (r : NoiseSession c) (marker : ℕ) (body : Bytes)
      → IsCapped r
      → IsCapped (read_frame r marker body).0
  unfolding read_frame
  read_frame-IsCapped r marker body h = ground arith

  decrypt_frame-IsCapped :
      (r : NoiseSession c) (frame : Bytes) → IsCapped r → IsCapped (decrypt_frame r frame).0
  unfolding decrypt_frame
  decrypt_frame-IsCapped r frame h = ground arith

  -- The session after frames from the wire, each read whatever came of the ones before.
  unfoldable pub receive_all : NoiseSession c → List Bytes → NoiseSession c
  receive_all r [] = r
  receive_all r (f ∷ fs) = receive_all (decrypt_frame r f).0 fs

  -- Whatever frames a peer sends, the buffer of a capped session stays within the 32 MiB cap.
  pub receive_all-IsCapped :
      (r : NoiseSession c) (fs : List Bytes) → IsCapped r → IsCapped (receive_all r fs)
  unfolding receive_all
  receive_all-IsCapped r [] h = h
  receive_all-IsCapped r (f ∷ fs) h =
      receive_all-IsCapped (decrypt_frame r f).0 fs (decrypt_frame-IsCapped r f h)
