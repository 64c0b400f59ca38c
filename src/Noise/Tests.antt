-- ===== src/Noise/Tests.antt =====
-- The theorems on the transport session, with a cipher that writes its counter before the message.
use thalovant_go_sdk.Prelude.{
  ℕ, suc, ◌≡◌, refl, arith, true, false, Option, none, some, [], ◌∷◌, ◌==◌, if◌then◌else◌,
  length-replicate, replicate,
}
use thalovant_go_sdk.Noise.{Bytes, Cipher, NoiseSession, noise_max_reassembly, send_message}
use thalovant_go_sdk.Noise.Delivery.{CipherPair, Peer, deliver, Arrived, send_message-Arrived}
use thalovant_go_sdk.Noise.Reassembly.{IsCapped, receive_all, receive_all-IsCapped}

abbrev counting_encrypt : ℕ → Bytes → Option (ℕ × Bytes)
counting_encrypt n m = some (suc n, n ∷ m)

abbrev counting_decrypt : ℕ → Bytes → Option (ℕ × Bytes)
counting_decrypt n [] = none
counting_decrypt n (b ∷ m) = if b == n then some (suc n, m) else none

abbrev counting : Cipher
counting = record { State = ℕ; encrypt = counting_encrypt; decrypt = counting_decrypt }

counting_opens : (r n : ℕ) (m : Bytes) → n ≡ r → counting_decrypt r (n ∷ m) ≡ some (suc r, m)
counting_opens r n m e = ground arith

abbrev counting_pair : CipherPair counting
counting_pair = record {
  Paired = λ k s r. s ≡ r;
  fewer = λ k n s r h p. p;
  seal = λ k s r m p. (suc s, suc r, s ∷ m, refl, counting_opens r s m p, omega arith);
}

abbrev idle : NoiseSession counting
idle = record { send = 0; recv = 0; reassembly = []; is_json = false }

abbrev peer : Peer counting
peer = record { session = idle; inbox = [] }

-- Longer than a chunk.
abbrev long_message : Bytes
long_message = replicate 130_001 7

send_message-Arrived_example :
    Arrived counting_pair 0 long_message true []
      (send_message counting deliver long_message true 0 peer)
unfolding noise_max_reassembly
send_message-Arrived_example =
    send_message-Arrived counting_pair 0 long_message true 0 peer
      (omega (arith, length-replicate {A = ℕ} 130_001 7)) refl refl

receive_all-IsCapped_example : IsCapped (receive_all idle ((0 ∷ 2 ∷ 9 ∷ []) ∷ (7 ∷ []) ∷ []))
receive_all-IsCapped_example =
    receive_all-IsCapped idle ((0 ∷ 2 ∷ 9 ∷ []) ∷ (7 ∷ []) ∷ []) (omega arith)
