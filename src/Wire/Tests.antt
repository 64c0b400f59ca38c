-- ===== src/Wire/Tests.antt =====
-- Binary frames of wire.go on concrete input.
use thalovant_go_sdk.Prelude.{
  ℕ, false, none, some, [], ◌∷◌, ◌++◌, ◌≡◌, refl, arith, ◌==◌, if◌then◌else◌,
}
use thalovant_go_sdk.Noise.{Bytes}
use thalovant_go_sdk.FrameBits.{ok, ◌>>=◌}
use thalovant_go_sdk.Wire.{Codecs, HiveMessage, encode_hive_binary_frame, decode_hive_binary_frame}
use thalovant_go_sdk.FrameBits.Bits.{bits, stream, padding}
use thalovant_go_sdk.FrameBits.Stream.{IsByte}
use thalovant_go_sdk.Wire.Frames.{version_bits, flag_bit, frame_bits}
use thalovant_go_sdk.Wire.RoundTrip.{IsWritten, as_read, decode-encode}

-- `{}`, and an object that says `{"a":1}`.
abbrev braces : Bytes
braces = 0x7b ∷ 0x7d ∷ []

abbrev one_field : Bytes
one_field = 0x7b ∷ 0x22 ∷ 0x61 ∷ 0x22 ∷ 0x3a ∷ 0x31 ∷ 0x7d ∷ []

abbrev codecs : Codecs ℕ
codecs = record {
  marshal = λ o. elim o [ [] ↦ some braces | _ ∷ _ ↦ some one_field ];
  unmarshal = λ bytes. elim bytes [
    | [] ↦ none
    | _ ∷ [] ↦ none
    | _ ∷ b ∷ _ ↦ if b == 0x7d then some (some []) else some (some (("a", 1) ∷ []))
  ];
  inflate = λ bytes. none;
  itoa = λ number. "?";
  text_of = λ v. none;
}

abbrev message : HiveMessage ℕ
message = record {
  msg_type = "handshake";
  payload = some (("a", 1) ∷ []);
  binary = none;
  metadata = none;
  route = [];
  node = none;
  target_site_id = none;
  target_pub_key = none;
  source_peer = none;
}

decode-encode_example :
    (encode_hive_binary_frame codecs message >>= decode_hive_binary_frame codecs)
    ≡ ok (as_read message)
unfolding IsWritten IsByte
decode-encode_example =
    decode-encode codecs message braces one_field (refl, refl, ground arith)
      (refl, refl, ground arith) (omega arith) refl

-- Four zeros of padding, and a clip of two bytes after four bits of payload type.
abbrev clip_frame : Bytes
clip_frame = 0x09 ∷ 0x80 ∷ 0x27 ∷ 0xb7 ∷ 0xd6 ∷ 0xab ∷ 0xcd ∷ []

clip_frame-bits :
    stream clip_frame ≡ frame_bits 4 none 12 false braces (bits 4 6 ++ stream (0xab ∷ 0xcd ∷ []))
unfolding stream bits frame_bits padding version_bits flag_bit
clip_frame-bits = refl
