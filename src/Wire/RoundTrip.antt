-- ===== src/Wire/RoundTrip.antt =====
-- wire.go: an encoded message is read back, and so is a clip, wherever its bits begin.
use text.Mathlib.Text.{◌==◌ as str_eq}
use mathlib.Core.List.{append_assoc}
use thalovant_go_sdk.Prelude.{
  ℕ, ◌+◌, ◌*◌, ◌%◌, ◌^◌, ◌≤◌, ◌<◌, Bool, false, Option, none, some, [], ◌∷◌, ◌++◌, ◌≡◌, refl, ap,
  ◌∙◌, arith, ltb, length, All,
}
use thalovant_go_sdk.Noise.{Bytes}
use thalovant_go_sdk.FrameBits.{ok, ◌>>=◌}
use thalovant_go_sdk.Wire.{
  Codecs, Object, HiveMessage, name_of, type_number, type_name, frame_head, non_nil_map,
  binary_frame, binary_kind_name, encode_hive_binary_frame, encode_payload, marshalled,
  decode_wire_text, decode_clip, decode_payload, decode_body, decode_hive_binary_frame,
  unmarshalled,
}
use thalovant_go_sdk.FrameBits.Bits.{bits, stream, padding, head_byte}
use thalovant_go_sdk.FrameBits.Stream.{
  IsByte, Yields, read_four-Yields, read_remaining_bytes-Yields, stream-append,
}
use thalovant_go_sdk.Wire.Frames.{
  version_bits, IsVersion, flag_bit, frame_bits, wire_name, decode_frame_bits,
}
use thalovant_go_sdk.Wire.Names.{Agree, type_number-Agree}

head_bits : (t : ℕ) → t < 32 → bits 8 (128 + t * 2) ≡ 1 ∷ 0 ∷ (bits 5 t ++ (0 ∷ []))
unfolding bits
head_bits t l = ground arith

-- A frame of the encoder, bit by bit.
encoded_bits :
    (t : ℕ) (metadata body : Bytes)
    → t < 32
    → length metadata ≤ 255
    → stream (frame_head t ∷ length metadata % 2 ^ 8 ∷ metadata ++ body)
      ≡ frame_bits 0 none t false metadata (stream body)
unfolding frame_bits frame_head version_bits flag_bit padding stream
encoded_bits t metadata body l m =
    let small : length metadata % 2 ^ 8 ≡ length metadata = omega arith in
    rw (head_byte t l, head_bits t l, small, stream-append metadata body)
      (ap (λ s. 1 ∷ 0 ∷ s) (append_assoc (bits 5 t) (0 ∷ []) _))

-- What is read of a message that was encoded: its maps, never nil, under its type's name on the wire,
-- and nothing else of it.
unfoldable pub as_read : {V : Type 0} → HiveMessage V → HiveMessage V
as_read m = record {
  msg_type = wire_name m.msg_type;
  payload = some (non_nil_map m.payload);
  binary = none;
  metadata = some (non_nil_map m.metadata);
  route = [];
  node = none;
  target_site_id = none;
  target_pub_key = none;
  source_peer = none;
}

-- json.Unmarshal reads back, as `o`, the bytes that json.Marshal wrote for it.
unfoldable pub IsWritten : {V : Type 0} → Codecs V → Object V → Bytes → Type 0
IsWritten c o bytes =
    (c.marshal o ≡ some bytes) × (c.unmarshal bytes ≡ some (some o)) × All IsByte bytes

module _ {V : Type 0} (c : Codecs V) where
  marshalled-some :
      (o : Object V) (bytes : Bytes) → c.marshal o ≡ some bytes → marshalled c o ≡ ok bytes
  unfolding marshalled
  marshalled-some o bytes e = rw (marshalled, e) refl

  unmarshalled-some :
      (bytes : Bytes) (o : Option (Object V))
      → c.unmarshal bytes ≡ some o
      → unmarshalled c bytes ≡ ok o
  unfolding unmarshalled
  unmarshalled-some bytes o e = rw (unmarshalled, e) refl

  payload_encoded :
      (t : ℕ) (metadata body : Bytes) (m : HiveMessage V)
      → marshalled c (non_nil_map m.payload) ≡ ok body
      → encode_payload c t metadata m
        ≡ ok (frame_head t ∷ length metadata % 2 ^ 8 ∷ metadata ++ body)
  unfolding encode_payload
  payload_encoded t metadata body m e = rw e refl

  encoded :
      (m : HiveMessage V) (metadata body : Bytes)
      → IsWritten c (non_nil_map m.metadata) metadata
      → IsWritten c (non_nil_map m.payload) body
      → length metadata ≤ 255
      → encode_hive_binary_frame c m
        ≡ ok (frame_head (type_number m.msg_type) ∷ length metadata % 2 ^ 8 ∷ metadata ++ body)
  unfolding encode_hive_binary_frame IsWritten
  encoded m metadata body (w, _, _) (w', _, _) l =
      let fits : ltb 255 (length metadata) ≡ false = ground arith in
      let rest =
        payload_encoded (type_number m.msg_type) metadata body m (marshalled-some _ body w') in
      rw (marshalled-some (non_nil_map m.metadata) metadata w, fits, rest) refl

  -- A message that is not of type "bin" and whose metadata takes 255 bytes at most is encoded, and
  -- the frame is read back as the message with its maps, never nil, and its type's name on the
  -- wire, when json.Unmarshal reads back what json.Marshal wrote for its two maps.
  pub decode-encode :
      (m : HiveMessage V) (metadata body : Bytes)
      → IsWritten c (non_nil_map m.metadata) metadata
      → IsWritten c (non_nil_map m.payload) body
      → length metadata ≤ 255
      → str_eq m.msg_type "bin" ≡ false
      → (encode_hive_binary_frame c m >>= decode_hive_binary_frame c) ≡ ok (as_read m)
  unfolding IsWritten Agree IsVersion decode_wire_text decode_body as_read Yields decode_payload
  decode-encode m metadata body w w' l b =
      let (named, t, bin) = type_number-Agree m.msg_type in
      let (r, e, h) =
        decode_frame_bits c _ 0 none (type_number m.msg_type) false metadata (stream body) metadata
          (some (non_nil_map m.metadata)) (encoded_bits _ metadata body t l) tt t l w.2 refl
          (unmarshalled-some metadata _ w.1) in
      let (r', e', h') = read_remaining_bytes-Yields body r w'.2 h in
      let payload = unmarshalled-some body (some (non_nil_map m.payload)) w'.1 in
      rw (encoded m metadata body w w' l, e, bin ∙ b, e', payload, named) refl

  -- A BINARY frame, whatever its padding, its version and its compression, is read as the clip that
  -- it carries, bit for bit, with the name of its payload type and its metadata.
  pub decode_clip_frame :
      (p : Bytes) (k : ℕ) (version : Option ℕ) (compressed : Bool) (metadata text clip : Bytes)
      (object : Option (Object V)) (kind : ℕ)
      → stream p ≡ frame_bits k version 12 compressed metadata (bits 4 kind ++ stream clip)
      → IsVersion version
      → kind < 16
      → length metadata ≤ 255
      → All IsByte metadata
      → All IsByte clip
      → decode_wire_text c metadata compressed ≡ ok text
      → c.unmarshal text ≡ some object
      → decode_hive_binary_frame c p
        ≡ ok (record {
          msg_type = "bin";
          payload = some [];
          binary = some (binary_frame c (binary_kind_name c kind) clip object);
          metadata = object;
          route = [];
          node = none;
          target_site_id = none;
          target_pub_key = none;
          source_peer = none;
        })
  unfolding decode_body decode_clip Yields type_name name_of
  decode_clip_frame p k version compressed metadata text clip object kind e v q l all all' d u =
      let (r, e1, h) =
        decode_frame_bits c p k version 12 compressed metadata (bits 4 kind ++ stream clip) text
          object e v (omega arith) l all d (unmarshalled-some text object u) in
      let (r', e2, h') = read_four-Yields kind r (stream clip) q h in
      let (r'', e3, h'') = read_remaining_bytes-Yields clip r' all' h' in rw (e1, e2, e3) refl
