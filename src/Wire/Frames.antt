-- ===== src/Wire/Frames.antt =====
-- wire.go: what a frame is made of, and that it is read back.
use text.Mathlib.Text.{◌==◌ as str_eq}
use thalovant_go_sdk.Prelude.{
  ℕ, ◌≤◌, ◌<◌, Bool, true, false, Option, none, some, String, List, [], ◌∷◌, ◌++◌, ◌≡◌, refl, arith,
  ◌==◌, ltb, is_some, if◌then◌else◌, length, All,
}
use thalovant_go_sdk.Noise.{Bytes}
use thalovant_go_sdk.FrameBits.{ok, BitReader}
use thalovant_go_sdk.Wire.{
  Codecs, Object, hive_type_to_int, entry, type_name, decode_wire_text, read_version, decode_body,
  decode_hive_binary_frame, unmarshalled,
}
use thalovant_go_sdk.FrameBits.Bits.{bits, stream, padding}
use thalovant_go_sdk.FrameBits.Stream.{
  IsByte, Reads, Yields, read_bit-Yields, read_byte-Yields, read_five-Yields, read_bytes-Yields,
  skip_left_padding-Reads,
}

-- The version bits: a clear bit, or a set one and the version.
unfoldable pub version_bits : Option ℕ → List ℕ
version_bits none = 0 ∷ []
version_bits (some v) = 1 ∷ bits 8 v

unfoldable pub IsVersion : Option ℕ → Type 0
IsVersion none = Unit
IsVersion (some v) = v ≤ 1

unfoldable pub flag_bit : Bool → ℕ
flag_bit true = 1
flag_bit false = 0

-- A frame as bits: padding up to a set bit, the version, the type, whether it is compressed, the
-- metadata under its length, and the rest.
unfoldable pub frame_bits : ℕ → Option ℕ → ℕ → Bool → Bytes → List ℕ → List ℕ
frame_bits k version type_id compressed metadata rest =
    padding k
    ++ (1
        ∷ (version_bits version
            ++ (bits 5 type_id
                ++ (flag_bit compressed
                    ∷ (bits 8 (length metadata) ++ (stream metadata ++ rest))))))

-- The name that a type has after its way over the wire.
unfoldable pub wire_name : String → String
wire_name msg_type =
    if str_eq msg_type "handshake"
    then "shake"
    else if is_some (entry hive_type_to_int msg_type)
    then msg_type
    else "3rdparty"

flag_bit_lem : (b : Bool) → (flag_bit b == 1) ≡ b
unfolding flag_bit
flag_bit_lem true = refl
flag_bit_lem false = refl

module _ {V : Type 0} (c : Codecs V) where
  read_version-Reads :
      (version : Option ℕ) (r : BitReader) (xs : List ℕ)
      → IsVersion version
      → Reads r (version_bits version ++ xs)
      → (r' : BitReader) × (read_version c r ≡ ok r') × Reads r' xs
  unfolding read_version version_bits Yields IsVersion
  read_version-Reads none r xs l h =
      let (r', e, h') = read_bit-Yields r 0 xs h in (r', rw e refl, h')
  read_version-Reads (some v) r xs l h =
      let (r', e, h') = read_bit-Yields r 1 (bits 8 v ++ xs) h in
      let (r'', e', h'') = read_byte-Yields v r' xs (omega arith) h' in
      let low : ltb 1 v ≡ false = ground arith in (r'', rw (e, e', low) refl, h'')

  -- A frame is read up to its metadata, and what follows is left to its type.
  pub decode_frame_bits :
      (p : Bytes) (k : ℕ) (version : Option ℕ) (type_id : ℕ) (compressed : Bool) (metadata : Bytes)
      (rest : List ℕ) (text : Bytes) (object : Option (Object V))
      → stream p ≡ frame_bits k version type_id compressed metadata rest
      → IsVersion version
      → type_id < 32
      → length metadata ≤ 255
      → All IsByte metadata
      → decode_wire_text c metadata compressed ≡ ok text
      → unmarshalled c text ≡ ok object
      → (r : BitReader) × (decode_hive_binary_frame c p
          ≡ decode_body c (type_name type_id) compressed object r)
        × Reads r rest
  unfolding decode_hive_binary_frame frame_bits Yields
  decode_frame_bits p k version type_id compressed metadata rest text object e v t l all d u =
      let (r1, e1, h1) = skip_left_padding-Reads p k _ e in
      let (r2, e2, h2) = read_version-Reads version r1 _ v h1 in
      let (r3, e3, h3) = read_five-Yields type_id r2 _ t h2 in
      let (r4, e4, h4) = read_bit-Yields r3 (flag_bit compressed) _ h3 in
      let (r5, e5, h5) = read_byte-Yields (length metadata) r4 _ (omega arith) h4 in
      let (r6, e6, h6) = read_bytes-Yields metadata r5 rest all h5 in
      (r6, rw (e1, e2, e3, e4, e5, e6, flag_bit_lem compressed, d, u) refl, h6)
