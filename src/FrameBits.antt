-- ===== src/FrameBits.antt =====
-- wire.go: the bit reader of binary HiveMind frames. A byte is a number, a byte slice is a list.
pub mod Bits
pub mod Stream
use Prim.Native.Nat.{bit_and, bit_or}
use thalovant_go_sdk.Prelude.{
  ℕ, zero, suc, ◌+◌, ◌*◌, ◌-◌, ◌/◌, ◌%◌, ◌^◌, Bool, true, false, Option, none, some, String, List,
  [], ◌∷◌, ◌++◌, ltb, leb, ◌==◌, if◌then◌else◌, length, take,
}
use thalovant_go_sdk.Noise.{Bytes}

-- `unread_bits` is no error of Go's: the loop of `skip_left_padding` ran out of fuel.
pub data WireError : Type 0 where
  end_of_frame metadata_too_long bad_json bad_stream inflates_past_limit unread_bits : WireError
  unsupported_version : ℕ → WireError

pub data Result {ℓ} (A : Type ℓ) : Type ℓ where
  ok : A → Result A
  err : WireError → Result A

infixl 5 ◌>>=◌
abbrev pub ◌>>=◌ {ℓ κ} : {A : Type ℓ} {B : Type κ} → Result A → (A → Result B) → Result B
ok a >>= f = f a
err e >>= f = err e

-- bitReader.
pub record BitReader : Type 0 where
  pub payload : Bytes
  pub offset : ℕ

-- `payload[index]`; the reader asks only for an index within the payload.
unfoldable pub byte_at : Bytes → ℕ → ℕ
byte_at [] index = 0
byte_at (b ∷ bs) zero = b
byte_at (b ∷ bs) (suc index) = byte_at bs index

abbrev pub new_bit_reader : Bytes → BitReader
new_bit_reader payload = record { payload = payload; offset = 0 }

unfoldable pub read_bit : BitReader → Result (ℕ × BitReader)
read_bit r =
    if leb (length r.payload * 8) r.offset
    then err end_of_frame
    else ok (
      bit_and (byte_at r.payload (r.offset / 8) / 2 ^ (7 - r.offset % 8)) 1,
      record r { offset = suc r.offset },
    )

-- The rest of the loop of `readUint`, `width` bits before its end.
unfoldable pub read_bits : ℕ → ℕ → BitReader → Result (ℕ × BitReader)
read_bits zero value r = ok (value, r)
read_bits (suc width) value r = do (bit, r) ← read_bit r; read_bits width (bit_or (value * 2) bit) r

abbrev pub read_uint : ℕ → BitReader → Result (ℕ × BitReader)
read_uint width r = read_bits width 0 r

unfoldable pub read_bytes : ℕ → BitReader → Result (Bytes × BitReader)
read_bytes zero r = ok ([], r)
read_bytes (suc length) r = do
  (value, r) ← read_uint 8 r
  (out, r) ← read_bytes length r
  ok (value ∷ out, r)

unfoldable pub read_remaining_bytes : BitReader → Result (Bytes × BitReader)
read_remaining_bytes r = read_bytes ((length r.payload * 8 - r.offset) / 8) r

unfoldable pub skip_padding_loop : ℕ → BitReader → Result BitReader
skip_padding_loop zero r = err unread_bits
skip_padding_loop (suc fuel) r = do
  (bit, r) ← read_bit r
  let rest = skip_padding_loop fuel r
  if bit == 1 then ok r else rest

-- Each round reads a bit, and the read after the last bit fails.
unfoldable pub skip_left_padding : BitReader → Result BitReader
skip_left_padding r = skip_padding_loop (suc (length r.payload * 8)) r
