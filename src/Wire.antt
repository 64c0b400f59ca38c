-- ===== src/Wire.antt =====
-- wire.go: binary HiveMind frames, and hive.go: what a binary frame carries.
-- A byte is a number, a byte slice or a string of bytes is a list. Objects are association lists over
-- the parameter `V` of values; encoding/json and compress/zlib are the parameter `Codecs`.
pub mod Frames
pub mod Names
pub mod RoundTrip
mod Tests
use text.Mathlib.Text.{◌==◌ as str_eq}
use Prim.Native.Nat.{bit_and, bit_or}
use Prim.Native.String.{◌++◌ as str_append}
use thalovant_go_sdk.Prelude.{
  ℕ, zero, suc, ◌+◌, ◌*◌, ◌-◌, ◌/◌, ◌%◌, ◌^◌, Bool, true, false, Option, none, some, String, List,
  [], ◌∷◌, ◌++◌, ltb, leb, ◌==◌, if◌then◌else◌, length, take,
}
use thalovant_go_sdk.Noise.{Bytes}
use thalovant_go_sdk.FrameBits.{
  Result, ok, err, ◌>>=◌, WireError, end_of_frame, metadata_too_long, bad_json, bad_stream,
  inflates_past_limit, unsupported_version, BitReader, new_bit_reader, read_bit, read_uint,
  read_bytes, read_remaining_bytes, skip_left_padding,
}

abbrev pub hive_type_to_int : List (String × ℕ)
hive_type_to_int =
    ("shake", 0)
    ∷ ("handshake", 0)
    ∷ ("bus", 1)
    ∷ ("shared_bus", 2)
    ∷ ("broadcast", 3)
    ∷ ("propagate", 4)
    ∷ ("escalate", 5)
    ∷ ("hello", 6)
    ∷ ("query", 7)
    ∷ ("cascade", 8)
    ∷ ("ping", 9)
    ∷ ("rendezvous", 10)
    ∷ ("3rdparty", 11)
    ∷ ("bin", 12)
    ∷ []

abbrev pub hive_int_to_type : List (ℕ × String)
hive_int_to_type =
    (0, "shake")
    ∷ (1, "bus")
    ∷ (2, "shared_bus")
    ∷ (3, "broadcast")
    ∷ (4, "propagate")
    ∷ (5, "escalate")
    ∷ (6, "hello")
    ∷ (7, "query")
    ∷ (8, "cascade")
    ∷ (9, "ping")
    ∷ (10, "rendezvous")
    ∷ (11, "3rdparty")
    ∷ (12, "bin")
    ∷ []

abbrev pub binary_payload_kinds : List (ℕ × String)
binary_payload_kinds =
    (1, "raw_audio")
    ∷ (2, "numpy_image")
    ∷ (3, "file")
    ∷ (4, "stt_transcribe")
    ∷ (5, "stt_handle")
    ∷ (6, "tts_audio")
    ∷ []

unfoldable pub entry {ℓ} : {A : Type ℓ} → List (String × A) → String → Option A
entry [] key = none
entry ((k, a) ∷ m) key = if str_eq k key then some a else entry m key

unfoldable pub name_of : List (ℕ × String) → ℕ → Option String
name_of [] number = none
name_of ((k, s) ∷ m) number = if k == number then some s else name_of m number

-- The type's number on the wire; one without a number is "3rdparty".
unfoldable pub type_number : String → ℕ
type_number msg_type = elim (entry hive_type_to_int msg_type) [ none ↦ 11 | some n ↦ n ]

unfoldable pub type_name : ℕ → String
type_name number = elim (name_of hive_int_to_type number) [ none ↦ "3rdparty" | some s ↦ s ]

-- The first byte of a frame.
unfoldable pub frame_head : ℕ → ℕ
frame_head type_id = bit_or 0x80 (bit_and type_id 0x1f * 2 % 2 ^ 8)

abbrev pub max_inflated_wire : ℕ
max_inflated_wire = 32 * 2 ^ 20

module _ (V : Type 0) where
  abbrev pub Object : Type 0
  Object = List (String × V)

  -- encoding/json and compress/zlib. `unmarshal` reads an object, or `null`, which is no map. `inflate`
  -- fails on a bad header; else it has what the stream inflates to and whether it ends as it should.
  -- `itoa` is strconv.Itoa, `text_of` the string that a value is.
  pub record Codecs : Type 0 where
    pub marshal : Object → Option Bytes
    pub unmarshal : Bytes → Option (Option Object)
    pub inflate : Bytes → Option (Bytes × Bool)
    pub itoa : ℕ → String
    pub text_of : V → Option String

  -- ThalovantBinary; a nil map is `none`.
  pub record ThalovantBinary : Type 0 where
    pub kind : String
    pub data_bytes : Bytes
    pub metadata : Option Object
    pub utterance : String
    pub lang : String
    pub file_name : String

  pub record HiveMessage : Type 0 where
    pub msg_type : String
    pub payload : Option Object
    pub binary : Option ThalovantBinary
    pub metadata : Option Object
    pub route : List V
    pub node : Option V
    pub target_site_id : Option V
    pub target_pub_key : Option V
    pub source_peer : Option V

abbrev pub non_nil_map : {V : Type 0} → Option (Object V) → Object V
non_nil_map none = []
non_nil_map (some m) = m

module _ {V : Type 0} (c : Codecs V) where
  unfoldable pub text_at : Option (Object V) → String → String
  text_at none key = ""
  text_at (some m) key = elim (entry m key) [
    | none ↦ ""
    | some v ↦ elim (c.text_of v) [ none ↦ "" | some s ↦ s ]
  ]

  unfoldable pub binary_kind_name : ℕ → String
  binary_kind_name number = elim (name_of binary_payload_kinds number) [
    | none ↦ str_append "binary:" (c.itoa number)
    | some s ↦ s
  ]

  unfoldable pub binary_frame : String → Bytes → Option (Object V) → ThalovantBinary V
  binary_frame kind bytes metadata = record {
    kind = kind;
    data_bytes = bytes;
    metadata = metadata;
    utterance = text_at metadata "utterance";
    lang = text_at metadata "lang";
    file_name = text_at metadata "file_name";
  }

  unfoldable pub marshalled : Object V → Result Bytes
  marshalled m = elim (c.marshal m) [ none ↦ err bad_json | some bytes ↦ ok bytes ]

  unfoldable pub unmarshalled : Bytes → Result (Option (Object V))
  unmarshalled bytes = elim (c.unmarshal bytes) [ none ↦ err bad_json | some m ↦ ok m ]

  -- The rest of EncodeHiveBinaryFrame, once the metadata is known.
  unfoldable pub encode_payload : ℕ → Bytes → HiveMessage V → Result Bytes
  encode_payload type_id metadata message = do
    payload ← marshalled (non_nil_map message.payload)
    ok (frame_head type_id ∷ length metadata % 2 ^ 8 ∷ metadata ++ payload)

  unfoldable pub encode_hive_binary_frame : HiveMessage V → Result Bytes
  encode_hive_binary_frame message = do
    let type_id = type_number message.msg_type
    metadata ← marshalled (non_nil_map message.metadata)
    let rest = encode_payload type_id metadata message
    if ltb 255 (length metadata) then err metadata_too_long else rest

  -- What io.ReadAll reads through the limit: an end past the limit is not seen.
  unfoldable pub read_limited : Bytes × Bool → Result Bytes
  read_limited (decoded, whole) =
      if ltb (length decoded) (suc max_inflated_wire)
      then (if whole then ok decoded else err bad_stream)
      else ok (take (suc max_inflated_wire) decoded)

  unfoldable pub decode_wire_text : Bytes → Bool → Result Bytes
  decode_wire_text payload false = ok payload
  decode_wire_text payload true = elim (c.inflate payload) [
    | none ↦ err bad_stream
    | some stream ↦ read_limited stream >>= λ decoded.
        if ltb max_inflated_wire (length decoded) then err inflates_past_limit else ok decoded
  ]

  unfoldable pub read_version : BitReader → Result BitReader
  read_version r = do
    (versioned, r) ← read_bit r
    let checked = (do
      (version, r) ← read_uint 8 r
      if ltb 1 version then err (unsupported_version version) else ok r)
    if versioned == 1 then checked else ok r

  -- The end of DecodeHiveBinaryFrame for a BINARY frame, and for the others.
  unfoldable pub decode_clip : String → Option (Object V) → BitReader → Result (HiveMessage V)
  decode_clip msg_type metadata r = do
    (kind, r) ← read_uint 4 r
    (clip, r) ← read_remaining_bytes r
    ok (record {
      msg_type = msg_type;
      payload = some [];
      binary = some (binary_frame (binary_kind_name kind) clip metadata);
      metadata = metadata;
      route = [];
      node = none;
      target_site_id = none;
      target_pub_key = none;
      source_peer = none;
    })

  unfoldable pub decode_payload :
      String → Bool → Option (Object V) → BitReader → Result (HiveMessage V)
  decode_payload msg_type compressed metadata r = do
    (bytes, r) ← read_remaining_bytes r
    text ← decode_wire_text bytes compressed
    payload ← unmarshalled text
    ok (record {
      msg_type = msg_type;
      payload = payload;
      binary = none;
      metadata = metadata;
      route = [];
      node = none;
      target_site_id = none;
      target_pub_key = none;
      source_peer = none;
    })

  unfoldable pub decode_body :
      String → Bool → Option (Object V) → BitReader → Result (HiveMessage V)
  decode_body msg_type compressed metadata r =
      if str_eq msg_type "bin"
      then decode_clip msg_type metadata r
      else decode_payload msg_type compressed metadata r

  unfoldable pub decode_hive_binary_frame : Bytes → Result (HiveMessage V)
  decode_hive_binary_frame payload = do
    r ← skip_left_padding (new_bit_reader payload)
    r ← read_version r
    (type_id, r) ← read_uint 5 r
    (compressed, r) ← read_bit r
    (meta_len, r) ← read_uint 8 r
    (meta_bytes, r) ← read_bytes meta_len r
    meta_text ← decode_wire_text meta_bytes (compressed == 1)
    metadata ← unmarshalled meta_text
    decode_body (type_name type_id) (compressed == 1) metadata r
