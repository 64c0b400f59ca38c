-- ===== src/Pins.antt =====
-- noise_store.go and noise_store_file.go: the file of pinned hub keys (noise_pins.json).
-- The file system is modelled by what a file is (`PinFile`) and by where publishing one fails
-- (`Fault`); the lock, by the error of taking it. Go's string and hex functions are the parameter
-- `GoText`. The directory and its default are one place.
pub mod Trust
pub mod Agreement
mod Tests
use text.Mathlib.Text.{◌==◌ as str_eq}
use Prim.Native.String.{len}
use thalovant_go_sdk.Prelude.{
  ℕ, Bool, true, false, not, ◌&&◌, ◌||◌, Option, none, some, String, List, [], ◌∷◌, ◌==◌, ◌≡◌,
  if◌then◌else◌,
}
use thalovant_go_sdk.Errors.{Err, err_connection, err_identity, err_hub_key_changed, other_error}

-- strings.TrimSpace(s) == "", strings.EqualFold, and whether hex.DecodeString succeeds.
pub record GoText : Type 0 where
  pub is_blank : String → Bool
  pub equal_fold : String → String → Bool
  pub decodes : String → Bool
  pub equal_fold_refl : (s : String) → equal_fold s s ≡ true

abbrev pub Pins : Type 0
Pins = List (String × String)

-- `pins[nodeID]`, which is "" for a missing key.
unfoldable pub pin_of : Pins → String → String
pin_of [] node = ""
pin_of ((n, k) ∷ m) node = if str_eq n node then k else pin_of m node

unfoldable pub has_pin : Pins → String → Bool
has_pin [] node = false
has_pin ((n, k) ∷ m) node = str_eq n node || has_pin m node

-- `pins[nodeID] = key`
unfoldable pub set_pin : Pins → String → String → Pins
set_pin [] node key = (node, key) ∷ []
set_pin ((n, k) ∷ m) node key =
    if str_eq n node then (node, key) ∷ m else (n, k) ∷ set_pin m node key

-- `delete(pins, nodeID)`
unfoldable pub delete_pin : Pins → String → Pins
delete_pin [] node = []
delete_pin ((n, k) ∷ m) node =
    let rest = delete_pin m node in if str_eq n node then rest else (n, k) ∷ rest

-- What stands at the path of the pin file: nothing, something that validateNoiseFile or
-- assertSecureSecretFile refuses, a file that cannot be read, one that is not a JSON object of
-- strings, or a map of pins.
pub data PinFile : Type 0 where
  missing unreadable malformed : PinFile
  untrusted : Err → PinFile
  holds : Pins → PinFile

-- Where `writeNoisePinsLocked` fails: making the directory, writing the staging file, renaming it,
-- or syncing the directory after that.
pub data Fault : Type 0 where
  no_fault making_directory staging renaming directory_sync : Fault

unfoldable pub publish : Fault → PinFile → Pins → PinFile × Option Err
publish no_fault old m = (holds m, none)
publish making_directory old m = (old, some (err_identity ∷ []))
publish staging old m = (old, some (other_error ∷ []))
publish renaming old m = (old, some (other_error ∷ []))
publish directory_sync old m = (holds m, some (other_error ∷ []))

pub data PinsRead : Type 0 where
  pins : Pins → PinsRead
  unusable : Err → PinsRead

module _ (g : GoText) where
  unfoldable pub validate_noise_pin : String → String → Bool
  validate_noise_pin node key = not (g.is_blank node) && (len key == 64 && g.decodes key)

  unfoldable pub all_valid : Pins → Bool
  all_valid [] = true
  all_valid ((n, k) ∷ m) = validate_noise_pin n k && all_valid m

  unfoldable pub read_noise_pins : PinFile → PinsRead
  read_noise_pins missing = pins []
  read_noise_pins (holds m) = if all_valid m then pins m else unusable (err_identity ∷ [])
  read_noise_pins (untrusted e) = unusable e
  read_noise_pins _ = unusable (err_identity ∷ [])

  -- The transaction of SaveNoisePin and of pinNoisePeer under the lock, which differ in the error
  -- for a changed key.
  unfoldable pub record_pin :
      Err → Fault → String → String → PinFile → PinsRead → PinFile × Option Err
  record_pin conflict fault node key file (unusable e) = (file, some e)
  record_pin conflict fault node key file (pins m) =
      if not (str_eq (pin_of m node) "") && not (g.equal_fold (pin_of m node) key)
      then (file, some conflict)
      else if g.equal_fold (pin_of m node) key
      then (file, none)
      else publish fault file (set_pin m node key)

  unfoldable pub locked_record :
      Err → Option Err → Fault → String → String → PinFile → PinFile × Option Err
  locked_record conflict lock fault node key file =
      if validate_noise_pin node key
      then (elim lock [
        | some e ↦ (file, some e)
        | none ↦ record_pin conflict fault node key file (read_noise_pins file)
      ])
      else (file, some (err_identity ∷ []))

  unfoldable pub save_noise_pin :
      Option Err → Fault → String → String → PinFile → PinFile × Option Err
  save_noise_pin = locked_record (err_connection ∷ [])

  unfoldable pub pin_noise_peer :
      Option Err → Fault → String → String → PinFile → PinFile × Option Err
  pin_noise_peer lock fault node key file =
      if str_eq node "" || str_eq key ""
      then (file, some (err_connection ∷ []))
      else locked_record (err_connection ∷ err_hub_key_changed ∷ []) lock fault node key file

  -- LoadNoisePin; `none` is an error.
  unfoldable pub load_noise_pin : Option Err → String → PinFile → Option String
  load_noise_pin (some e) node file = none
  load_noise_pin none node file = elim (read_noise_pins file) [
    | pins m ↦ some (pin_of m node)
    | unusable e ↦ none
  ]

  forget_in : Fault → String → PinFile → PinsRead → PinFile × Option Err
  forget_in fault node file (unusable e) = (file, some e)
  forget_in fault node file (pins m) =
      if has_pin m node then publish fault file (delete_pin m node) else (file, none)

  unfoldable pub forget_noise_pin : Option Err → Fault → String → PinFile → PinFile × Option Err
  unfolding forget_in
  forget_noise_pin (some e) fault node file = (file, some e)
  forget_noise_pin none fault node file = forget_in fault node file (read_noise_pins file)
