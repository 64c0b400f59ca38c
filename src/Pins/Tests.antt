-- ===== src/Pins/Tests.antt =====
-- The theorems on the pin file, with a hub that was seen before and one that was not.
use text.Mathlib.Text.{◌==◌ as str_eq}
use text.Mathlib.TextEquality.{eq_iff}
use text.Mathlib.TextPositions.{eq_refl}
use thalovant_go_sdk.Prelude.{true, none, String, [], ◌∷◌, ◌≡◌, ◌≢◌, refl, arith}
use thalovant_go_sdk.Pins.{
  GoText, PinFile, missing, holds, no_fault, directory_sync, pin_of, set_pin, publish,
  validate_noise_pin, all_valid, read_noise_pins, record_pin, locked_record, pin_noise_peer,
  load_noise_pin,
}
use thalovant_go_sdk.Pins.Trust.{Trusts, saving, pinning, perform_all, perform_all-Trusts}
use thalovant_go_sdk.Pins.Agreement.{pin_noise_peer_agrees}

abbrev plain : GoText
plain = record {
  is_blank = λ s. str_eq s "";
  equal_fold = str_eq;
  decodes = λ s. true;
  equal_fold_refl = eq_refl;
}

abbrev key_a : String
key_a = "aaaaaaaaaaaaaaaaaaaaaaaaaaaaaaaaaaaaaaaaaaaaaaaaaaaaaaaaaaaaaaaa"

abbrev key_b : String
key_b = "bbbbbbbbbbbbbbbbbbbbbbbbbbbbbbbbbbbbbbbbbbbbbbbbbbbbbbbbbbbbbbbb"

abbrev known : PinFile
known = holds (("hub", key_a) ∷ [])

known-Trusts : Trusts plain known "hub" key_a
unfolding load_noise_pin read_noise_pins all_valid validate_noise_pin pin_of
known-Trusts = refl

key_a_named : key_a ≢ ""
key_a_named = ground (arith, eq_iff key_a "")

perform_all-Trusts_example :
    Trusts plain
      (perform_all plain
        (pinning none no_fault "hub" key_b ∷ saving none directory_sync "other" key_b ∷ [])
        known)
      "hub"
      key_a
perform_all-Trusts_example =
    perform_all-Trusts plain
      (pinning none no_fault "hub" key_b ∷ saving none directory_sync "other" key_b ∷ []) "hub"
      key_a known key_a_named known-Trusts

first_contact : (pin_noise_peer plain none no_fault "hub" key_a missing).1 ≡ none
unfolding pin_noise_peer locked_record record_pin read_noise_pins validate_noise_pin pin_of set_pin
    publish
first_contact = refl

pin_noise_peer_agrees_example :
    (k : String) × Trusts plain (pin_noise_peer plain none no_fault "hub" key_a missing).0 "hub" k
    × (plain.equal_fold k key_a ≡ true)
pin_noise_peer_agrees_example =
    pin_noise_peer_agrees plain none no_fault "hub" key_a missing first_contact
