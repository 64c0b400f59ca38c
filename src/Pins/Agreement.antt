-- ===== src/Pins/Agreement.antt =====
-- What the operations on the pin file leave behind when they report no error.
use text.Mathlib.Text.{◌==◌ as str_eq}
use text.Mathlib.TextEquality.{eq_iff}
use thalovant_go_sdk.Prelude.{
  true, false, ◌||◌, Option, none, some, String, [], ◌∷◌, ◌≡◌, refl, arith, if◌then◌else◌,
  Bool-cases, Option-cases, inl, inr,
}
use thalovant_go_sdk.Errors.{Err, err_connection, err_hub_key_changed}
use thalovant_go_sdk.Pins.{
  GoText, Pins, pin_of, has_pin, delete_pin, PinFile, missing, holds, Fault, publish, PinsRead,
  pins, unusable, validate_noise_pin, all_valid, read_noise_pins, record_pin, locked_record,
  pin_noise_peer, load_noise_pin, forget_noise_pin,
}
use thalovant_go_sdk.Pins.Trust.{Trusts, pin_of-set_pin, pin_of-delete_pin, all_valid-set_pin}

module _ (g : GoText) where
  record_pin_agrees :
      (conflict : Err) (fault : Fault) (node key : String) (file : PinFile) (m : Pins)
      → validate_noise_pin g node key ≡ true
      → all_valid g m ≡ true
      → read_noise_pins g file ≡ pins m
      → (record_pin g conflict fault node key file (pins m)).1 ≡ none
      → (k : String) × Trusts g (record_pin g conflict fault node key file (pins m)).0 node k
        × (g.equal_fold k key ≡ true)
  unfolding record_pin publish load_noise_pin
  record_pin_agrees conflict fault node key file m v a e h =
      elim (Bool-cases (g.equal_fold (pin_of m node) key)) [
        | inl same ↦ (pin_of m node, ground arith, same)
        | inr other ↦ (
          key,
          unfold read_noise_pins in
              ground (
                arith,
                eq_iff node node,
                pin_of-set_pin m node key node,
                all_valid-set_pin g m node key,
              ),
          g.equal_fold_refl key,
        )
      ]

  read_noise_pins-all_valid :
      (file : PinFile) (m : Pins) → read_noise_pins g file ≡ pins m → all_valid g m ≡ true
  unfolding read_noise_pins all_valid
  read_noise_pins-all_valid missing m e = ground arith
  read_noise_pins-all_valid _ m e = ground arith

  -- The answer reports an error, or the file pins a key for `node` that agrees with `key`.
  abbrev Agrees : String → String → PinFile × Option Err → Type 0
  Agrees node key a = a.1 ≡ none → (k : String) × Trusts g a.0 node k × (g.equal_fold k key ≡ true)

  Agrees-error : (node key : String) (file : PinFile) (e : Err) → Agrees node key (file, some e)
  Agrees-error node key file e h = absurd (cc)

  locked_record-Agrees :
      (conflict : Err) (lock : Option Err) (fault : Fault) (node key : String) (file : PinFile)
      → Agrees node key (locked_record g conflict lock fault node key file)
  unfolding locked_record
  locked_record-Agrees conflict lock fault node key file =
      elim (Bool-cases (validate_noise_pin g node key)) [
        | inr bad ↦ rw (bad, locked_record) (Agrees-error node key file _)
        | inl fits ↦ elim (Option-cases lock) [
          | inr (x, e) ↦ rw (fits, e, locked_record) (Agrees-error node key file x)
          | inl e ↦ rw (fits, e, locked_record) (go (read_noise_pins g file) refl fits)
        ]
      ]
    where
      go :
          (r : PinsRead)
          → read_noise_pins g file ≡ r
          → validate_noise_pin g node key ≡ true
          → Agrees node key (record_pin g conflict fault node key file r)
      go (unusable x) e fits = unfold record_pin in Agrees-error node key file x
      go (pins m) e fits =
          record_pin_agrees conflict fault node key file m fits (read_noise_pins-all_valid file m e)
            e

  -- When a first contact reports no error, the file is usable afterwards and pins a key for the hub
  -- that equals the one shown, up to the case of its letters.
  pub pin_noise_peer_agrees :
      (lock : Option Err) (fault : Fault) (node key : String) (file : PinFile)
      → (pin_noise_peer g lock fault node key file).1 ≡ none
      → (k : String) × Trusts g (pin_noise_peer g lock fault node key file).0 node k
        × (g.equal_fold k key ≡ true)
  unfolding pin_noise_peer
  pin_noise_peer_agrees lock fault node key file h =
      elim (Bool-cases (str_eq node "" || str_eq key "")) [
        | inl bare ↦ ground arith
        | inr named ↦
            rw (named, pin_noise_peer)
              (locked_record-Agrees (err_connection ∷ err_hub_key_changed ∷ []) lock fault node key
                file (ground arith))
      ]

  all_valid-delete_pin :
      (m : Pins) (n : String) → all_valid g m ≡ true → all_valid g (delete_pin m n) ≡ true
  unfolding all_valid delete_pin
  all_valid-delete_pin [] n h = refl
  all_valid-delete_pin ((i, l) ∷ m) n h = ground (arith, all_valid-delete_pin m n)

  has_pin_missing : (m : Pins) (n : String) → has_pin m n ≡ false → pin_of m n ≡ ""
  unfolding has_pin pin_of
  has_pin_missing [] n h = refl
  has_pin_missing ((i, l) ∷ m) n h = ground (arith, has_pin_missing m n)

  -- When ForgetNoisePin reports no error on a usable file, it leaves a usable file that pins
  -- nothing for that hub and what it pinned before for every other hub.
  pub load-forget :
      (lock : Option Err) (fault : Fault) (node j key : String) (file : PinFile)
      → (forget_noise_pin g lock fault node file).1 ≡ none
      → load_noise_pin g none j file ≡ some key
      → load_noise_pin g none j (forget_noise_pin g lock fault node file).0
        ≡ some (if str_eq node j then "" else key)
  unfolding forget_noise_pin publish load_noise_pin read_noise_pins
  load-forget (some x) fault node j key file h e = cc
  load-forget none fault node j key (holds m) h e = ground (
    arith,
    eq_iff node j,
    pin_of-delete_pin m node j,
    all_valid-delete_pin m node,
    has_pin_missing m node,
  )
  load-forget none fault node j key missing h e = unfold has_pin pin_of in ground arith
  load-forget none fault node j key _ h e = ground arith
