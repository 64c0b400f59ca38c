-- ===== src/Pins/Trust.antt =====
-- Trust on first use: what a recorded hub key withstands.
use text.Mathlib.Text.{◌==◌ as str_eq}
use text.Mathlib.TextEquality.{eq_iff}
use thalovant_go_sdk.Prelude.{
  true, false, ◌||◌, Option, none, some, String, List, [], ◌∷◌, ◌≡◌, ◌≢◌, refl, arith,
  if◌then◌else◌, Bool-cases, inl, inr,
}
use thalovant_go_sdk.Errors.{Err, err_connection, err_hub_key_changed}
use thalovant_go_sdk.Pins.{
  GoText, Pins, pin_of, set_pin, delete_pin, PinFile, missing, holds, Fault, publish, pins,
  validate_noise_pin, all_valid, read_noise_pins, record_pin, locked_record, save_noise_pin,
  pin_noise_peer, load_noise_pin,
}

pub pin_of-set_pin :
    (m : Pins) (n k j : String) → pin_of (set_pin m n k) j ≡ (if str_eq n j then k else pin_of m j)
unfolding pin_of set_pin
pin_of-set_pin [] n k j = refl
pin_of-set_pin ((i, l) ∷ m) n k j =
    ground (arith, eq_iff i n, eq_iff i j, eq_iff n j, pin_of-set_pin m n k j)

pub pin_of-delete_pin :
    (m : Pins) (n j : String) → pin_of (delete_pin m n) j ≡ (if str_eq n j then "" else pin_of m j)
unfolding pin_of delete_pin
pin_of-delete_pin [] n j = ground arith
pin_of-delete_pin ((i, l) ∷ m) n j =
    ground (arith, eq_iff i n, eq_iff i j, eq_iff n j, pin_of-delete_pin m n j)

module _ (g : GoText) where
  pub all_valid-set_pin :
      (m : Pins) (n k : String)
      → all_valid g m ≡ true
      → validate_noise_pin g n k ≡ true
      → all_valid g (set_pin m n k) ≡ true
  unfolding all_valid set_pin
  all_valid-set_pin [] n k h v = ground arith
  all_valid-set_pin ((i, l) ∷ m) n k h v = ground (arith, eq_iff i n, all_valid-set_pin m n k)

  -- The file is usable and pins `key` for `node`.
  abbrev pub Trusts : PinFile → String → String → Type 0
  Trusts file node key = load_noise_pin g none node file ≡ some key

  record_pin-Trusts :
      (conflict : Err) (fault : Fault) (n k node key : String) (m : Pins)
      → validate_noise_pin g n k ≡ true
      → all_valid g m ≡ true
      → key ≢ ""
      → pin_of m node ≡ key
      → Trusts (record_pin g conflict fault n k (holds m) (pins m)).0 node key
  unfolding record_pin publish load_noise_pin read_noise_pins
  record_pin-Trusts conflict fault n k node key m v a ne e =
      ground
        (arith, eq_iff n node, eq_iff key "", pin_of-set_pin m n k node, all_valid-set_pin m n k)

  locked_record-Trusts :
      (conflict : Err) (lock : Option Err) (fault : Fault) (n k node key : String) (file : PinFile)
      → key ≢ ""
      → Trusts file node key
      → Trusts (locked_record g conflict lock fault n k file).0 node key
  unfolding locked_record
  locked_record-Trusts conflict (some x) fault n k node key file ne h = ground arith
  locked_record-Trusts conflict none fault n k node key (holds m) ne h =
      elim (Bool-cases (validate_noise_pin g n k)) [
        | inr bad ↦ rw bad h
        | inl fits ↦
            unfold load_noise_pin read_noise_pins in
            ground (arith, record_pin-Trusts conflict fault n k node key m fits)
      ]
  locked_record-Trusts conflict none fault n k node key missing ne h =
      unfold load_noise_pin read_noise_pins pin_of in ground (arith, eq_iff key "")
  locked_record-Trusts conflict none fault n k node key _ ne h =
      unfold load_noise_pin read_noise_pins in ground arith

  -- A first contact or an explicit save: the lock's answer, where publishing fails, the hub, its key.
  pub data Record : Type 0 where
    saving pinning : Option Err → Fault → String → String → Record

  unfoldable pub perform : Record → PinFile → PinFile
  perform (saving lock fault n k) file = (save_noise_pin g lock fault n k file).0
  perform (pinning lock fault n k) file = (pin_noise_peer g lock fault n k file).0

  unfoldable pub perform_all : List Record → PinFile → PinFile
  perform_all [] file = file
  perform_all (r ∷ rs) file = perform_all rs (perform r file)

  pin_noise_peer-Trusts :
      (lock : Option Err) (fault : Fault) (n k node key : String) (file : PinFile)
      → key ≢ ""
      → Trusts file node key
      → Trusts (pin_noise_peer g lock fault n k file).0 node key
  unfolding pin_noise_peer
  pin_noise_peer-Trusts lock fault n k node key file ne h =
      elim (Bool-cases (str_eq n "" || str_eq k "")) [
        | inl bare ↦ rw (bare, pin_noise_peer) h
        | inr named ↦
            rw (named, pin_noise_peer)
              (locked_record-Trusts (err_connection ∷ err_hub_key_changed ∷ []) lock fault n k node
                key file ne h)
      ]

  perform-Trusts :
      (r : Record) (node key : String) (file : PinFile)
      → key ≢ ""
      → Trusts file node key
      → Trusts (perform r file) node key
  unfolding perform save_noise_pin
  perform-Trusts (saving lock fault n k) node key file ne h =
      locked_record-Trusts (err_connection ∷ []) lock fault n k node key file ne h
  perform-Trusts (pinning lock fault n k) node key file ne h =
      pin_noise_peer-Trusts lock fault n k node key file ne h

  -- A key, not empty, that the file pins for a hub stays the pinned one through any saves and first
  -- contacts, of this hub or of others, with whatever keys, and wherever they fail.
  pub perform_all-Trusts :
      (rs : List Record) (node key : String) (file : PinFile)
      → key ≢ ""
      → Trusts file node key
      → Trusts (perform_all rs file) node key
  unfolding perform_all
  perform_all-Trusts [] node key file ne h = h
  perform_all-Trusts (r ∷ rs) node key file ne h =
      perform_all-Trusts rs node key (perform r file) ne (perform-Trusts r node key file ne h)

  -- When the lock is taken, a hub that shows a well-formed key other than the one pinned for it is
  -- refused as ErrHubKeyChanged, and the file is untouched.
  pub pin_noise_peer_changed :
      (fault : Fault) (node old key : String) (file : PinFile)
      → old ≢ ""
      → Trusts file node old
      → validate_noise_pin g node key ≡ true
      → node ≢ ""
      → key ≢ ""
      → g.equal_fold old key ≡ false
      → pin_noise_peer g none fault node key file
        ≡ (file, some (err_connection ∷ err_hub_key_changed ∷ []))
  unfolding pin_noise_peer locked_record record_pin load_noise_pin read_noise_pins
  pin_noise_peer_changed fault node old key (holds m) ho h v nn nk d =
      ground (arith, eq_iff old "", eq_iff node "", eq_iff key "")
  pin_noise_peer_changed fault node old key missing ho h v nn nk d =
      unfold pin_of in ground (arith, eq_iff old "")
  pin_noise_peer_changed fault node old key _ ho h v nn nk d = ground arith
