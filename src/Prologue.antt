-- ===== src/Prologue.antt =====
-- noise.go: what the two peers of a handshake agree on before it: the pattern and the suite, and the
-- prologue, which is made of canonical JSON.
-- Names of patterns and suites are strings. A text inside JSON is the list of its code points, and so
-- is what is written; a lone surrogate or an invalid byte is the code point of utf8.RuneError. A Go map
-- is an association list; sort.Strings and strconv.FormatFloat are parameters.
pub mod Offers
pub mod Order
pub mod Strings
mod Tests
use text.Mathlib.Text.{◌==◌ as str_eq}
use thalovant_go_sdk.Prelude.{
  ℕ, ◌+◌, ◌/◌, ◌%◌, Bool, true, false, not, ◌&&◌, ◌||◌, Option, none, some, String, List, [], ◌∷◌,
  ◌++◌, ltb, ◌==◌, if◌then◌else◌,
}

abbrev pub noise_pattern_kk : String
noise_pattern_kk = "KKpsk0"

abbrev pub noise_pattern_xx : String
noise_pattern_xx = "XXpsk2"

abbrev pub noise_suites : List String
noise_suites = "25519_ChaChaPoly_SHA256" ∷ "25519_AESGCM_SHA256" ∷ []

unfoldable pub contains_string : List String → String → Bool
contains_string [] needle = false
contains_string (item ∷ haystack) needle = str_eq item needle || contains_string haystack needle

-- The loop over the suites; "" for none.
unfoldable pub first_suite : List String → List String → String
first_suite server_suites [] = ""
first_suite server_suites (candidate ∷ rest) =
    if contains_string server_suites candidate then candidate else first_suite server_suites rest

-- The pattern and the suite, or none.
unfoldable pub select_pattern : List String → String → String → Option (String × String)
select_pattern server_patterns pinned suite =
    if not (str_eq pinned "") && contains_string server_patterns noise_pattern_kk
    then some (noise_pattern_kk, suite)
    else if contains_string server_patterns noise_pattern_xx
    then some (noise_pattern_xx, suite)
    else none

unfoldable pub select_noise_options : List String → List String → String → Option (String × String)
select_noise_options server_patterns server_suites pinned =
    let suite = first_suite server_suites noise_suites in
    if str_eq suite "" then none else select_pattern server_patterns pinned suite

abbrev pub Text : Type 0
Text = List ℕ

-- A decoded JSON value; `F` are the float64 values, and `unknown` is a value of another type.
module _ (F : Type 0) where
  mutual
    pub data Json : Type 0 where
      null unknown : Json
      flag : Bool → Json
      number string : Text → Json
      float : F → Json
      array : Items → Json
      object : Members → Json

    pub data Items : Type 0 where
      end : Items
      item : Json → Items → Items

    pub data Members : Type 0 where
      no_members : Members
      member : Text → Json → Members → Members

-- "0" to "9" and "a" to "f".
unfoldable pub hex_digit : ℕ → ℕ
hex_digit d = if ltb d 10 then 48 + d else 87 + d

-- The switch of writeCanonicalString: what a rune is written as.
unfoldable pub escape : ℕ → Text
escape r =
    if r == 34
    then 92 ∷ 34 ∷ []
    else if r == 92
    then 92 ∷ 92 ∷ []
    else if r == 8
    then 92 ∷ 98 ∷ []
    else if r == 12
    then 92 ∷ 102 ∷ []
    else if r == 10
    then 92 ∷ 110 ∷ []
    else if r == 13
    then 92 ∷ 114 ∷ []
    else if r == 9
    then 92 ∷ 116 ∷ []
    else if ltb r 32
    then 92 ∷ 117 ∷ 48 ∷ 48 ∷ hex_digit (r / 16) ∷ hex_digit (r % 16) ∷ []
    else r ∷ []

unfoldable pub escape_all : Text → Text
escape_all [] = []
escape_all (r ∷ rs) = escape r ++ escape_all rs

unfoldable pub write_canonical_string : Text → Text
write_canonical_string value = 34 ∷ (escape_all value ++ (34 ∷ []))

-- Go's (text, error) pair: `none` is ErrProtocol.
infixl 5 ◌>>=◌
abbrev pub ◌>>=◌ : Option Text → (Text → Option Text) → Option Text
none >>= f = none
some t >>= f = f t

abbrev pub text_eq : Text → Text → Bool
text_eq [] [] = true
text_eq [] (c ∷ t) = false
text_eq (c ∷ s) [] = false
text_eq (c ∷ s) (d ∷ t) = c == d && text_eq s t

-- What was written of a map's value for each key.
abbrev pub Written : Type 0
Written = List (Text × Option Text)

-- The value that was written under a key; a map is asked only for its keys.
unfoldable pub written_at : Written → Text → Option Text
written_at [] key = none
written_at ((k, t) ∷ rest) key = if text_eq k key then t else written_at rest key

-- The loop over the sorted keys, after the first one.
unfoldable pub write_more : Written → List Text → Option Text
write_more w [] = some []
write_more w (key ∷ keys) = do
  value ← written_at w key
  rest ← write_more w keys
  some (44 ∷ (write_canonical_string key ++ (58 ∷ (value ++ rest))))

unfoldable pub write_members : Written → List Text → Option Text
write_members w [] = some []
write_members w (key ∷ keys) = do
  value ← written_at w key
  rest ← write_more w keys
  some (write_canonical_string key ++ (58 ∷ (value ++ rest)))

unfoldable pub keys : {F : Type 0} → Members F → List Text
keys no_members = []
keys (member k v m) = k ∷ keys m

module _ {F : Type 0} (format_float : F → Text) (sort : List Text → List Text) where
  unfoldable mutual
    pub write_canonical : Json F → Option Text
    write_canonical null = some (110 ∷ 117 ∷ 108 ∷ 108 ∷ [])
    write_canonical (flag true) = some (116 ∷ 114 ∷ 117 ∷ 101 ∷ [])
    write_canonical (flag false) = some (102 ∷ 97 ∷ 108 ∷ 115 ∷ 101 ∷ [])
    write_canonical (number literal) = some literal
    write_canonical (float f) = some (format_float f)
    write_canonical (string t) = some (write_canonical_string t)
    write_canonical (array items) = do t ← write_items items; some (91 ∷ (t ++ (93 ∷ [])))
    write_canonical (object m) = do
      t ← write_members (write_values m) (sort (keys m))
      some (123 ∷ (t ++ (125 ∷ [])))
    write_canonical unknown = none

    pub write_items : Items F → Option Text
    write_items end = some []
    write_items (item v end) = write_canonical v
    write_items (item v (item v' items)) = do
      t ← write_canonical v
      rest ← write_items (item v' items)
      some (t ++ (44 ∷ rest))

    pub write_values : Members F → Written
    write_values no_members = []
    write_values (member k v m) = (k, write_canonical v) ∷ write_values m

  unfoldable pub build_prologue : Members F → Members F → Text → Option Text
  build_prologue hello_payload handshake_payload protocol_name = do
    hello ← write_canonical (object hello_payload)
    handshake ← write_canonical (object handshake_payload)
    some (hello ++ (handshake ++ protocol_name))
