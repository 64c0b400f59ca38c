-- ===== src/Prologue/Strings.antt =====
-- noise.go: a text that is written as a canonical JSON string can be read back.
use mathlib.Core.List.{append_assoc}
use thalovant_go_sdk.Prelude.{
  drop, ℕ, zero, suc, ◌+◌, ◌*◌, ◌-◌, ◌≤◌, ◌<◌, Bool, false, Option, none, some, [], ◌∷◌, ◌++◌, ◌≡◌,
  refl, arith, ltb, ◌==◌, length, if◌then◌else◌, length-append,
}
use thalovant_go_sdk.Prologue.{Text, hex_digit, escape, escape_all, write_canonical_string}

-- A reader of JSON strings: the value of a hex digit, the rune after a backslash, the next rune, and
-- the runes up to the closing quote with what comes after it.
unfoldable pub hex_value : ℕ → ℕ
hex_value c = if ltb c 58 then c - 48 else c - 87

unfoldable pub read_unicode : Text → Option (ℕ × Text)
read_unicode (a ∷ b ∷ c ∷ d ∷ s) =
    some (((hex_value a * 16 + hex_value b) * 16 + hex_value c) * 16 + hex_value d, s)
read_unicode _ = none

unfoldable pub read_escape : Text → Option (ℕ × Text)
read_escape [] = none
read_escape (c ∷ s) =
    if c == 98
    then some (8, s)
    else if c == 102
    then some (12, s)
    else if c == 110
    then some (10, s)
    else if c == 114
    then some (13, s)
    else if c == 116
    then some (9, s)
    else if c == 117
    then read_unicode s
    else some (c, s)

unfoldable pub read_rune : Text → Option (ℕ × Text)
read_rune [] = none
read_rune (c ∷ s) = if c == 34 then none else if c == 92 then read_escape s else some (c, s)

read_rune-escape : (r : ℕ) (s : Text) → read_rune (escape r ++ s) ≡ some (r, s)
unfolding read_rune escape read_escape read_unicode hex_value hex_digit
read_rune-escape r s = ground arith

abbrev is_quote : Text → Bool
is_quote [] = false
is_quote (c ∷ s) = c == 34

abbrev pub before : ℕ → Option (Text × Text) → Option (Text × Text)
before r none = none
before r (some (rs, s)) = some (r ∷ rs, s)

-- `none` when the fuel is out.
unfoldable pub read_text : ℕ → Text → Option (Text × Text)
read_text zero s = none
read_text (suc n) s =
    if is_quote s
    then some ([], drop 1 s)
    else elim (read_rune s) [ none ↦ none | some (r, s') ↦ before r (read_text n s') ]

-- Each rune takes a code point at least, so the length of the text is fuel enough.
unfoldable pub read_string : Text → Option (Text × Text)
read_string [] = none
read_string (c ∷ s) = if c == 34 then read_text (length s) s else none

no_quote : (r : ℕ) (s : Text) → is_quote (escape r ++ s) ≡ false
unfolding escape
no_quote r s = ground arith

escape_grows : (r : ℕ) → 1 ≤ length (escape r)
unfolding escape
escape_grows r = ground arith

read_text-escape_all :
    (n : ℕ) (v s : Text) → length v < n → read_text n (escape_all v ++ (34 ∷ s)) ≡ some (v, s)
unfolding read_text escape_all
read_text-escape_all zero v s l = absurd (omega arith)
read_text-escape_all (suc n) [] s l = refl
read_text-escape_all (suc n) (r ∷ rs) s l =
    rw
      (
        append_assoc (escape r) (escape_all rs) (34 ∷ s),
        no_quote r (escape_all rs ++ (34 ∷ s)),
        read_rune-escape r (escape_all rs ++ (34 ∷ s)),
        read_text-escape_all n rs s (omega arith),
      )
      refl

length-escape_all : (v : Text) → length v ≤ length (escape_all v)
unfolding escape_all
length-escape_all [] = omega arith
length-escape_all (r ∷ rs) =
    omega (arith, length-escape_all rs, escape_grows r, length-append (escape r) (escape_all rs))

-- A text that is written as a canonical JSON string, with anything behind it, is read back by a
-- reader of JSON strings, which then stands at what is behind it.
pub read_string-write_canonical_string :
    (v s : Text) → read_string (write_canonical_string v ++ s) ≡ some (v, s)
unfolding read_string write_canonical_string
read_string-write_canonical_string v s =
    let enough : length v < length (escape_all v ++ (34 ∷ s)) =
      omega (arith, length-escape_all v, length-append (escape_all v) (34 ∷ s)) in
    rw (append_assoc (escape_all v) (34 ∷ []) s) (read_text-escape_all _ v s enough)
