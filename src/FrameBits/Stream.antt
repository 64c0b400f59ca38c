-- ===== src/FrameBits/Stream.antt =====
-- wire.go: the bit reader reads the bits of its payload in turn.
use Prim.Native.Nat.{bit_or}
use mathlib.Core.List.{append_assoc, append-nil}
use mathlib.Core.Path.{subst}
use thalovant_go_sdk.Prelude.{
  ℕ, zero, suc, ◌+◌, ◌*◌, ◌-◌, ◌/◌, ◌%◌, ◌^◌, ◌<◌, false, List, [], ◌∷◌, ◌++◌, ◌≡◌, ◌⊎◌, inl, inr,
  refl, ap, sym, ◌∙◌, arith, leb, ltb, ltb→lt, Bool-cases, length, drop, All, length-append,
  length-drop,
}
use thalovant_go_sdk.Noise.{Bytes}
use thalovant_go_sdk.FrameBits.{
  Result, ok, ◌>>=◌, BitReader, byte_at, new_bit_reader, read_bit, read_bits, read_uint, read_bytes,
  read_remaining_bytes, skip_padding_loop, skip_left_padding,
}
use thalovant_go_sdk.FrameBits.Bits.{bits, stream, length-padding, padding, bit_or-bit, bit_and-one}

unfoldable pub IsByte : ℕ → Type 0
IsByte b = b < 256

-- A reader with these bits ahead of it.
unfoldable pub Reads : BitReader → List ℕ → Type 0
Reads r xs = drop r.offset (stream r.payload) ≡ xs

-- The read has this answer and leaves a reader with these bits ahead of it.
unfoldable pub Yields {ℓ} : {A : Type ℓ} → Result (A × BitReader) → A → List ℕ → Type ℓ
Yields m a xs = (r : BitReader) × (m ≡ ok (a, r)) × Reads r xs

pub length-stream : (p : Bytes) → length (stream p) ≡ 8 * length p
unfolding stream bits
length-stream [] = refl
length-stream (b ∷ bs) = omega (arith, length-stream bs)

bit_of : Bytes → ℕ → ℕ
bit_of p n = byte_at p (n / 8) / 2 ^ (7 - n % 8) % 2

bit_of_next : (b : ℕ) (p : Bytes) (n : ℕ) → bit_of (b ∷ p) (8 + n) ≡ bit_of p n
unfolding bit_of byte_at
bit_of_next b p n = rw (eight_div n, eight_mod n)
  where
    eight_div : (m : ℕ) → (8 + m) / 8 ≡ suc (m / 8)
    eight_div m = omega arith

    eight_mod : (m : ℕ) → (8 + m) % 8 ≡ m % 8
    eight_mod m = omega arith

bits_head :
    (w n b : ℕ) (rest : List ℕ) (x : ℕ) (xs : List ℕ)
    → n < w
    → drop n (bits w b ++ rest) ≡ x ∷ xs
    → b / 2 ^ (w - 1 - n) % 2 ≡ x
unfolding bits
bits_head zero n b rest x xs l h = absurd (omega arith)
bits_head (suc w) zero b rest x xs l h =
    let first : b / 2 ^ w % 2 ≡ x = cc in ap (λ e. b / 2 ^ e % 2) (omega arith) ∙ first
bits_head (suc w) (suc n) b rest x xs l h =
    ap (λ e. b / 2 ^ e % 2) (same_place w n) ∙ bits_head w n b rest x xs (omega arith) h
  where
    same_place : (w n : ℕ) → suc w - 1 - suc n ≡ w - 1 - n
    same_place w n = omega arith

drop_past : (w n k b : ℕ) (rest : List ℕ) → k ≡ w + n → drop k (bits w b ++ rest) ≡ drop n rest
unfolding bits
drop_past zero n k b rest e = ap (λ m. drop m rest) (omega arith)
drop_past (suc w) n zero b rest e = absurd (omega arith)
drop_past (suc w) n (suc k) b rest e = drop_past w n k b rest (omega arith)

eight-cases : (n : ℕ) → (n < 8) ⊎ ((m : ℕ) × (n ≡ 8 + m))
eight-cases n = elim (Bool-cases (ltb n 8)) [
  | inl e ↦ inl (ltb→lt n 8 e)
  | inr e ↦ inr (n - 8, ground arith)
]

low_place : (n : ℕ) → n < 8 → 7 - n % 8 ≡ 8 - 1 - n
low_place n l = omega arith

no_eights : (n : ℕ) → n < 8 → n / 8 ≡ 0
no_eights n l = omega arith

drop_bit :
    (p : Bytes) (n x : ℕ) (xs : List ℕ)
    → drop n (stream p) ≡ x ∷ xs
    → (bit_of p n ≡ x) × (n < length p * 8)
unfolding bit_of byte_at stream
drop_bit [] zero x xs h = cc
drop_bit [] (suc n) x xs h = cc
drop_bit (b ∷ p) n x xs h = elim (eight-cases n) [
  | inl l ↦ (rw (no_eights n l, low_place n l) (bits_head 8 n b (stream p) x xs l h), omega arith)
  | inr (m, e) ↦
      let further = drop_bit p m x xs (sym (drop_past 8 m n b (stream p) e) ∙ h) in
      (ap (bit_of (b ∷ p)) e ∙ bit_of_next b p m ∙ further.0, omega (arith, further.1))
]

drop_next : (n : ℕ) (ys : List ℕ) {x : ℕ} {xs : List ℕ} → drop n ys ≡ x ∷ xs → drop (suc n) ys ≡ xs
drop_next zero [] h = cc
drop_next (suc n) [] h = cc
drop_next zero (y ∷ ys) h = cc
drop_next (suc n) (y ∷ ys) h = drop_next n ys h

pub Yields-bind :
    {A B : Type 0} (m : Result (A × BitReader)) (f : A × BitReader → Result (B × BitReader)) (a : A)
    (b : B) (xs ys : List ℕ)
    → Yields m a xs
    → ((r : BitReader) → Reads r xs → Yields (f (a, r)) b ys)
    → Yields (m >>= f) b ys
unfolding Yields
Yields-bind m f a b xs ys (r, e, h) next = rw e (next r h)

pub read_bit-Yields :
    (r : BitReader) (x : ℕ) (xs : List ℕ) → Reads r (x ∷ xs) → Yields (read_bit r) x xs
unfolding read_bit Reads Yields bit_of
read_bit-Yields r x xs h =
    let seen = drop_bit r.payload r.offset x xs h in
    let value = bit_and-one (byte_at r.payload (r.offset / 8) / 2 ^ (7 - r.offset % 8)) ∙ seen.0 in
    let inside : leb (length r.payload * 8) r.offset ≡ false = ground (arith, seen.1) in
    (
      record r { offset = suc r.offset },
      rw (inside, value) refl,
      drop_next r.offset (stream r.payload) h,
    )

-- The number that `width` bits of `n` make, read after `value`.
value_of : ℕ → ℕ → ℕ → ℕ
value_of zero value n = value
value_of (suc width) value n = value_of width (value * 2 + n / 2 ^ width % 2) n

read_bits-Yields :
    (width value n : ℕ) (r : BitReader) (xs : List ℕ)
    → Reads r (bits width n ++ xs)
    → Yields (read_bits width value r) (value_of width value n) xs
unfolding read_bits value_of bits Yields
read_bits-Yields zero value n r xs h = (r, refl, h)
read_bits-Yields (suc width) value n r xs h =
    let bit = n / 2 ^ width % 2 in
    Yields-bind (read_bit r) (λ p. read_bits width (bit_or (value * 2) p.0) p.1) bit
      (value_of width (value * 2 + bit) n) (bits width n ++ xs) xs
      (read_bit-Yields r bit (bits width n ++ xs) h)
      (λ r' h'.
        rw (bit_or-bit value bit (bit-cases (n / 2 ^ width)))
          (read_bits-Yields width (value * 2 + bit) n r' xs h'))
  where
    bit-cases : (m : ℕ) → (m % 2 ≡ 0) ⊎ (m % 2 ≡ 1)
    bit-cases m = ground arith

read_uint-Yields :
    (width n : ℕ) (r : BitReader) (xs : List ℕ)
    → value_of width 0 n ≡ n
    → Reads r (bits width n ++ xs)
    → Yields (read_uint width r) n xs
read_uint-Yields width n r xs e h =
    subst (λ m. Yields (read_uint width r) m xs) e (read_bits-Yields width 0 n r xs h)

module _ (n : ℕ) (r : BitReader) (xs : List ℕ) where
  pub read_byte-Yields : n < 256 → Reads r (bits 8 n ++ xs) → Yields (read_uint 8 r) n xs
  unfolding value_of
  read_byte-Yields l h = read_uint-Yields 8 n r xs (omega arith) h

  pub read_five-Yields : n < 32 → Reads r (bits 5 n ++ xs) → Yields (read_uint 5 r) n xs
  unfolding value_of
  read_five-Yields l h = read_uint-Yields 5 n r xs (omega arith) h

  pub read_four-Yields : n < 16 → Reads r (bits 4 n ++ xs) → Yields (read_uint 4 r) n xs
  unfolding value_of
  read_four-Yields l h = read_uint-Yields 4 n r xs (omega arith) h

pub read_bytes-Yields :
    (p : Bytes) (r : BitReader) (xs : List ℕ)
    → All IsByte p
    → Reads r (stream p ++ xs)
    → Yields (read_bytes (length p) r) p xs
unfolding read_bytes stream IsByte Yields Reads
read_bytes-Yields [] r xs all h = (r, refl, h)
read_bytes-Yields (b ∷ p) r xs (l, all) h =
    Yields-bind (read_uint 8 r) (λ q. read_bytes (length p) q.1 >>= λ q'. ok (q.0 ∷ q'.0, q'.1)) b
      (b ∷ p) (stream p ++ xs) xs
      (read_byte-Yields b r (stream p ++ xs) l (h ∙ append_assoc (bits 8 b) (stream p) xs))
      (λ r' h'.
        Yields-bind (read_bytes (length p) r') (λ q'. ok (b ∷ q'.0, q'.1)) p (b ∷ p) xs xs
          (read_bytes-Yields p r' xs all h') (λ r'' h''. (r'', refl, h'')))

pub read_remaining_bytes-Yields :
    (p : Bytes) (r : BitReader)
    → All IsByte p
    → Reads r (stream p)
    → Yields (read_remaining_bytes r) p []
unfolding read_remaining_bytes Reads
read_remaining_bytes-Yields p r all h =
    let left : length (stream p) ≡ length (stream r.payload) - r.offset =
      ap length (sym h) ∙ length-drop r.offset (stream r.payload) in
    let count : (length r.payload * 8 - r.offset) / 8 ≡ length p =
      omega (arith, left, length-stream p, length-stream r.payload) in
    rw count (read_bytes-Yields p r [] all (h ∙ sym (append-nil (stream p))))

skip_padding_loop-Reads :
    (k fuel : ℕ) (r : BitReader) (xs : List ℕ)
    → k < fuel
    → Reads r (padding k ++ 1 ∷ xs)
    → (r' : BitReader) × (skip_padding_loop fuel r ≡ ok r') × Reads r' xs
unfolding skip_padding_loop padding Yields
skip_padding_loop-Reads k zero r xs l h = absurd (omega arith)
skip_padding_loop-Reads zero (suc fuel) r xs l h =
    let (r', e, h') = read_bit-Yields r 1 xs h in (r', rw e refl, h')
skip_padding_loop-Reads (suc k) (suc fuel) r xs l h =
    let (r', e, h') = read_bit-Yields r 0 (padding k ++ 1 ∷ xs) h in
    let (r'', e', h'') = skip_padding_loop-Reads k fuel r' xs (omega arith) h' in
    (r'', rw e e', h'')

pub skip_left_padding-Reads :
    (p : Bytes) (k : ℕ) (xs : List ℕ)
    → stream p ≡ padding k ++ 1 ∷ xs
    → (r : BitReader) × (skip_left_padding (new_bit_reader p) ≡ ok r) × Reads r xs
unfolding skip_left_padding Reads
skip_left_padding-Reads p k xs e =
    let total : length (stream p) ≡ length (padding k) + suc (length xs) =
      ap length e ∙ length-append (padding k) (1 ∷ xs) in
    skip_padding_loop-Reads k (suc (length p * 8)) (new_bit_reader p) xs
      (omega (arith, total, length-padding k, length-stream p)) e

pub stream-append : (p q : Bytes) → stream (p ++ q) ≡ stream p ++ stream q
unfolding stream
stream-append [] q = refl
stream-append (b ∷ p) q =
    ap (λ s. bits 8 b ++ s) (stream-append p q)
    ∙ sym (append_assoc (bits 8 b) (stream p) (stream q))
