-- ===== src/FrameBits/Bits.antt =====
-- The bit operations of wire.go as arithmetic, and numbers as lists of bits, the highest first.
use Prim.Native.Nat.{bit_and, bit_or, bit_and-bitwise, bit_or-bitwise, digits, min, max}
use thalovant_go_sdk.Prelude.{
  ℕ, zero, suc, ◌+◌, ◌*◌, ◌/◌, ◌%◌, ◌^◌, ◌<◌, ◌≤◌, ◌⊎◌, inl, inr, Bool, true, ◌&&◌, List, [], ◌∷◌,
  ◌++◌, ◌≡◌, refl, arith, ◌==◌, length,
}
use thalovant_go_sdk.Noise.{Bytes}

unfoldable pub bits : ℕ → ℕ → List ℕ
bits zero n = []
bits (suc width) n = n / 2 ^ width % 2 ∷ bits width n

unfoldable pub stream : Bytes → List ℕ
stream [] = []
stream (b ∷ bs) = bits 8 b ++ stream bs

-- The zeros in front of a frame.
unfoldable pub padding : ℕ → List ℕ
padding zero = []
padding (suc k) = 0 ∷ padding k

pub length-padding : (k : ℕ) → length (padding k) ≡ k
unfolding padding
length-padding zero = refl
length-padding (suc k) = omega (arith, length-padding k)

module _ (f g : ℕ → ℕ) where
  agree_below : ℕ → Bool
  agree_below zero = true
  agree_below (suc n) = f n == g n && agree_below n

  agree_below→eq : (n : ℕ) → agree_below n ≡ true → (i : ℕ) → i < n → f i ≡ g i
  unfolding agree_below
  agree_below→eq zero e i h = absurd (omega arith)
  agree_below→eq (suc n) e i h = ground (arith, agree_below→eq n (ground arith) i)

or_digits-zero : (n a : ℕ) → a ≤ n → digits (λ b. b) max n a 0 ≡ a
or_digits-zero zero a l = omega arith
or_digits-zero (suc n) zero l = refl
or_digits-zero (suc n) (suc a) l = omega (arith, or_digits-zero n (suc a / 2) (omega arith))

or_digits-one : (n a : ℕ) → a ≤ n → a % 2 ≡ 0 → digits (λ b. b) max n a 1 ≡ a + 1
or_digits-one zero a l e = omega arith
or_digits-one (suc n) zero l e = refl
or_digits-one (suc n) (suc a) l e = omega (arith, or_digits-zero n (suc a / 2) (omega arith))

-- `value<<1 | bit`
pub bit_or-bit : (v bit : ℕ) → (bit ≡ 0) ⊎ (bit ≡ 1) → bit_or (v * 2) bit ≡ v * 2 + bit
bit_or-bit v bit (inl e) =
    rw e (omega (arith, bit_or-bitwise (v * 2) 0, or_digits-zero (v * 2) (v * 2) (omega arith)))
bit_or-bit v bit (inr e) = rw e (
    omega
      (arith, bit_or-bitwise (v * 2) 1, or_digits-one (v * 2) (v * 2) (omega arith) (omega arith)))

pub head_byte : (t : ℕ) → t < 32 → bit_or 0x80 (bit_and t 0x1f * 2 % 2 ^ 8) ≡ 128 + t * 2
unfolding agree_below
head_byte =
    agree_below→eq (λ t. bit_or 0x80 (bit_and t 0x1f * 2 % 2 ^ 8)) (λ t. 128 + t * 2) 32 refl

digits-zero : (n a : ℕ) → digits (λ b. 0) min n a 0 ≡ 0
digits-zero zero a = refl
digits-zero (suc n) zero = refl
digits-zero (suc n) (suc a) = omega (arith, digits-zero n (suc a / 2))

pub bit_and-one : (a : ℕ) → bit_and a 1 ≡ a % 2
bit_and-one zero = refl
bit_and-one (suc a) = omega (arith, bit_and-bitwise (suc a) 1, digits-zero a (suc a / 2))
