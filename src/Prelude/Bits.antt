-- ===== src/Prelude/Bits.antt =====
-- Masks and flips as arithmetic. Those on a byte are tables, checked by evaluation.
use Prim.Native.Nat.{
  ℕ, zero, suc, ◌+◌, ◌*◌, ◌/◌, ◌%◌, ◌-◌, ◌≤◌, ◌<◌, bit_and, bit_or, bit_xor, digits, differ,
  bit_xor-bitwise,
}
use mathlib.Core.Path.{◌≡◌, refl}
use mathlib.Core.Bool.{Bool, true, false}
use native.Mathlib.Omega.{arith}
use lattica.Prelude.Tests.{◌==◌, if◌then◌else◌}

module _ (f g : ℕ → ℕ) where
  agree_below : ℕ → Bool
  agree_below zero = true
  agree_below (suc n) = let rest = agree_below n in if f n == g n then rest else false

  agree_below→eq : (n : ℕ) → agree_below n ≡ true → (i : ℕ) → i < n → f i ≡ g i
  unfolding agree_below
  agree_below→eq zero e i h = absurd (omega arith)
  agree_below→eq (suc n) e i h = ground (arith, agree_below→eq n (ground arith) i)

pub low_nibble : (b : ℕ) → b < 256 → bit_and b 0x0f ≡ b % 16
unfolding agree_below
low_nibble = agree_below→eq _ _ 256 refl

pub high_nibble : (b : ℕ) → b < 256 → bit_and b 0xf0 ≡ b / 16 * 16
unfolding agree_below
high_nibble = agree_below→eq _ _ 256 refl

pub or_nibble_60 : (n : ℕ) → n < 16 → bit_or 0x60 n ≡ 0x60 + n
unfolding agree_below
or_nibble_60 = agree_below→eq _ _ 16 refl

pub or_nibble_70 : (n : ℕ) → n < 16 → bit_or 0x70 n ≡ 0x70 + n
unfolding agree_below
or_nibble_70 = agree_below→eq _ _ 16 refl

pub or_nibble_90 : (n : ℕ) → n < 16 → bit_or 0x90 n ≡ 0x90 + n
unfolding agree_below
or_nibble_90 = agree_below→eq _ _ 16 refl

pub or_nibble_b0 : (n : ℕ) → n < 16 → bit_or 0xb0 n ≡ 0xb0 + n
unfolding agree_below
or_nibble_b0 = agree_below→eq _ _ 16 refl

pub top_bit : (b : ℕ) → b < 256 → bit_and b 0x80 ≡ b / 128 * 128
unfolding agree_below
top_bit = agree_below→eq _ _ 256 refl

xor_rest : (n x : ℕ) → x ≤ n → digits (λ b. b) differ n x 0 ≡ x
xor_rest zero zero h = refl
xor_rest zero (suc x) h = absurd (omega arith)
xor_rest (suc n) zero h = refl
xor_rest (suc n) (suc x) h =
    omega (arith, xor_rest n (suc x / 2) (omega arith), differ-zero (suc x % 2))
  where
    differ-zero : (d : ℕ) → differ d 0 ≡ d
    differ-zero zero = refl
    differ-zero (suc d) = refl

-- `x ^ 1` flips the lowest bit.
pub xor_one : (x : ℕ) → bit_xor x 1 ≡ (if x % 2 == 0 then x + 1 else x - 1)
xor_one zero = refl
xor_one (suc x) =
    rw (bit_xor-bitwise (suc x) 1, xor_rest x (suc x / 2) (omega arith))
      (ground (arith, differ-one (suc x % 2) (omega arith)))
  where
    differ-one : (d : ℕ) → d < 2 → differ d 1 ≡ 1 - d
    differ-one zero h = refl
    differ-one (suc zero) h = refl
    differ-one (suc (suc d)) h = absurd (omega arith)
