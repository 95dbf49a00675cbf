-- ===== src/Base/Bits.antt =====
-- `&` with a mask and `|` of disjoint fields as arithmetic, at every width.
pub mod Xor
pub mod Sum
use Prim.Native.Nat.{
  ℕ, zero, suc, ◌+◌, ◌-◌, ◌*◌, ◌/◌, ◌%◌, ◌^◌, ◌≤◌, ◌<◌, min, max, bit_and, bit_or, digits,
  bit_and-bitwise, bit_or-bitwise,
}
use mathlib.Core.Path.{◌≡◌, refl, sym, ap, ◌∙◌}
use native.Mathlib.Nat.{pow-suc, pow-succ', one-le-pow, div-add-mod, div-div-eq-div-mul}
use native.Mathlib.Omega.{arith}

-- The count of digits to go does not matter once it covers the number.
module _ (z : ℕ → ℕ) (f : ℕ → ℕ → ℕ) where
  pub enough_digits : (n m a b : ℕ) → a ≤ n → a ≤ m → digits z f n a b ≡ digits z f m a b
  enough_digits zero zero a b p q = refl
  enough_digits zero (suc m) zero b p q = refl
  enough_digits zero (suc m) (suc a) b p q = absurd (omega arith)
  enough_digits (suc n) zero zero b p q = refl
  enough_digits (suc n) zero (suc a) b p q = absurd (omega arith)
  enough_digits (suc n) (suc m) zero b p q = refl
  enough_digits (suc n) (suc m) (suc a) b p q =
      let ih = enough_digits n m (suc a / 2) (b / 2) (omega arith) (omega arith) in
      ap (λ t. t * 2 + f (suc a % 2) (b % 2)) ih

-- One digit of each operation.
and_digit : (a b : ℕ) → bit_and a b ≡ bit_and (a / 2) (b / 2) * 2 + min (a % 2) (b % 2)
and_digit zero b = omega (arith, bit_and-bitwise 0 b, bit_and-bitwise 0 (b / 2))
and_digit (suc a) b = omega (
  arith,
  bit_and-bitwise (suc a) b,
  bit_and-bitwise (suc a / 2) (b / 2),
  enough_digits (λ _. 0) min a (suc a / 2) (suc a / 2) (b / 2) (omega arith) (omega arith),
)

or_digit : (a b : ℕ) → bit_or a b ≡ bit_or (a / 2) (b / 2) * 2 + max (a % 2) (b % 2)
or_digit zero b = omega (arith, bit_or-bitwise 0 b, bit_or-bitwise 0 (b / 2))
or_digit (suc a) b = omega (
  arith,
  bit_or-bitwise (suc a) b,
  bit_or-bitwise (suc a / 2) (b / 2),
  enough_digits (λ c. c) max a (suc a / 2) (suc a / 2) (b / 2) (omega arith) (omega arith),
)

and_zero_below : (n a : ℕ) → a ≤ n → bit_and a 0 ≡ 0
and_zero_below n zero h = refl
and_zero_below zero (suc a) h = absurd (omega arith)
and_zero_below (suc n) (suc a) h =
    omega (arith, and_digit (suc a) 0, and_zero_below n (suc a / 2) (omega arith))

or_zero_below : (n a : ℕ) → a ≤ n → bit_or a 0 ≡ a
or_zero_below n zero h = refl
or_zero_below zero (suc a) h = absurd (omega arith)
or_zero_below (suc n) (suc a) h =
    omega (arith, or_digit (suc a) 0, or_zero_below n (suc a / 2) (omega arith))

pub bit_and-zero : (a : ℕ) → bit_and a 0 ≡ 0
bit_and-zero a = and_zero_below a a (omega arith)

pub bit_or-zero : (a : ℕ) → bit_or a 0 ≡ a
bit_or-zero a = or_zero_below a a (omega arith)

doubled : (q k : ℕ) → q * 2 ^ suc k ≡ 2 * (q * 2 ^ k)
doubled q k = omega (arith, ap (λ (t : ℕ). q * t) (pow-suc 2 k))

pub half-div : (a k : ℕ) → a / 2 / 2 ^ k ≡ a / 2 ^ suc k
half-div a k = div-div-eq-div-mul a 2 (2 ^ k) ∙ ap (λ (t : ℕ). a / t) (sym (pow-succ' 2 k))

pub half-mod : (a k : ℕ) → a % 2 ^ suc k ≡ 2 * (a / 2 % 2 ^ k) + a % 2
half-mod a k = omega (
  arith,
  div-add-mod a (2 ^ suc k),
  div-add-mod (a / 2) (2 ^ k),
  doubled (a / 2 ^ suc k) k,
  ap (λ (t : ℕ). t * 2 ^ k) (half-div a k),
)

-- A mask that is shifted left by `k` selects from the number shifted right.
pub bit_and_shifted : (k a m : ℕ) → bit_and a (m * 2 ^ k) ≡ bit_and (a / 2 ^ k) m * 2 ^ k
bit_and_shifted zero a m = ground arith
bit_and_shifted (suc k) a m = ground (
  arith,
  and_digit a (m * 2 ^ suc k),
  doubled m k,
  doubled (bit_and (a / 2 ^ suc k) m) k,
  half-div a k,
  bit_and_shifted k (a / 2) m,
)

-- A mask of `k` ones is the remainder by `2 ^ k`.
pub bit_and_low : (k a : ℕ) → bit_and a (2 ^ k - 1) ≡ a % 2 ^ k
bit_and_low zero a = rw bit_and-zero (omega arith)
bit_and_low (suc k) a = ground (
  arith,
  and_digit a (2 ^ suc k - 1),
  pow-suc 2 k,
  one-le-pow k 2,
  bit_and_low k (a / 2),
  half-mod a k,
)

-- `(q << k) | r`, where `r` has at most `k` bits.
pub bit_or_fields : (k q r : ℕ) → r < 2 ^ k → bit_or (q * 2 ^ k) r ≡ q * 2 ^ k + r
bit_or_fields zero q r h = ground (arith, bit_or-zero q)
bit_or_fields (suc k) q r h =
    ground (arith, or_digit (q * 2 ^ suc k) r, doubled q k, pow-suc 2 k, bit_or_fields k q (r / 2))

-- `r | (q << k)`, the other way round.
pub bit_or_low_fields : (k q r : ℕ) → r < 2 ^ k → bit_or r (q * 2 ^ k) ≡ q * 2 ^ k + r
bit_or_low_fields zero q zero h = omega (arith, or_digit 0 q, bit_or-bitwise 0 (q * 2 ^ 0))
bit_or_low_fields zero q (suc r) h = absurd (omega arith)
bit_or_low_fields (suc k) q r h =
    ground
      (arith, or_digit r (q * 2 ^ suc k), doubled q k, pow-suc 2 k, bit_or_low_fields k q (r / 2))

-- The masks that the frames use.
pub and_0x01 : (b : ℕ) → bit_and b 0x01 ≡ b % 2
and_0x01 = bit_and_low 1

pub and_0x03 : (b : ℕ) → bit_and b 0x03 ≡ b % 4
and_0x03 = bit_and_low 2

pub and_0x07 : (b : ℕ) → bit_and b 0x07 ≡ b % 8
and_0x07 = bit_and_low 3

pub and_0x7f : (b : ℕ) → bit_and b 0x7f ≡ b % 128
and_0x7f = bit_and_low 7

pub and_0x02 : (b : ℕ) → bit_and b 0x02 ≡ b / 2 % 2 * 2
and_0x02 b = bit_and_shifted 1 b 1 ∙ ap (λ (t : ℕ). t * 2) (and_0x01 (b / 2))

pub and_0x0e : (b : ℕ) → bit_and b 0x0e ≡ b / 2 % 8 * 2
and_0x0e b = bit_and_shifted 1 b 7 ∙ ap (λ (t : ℕ). t * 2) (and_0x07 (b / 2))

pub and_0x10 : (b : ℕ) → bit_and b 0x10 ≡ b / 16 % 2 * 16
and_0x10 b = bit_and_shifted 4 b 1 ∙ ap (λ (t : ℕ). t * 16) (and_0x01 (b / 16))

pub and_0x80 : (b : ℕ) → bit_and b 0x80 ≡ b / 128 % 2 * 128
and_0x80 b = bit_and_shifted 7 b 1 ∙ ap (λ (t : ℕ). t * 128) (and_0x01 (b / 128))

pub and_0xe0 : (b : ℕ) → bit_and b 0xe0 ≡ b / 32 % 8 * 32
and_0xe0 b = bit_and_shifted 5 b 7 ∙ ap (λ (t : ℕ). t * 32) (and_0x07 (b / 32))
