-- ===== src/Base/Bits/Sum.antt =====
-- `^` as the sum of polynomials over two elements: its algebra, and its fields.
use Prim.Native.Nat.{
  ℕ, zero, suc, ◌+◌, ◌*◌, ◌/◌, ◌%◌, ◌^◌, ◌≤◌, ◌<◌, bit_xor, differ, bit_xor-bitwise,
}
use mathlib.Core.Path.{◌≡◌, refl, sym, ◌∙◌}
use native.Mathlib.Omega.{arith}
use canopen_rs.Base.Bits.{half-mod}
use canopen_rs.Base.Bits.Xor.{xor_digit, differ_digit, xor-half, xor_comm, xor-zero_iff}

pub xor-odd : (a b : ℕ) → bit_xor a b % 2 ≡ differ (a % 2) (b % 2)
xor-odd a b =
    omega (arith, xor_digit a b, (differ_digit (a % 2) (b % 2) (omega arith) (omega arith)).0)

differ_assoc : (x y z : ℕ) → x < 2 → y < 2 → z < 2 → differ (differ x y) z ≡ differ x (differ y z)
differ_assoc zero zero zero h k l = refl
differ_assoc zero zero (suc zero) h k l = refl
differ_assoc zero (suc zero) zero h k l = refl
differ_assoc zero (suc zero) (suc zero) h k l = refl
differ_assoc (suc zero) zero zero h k l = refl
differ_assoc (suc zero) zero (suc zero) h k l = refl
differ_assoc (suc zero) (suc zero) zero h k l = refl
differ_assoc (suc zero) (suc zero) (suc zero) h k l = refl
differ_assoc (suc (suc x)) y z h k l = absurd (omega arith)
differ_assoc x (suc (suc y)) z h k l = absurd (omega arith)
differ_assoc x y (suc (suc z)) h k l = absurd (omega arith)

xor-assoc_below : (n a b c : ℕ) → a + b + c ≤ n → bit_xor (bit_xor a b) c ≡ bit_xor a (bit_xor b c)
xor-assoc_below zero a b c h =
    let a0 : a ≡ 0 = omega arith in
    let b0 : b ≡ 0 = omega arith in let c0 : c ≡ 0 = omega arith in rw (a0, b0, c0) refl
xor-assoc_below (suc n) a b c h =
    xor_digit (bit_xor a b) c
    ∙ rw (xor-half a b, xor-odd a b) rw
        (
          xor-half b c,
          xor-odd b c,
          xor-assoc_below n (a / 2) (b / 2) (c / 2) (omega arith),
          differ_assoc (a % 2) (b % 2) (c % 2) (omega arith) (omega arith) (omega arith),
        )
        refl
    ∙ sym (xor_digit a (bit_xor b c))

pub xor_assoc : (a b c : ℕ) → bit_xor (bit_xor a b) c ≡ bit_xor a (bit_xor b c)
xor_assoc a b c = xor-assoc_below (a + b + c) a b c (omega arith)

pub xor_self : (a : ℕ) → bit_xor a a ≡ 0
xor_self a = (xor-zero_iff a a).1 refl

differ_zero : (y : ℕ) → differ 0 y ≡ y
differ_zero y = refl

pub xor-zero_left : (a : ℕ) → bit_xor 0 a ≡ a
xor-zero_left a = omega (arith, bit_xor-bitwise 0 a)

pub xor-double : (a b : ℕ) → bit_xor (a * 2) (b * 2) ≡ bit_xor a b * 2
xor-double a b =
    let a2 : a * 2 / 2 ≡ a = omega arith in
    let b2 : b * 2 / 2 ≡ b = omega arith in
    let a0 : a * 2 % 2 ≡ 0 = omega arith in
    let b0 : b * 2 % 2 ≡ 0 = omega arith in
    xor_digit (a * 2) (b * 2) ∙ rw (a2, b2, a0, b0) (omega arith)

pub xor-low : (a b : ℕ) → b < 2 → bit_xor (a * 2) b ≡ a * 2 + b
xor-low a b h =
    let a2 : a * 2 / 2 ≡ a = omega arith in
    let b2 : b / 2 ≡ 0 = omega arith in
    let a0 : a * 2 % 2 ≡ 0 = omega arith in
    let b1 : b % 2 ≡ b = omega arith in
    xor_digit (a * 2) b ∙ rw (a2, b2, a0, b1, xor_comm a 0, xor-zero_left a, differ_zero b) refl

pub xor-mod : (k a b : ℕ) → bit_xor a b % 2 ^ k ≡ bit_xor (a % 2 ^ k) (b % 2 ^ k)
xor-mod zero a b =
    let left : a % 1 ≡ 0 = omega arith in
    let right : b % 1 ≡ 0 = omega arith in rw (left, right, xor_self 0) (omega arith)
xor-mod (suc k) a b =
    let x = a % 2 ^ suc k in
    let y = b % 2 ^ suc k in
    let x-half : x / 2 ≡ a / 2 % 2 ^ k = omega (arith, half-mod a k) in
    let y-half : y / 2 ≡ b / 2 % 2 ^ k = omega (arith, half-mod b k) in
    let x-odd : x % 2 ≡ a % 2 = omega (arith, half-mod a k) in
    let y-odd : y % 2 ≡ b % 2 = omega (arith, half-mod b k) in
    let digits : bit_xor x y
        ≡ bit_xor (a / 2 % 2 ^ k) (b / 2 % 2 ^ k) * 2 + differ (a % 2) (b % 2) =
      xor_digit x y ∙ rw (x-half, y-half, x-odd, y-odd) refl in
    half-mod (bit_xor a b) k
    ∙ rw (xor-half a b, xor-odd a b, xor-mod k (a / 2) (b / 2)) (omega (arith, digits))
