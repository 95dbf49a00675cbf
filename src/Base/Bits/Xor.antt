-- ===== src/Base/Bits/Xor.antt =====
-- `^` and the test whether two numbers agree from a bit on.
use Prim.Native.Nat.{
  ℕ, zero, suc, ◌+◌, ◌-◌, ◌*◌, ◌/◌, ◌%◌, ◌^◌, ◌≤◌, ◌<◌, bit_and, bit_xor, differ, bit_xor-bitwise,
}
use mathlib.Core.Path.{◌≡◌, refl, sym, ap, ◌∙◌, subst}
use mathlib.Core.Logic.{◌↔◌}
use native.Mathlib.Nat.{
  pow-suc, one-le-pow, add-mul-mod_self_right, mod-eq_of_lt, div-eq_of_lt, div-lt_iff_lt-mul,
}
use native.Mathlib.Numerals.{unary_clauses}
use native.Mathlib.Omega.{arith}
use canopen_rs.Base.Bits.{enough_digits, half-div, half-mod, bit_and_shifted, bit_and_low}

pub xor_digit : (a b : ℕ) → bit_xor a b ≡ bit_xor (a / 2) (b / 2) * 2 + differ (a % 2) (b % 2)
xor_digit zero b = omega (arith, bit_xor-bitwise 0 b, bit_xor-bitwise 0 (b / 2))
xor_digit (suc a) b = omega (
  arith,
  bit_xor-bitwise (suc a) b,
  bit_xor-bitwise (suc a / 2) (b / 2),
  enough_digits (λ c. c) differ a (suc a / 2) (suc a / 2) (b / 2) (omega arith) (omega arith),
)

pub differ_digit : (x y : ℕ) → x < 2 → y < 2 → (differ x y < 2) × ((differ x y ≡ 0) ↔ (x ≡ y))
differ_digit zero zero h k = (omega arith, (λ _. refl, λ _. refl))
differ_digit zero (suc zero) h k = (omega arith, (λ e. omega arith, λ e. omega arith))
differ_digit (suc zero) zero h k = (omega arith, (λ e. omega arith, λ e. omega arith))
differ_digit (suc zero) (suc zero) h k = (omega arith, (λ _. refl, λ _. refl))
differ_digit (suc (suc x)) y h k = absurd (omega arith)
differ_digit x (suc (suc y)) h k = absurd (omega arith)

pub xor-half : (a b : ℕ) → bit_xor a b / 2 ≡ bit_xor (a / 2) (b / 2)
xor-half a b =
    omega (arith, xor_digit a b, (differ_digit (a % 2) (b % 2) (omega arith) (omega arith)).0)

pub xor-div : (k a b : ℕ) → bit_xor a b / 2 ^ k ≡ bit_xor (a / 2 ^ k) (b / 2 ^ k)
xor-div zero a b = ground arith
xor-div (suc k) a b =
    sym (half-div (bit_xor a b) k)
    ∙ rw (xor-half, xor-div k (a / 2) (b / 2), half-div a k, half-div b k) refl

xor-zero_below : (n a b : ℕ) → a ≤ n → (bit_xor a b ≡ 0) ↔ (a ≡ b)
xor-zero_below n zero b h =
    (λ e. omega (arith, bit_xor-bitwise 0 b), λ e. omega (arith, bit_xor-bitwise 0 b))
xor-zero_below zero (suc a) b h = absurd (omega arith)
xor-zero_below (suc n) (suc a) b h =
    let (_, digit) = differ_digit (suc a % 2) (b % 2) (omega arith) (omega arith) in
    let rest = xor-zero_below n (suc a / 2) (b / 2) (omega arith) in
    let one = xor_digit (suc a) b in
    (
      λ e. omega (arith, digit.0 (omega arith), rest.0 (omega arith)),
      λ e. omega (arith, digit.1 (omega arith), rest.1 (omega arith)),
    )

pub xor-zero_iff : (a b : ℕ) → (bit_xor a b ≡ 0) ↔ (a ≡ b)
xor-zero_iff a b = xor-zero_below a a b (omega arith)

twice : (k j : ℕ) → 2 ^ j * 2 ^ suc k ≡ 2 ^ j * 2 ^ k * 2
twice k j = rw (pow-suc 2 k) (ground arith)

suc_sum : (k j : ℕ) → suc k + j ≡ suc (k + j)
suc_sum k j = omega arith

pub pow_sum : (k j : ℕ) → 2 ^ (k + j) ≡ 2 ^ j * 2 ^ k
pow_sum zero j = ground arith
pow_sum (suc k) j =
    ap (λ (t : ℕ). 2 ^ t) (suc_sum k j) ∙ omega (arith, pow-suc 2 (k + j), pow_sum k j, twice k j)

ones_times : (a b : ℕ) → 1 ≤ a → 1 ≤ b → (a * b - 1) * b ≡ (a - 1) * b + (b - 1) * (a * b)
ones_times zero b h k = absurd (omega arith)
ones_times (suc a) zero h k = absurd (omega arith)
ones_times (suc a) (suc b) h k =
    let less : suc a * suc b - 1 ≡ a * b + a + b = omega arith in
    rw less simp unary_clauses (omega arith)

-- `(2 ^ w - 1) << k` on `w` bits.
shifted_ones : (k j : ℕ) → (2 ^ (k + j) - 1) * 2 ^ k % 2 ^ (k + j) ≡ (2 ^ j - 1) * 2 ^ k
shifted_ones k j =
    rw
      (
        pow_sum k j,
        ones_times (2 ^ j) (2 ^ k) (one-le-pow j 2 (omega arith)) (one-le-pow k 2 (omega arith)),
      )
      (add-mul-mod_self_right ((2 ^ j - 1) * 2 ^ k) (2 ^ k - 1) (2 ^ j * 2 ^ k)
        ∙ mod-eq_of_lt (grind (arith, one-le-pow j 2 (omega arith), one-le-pow k 2 (omega arith))))

pub xor-lt : (w a b : ℕ) → a < 2 ^ w → b < 2 ^ w → bit_xor a b < 2 ^ w
xor-lt w a b h k =
    let high : bit_xor a b / 2 ^ w ≡ 0 = xor-div w a b ∙ rw (div-eq_of_lt h, div-eq_of_lt k) refl in
    let below =
      (div-lt_iff_lt-mul {k = 2 ^ w} {x = bit_xor a b} {y = 1} (one-le-pow w 2 (omega arith))).0 in
    let bound = below (omega (arith, high)) in omega arith

-- What the mask of the bits from `k` on leaves of a number of `k + j` bits.
masked :
    (k j x : ℕ)
    → x < 2 ^ (k + j)
    → bit_and x ((2 ^ (k + j) - 1) * 2 ^ k % 2 ^ (k + j)) ≡ x / 2 ^ k * 2 ^ k
masked k j x h =
    let small : x / 2 ^ k < 2 ^ j =
      (div-lt_iff_lt-mul {k = 2 ^ k} {x = x} {y = 2 ^ j} (one-le-pow k 2 (omega arith))).1
        (omega (arith, pow_sum k j)) in
    rw
      (
        shifted_ones k j,
        bit_and_shifted k x (2 ^ j - 1),
        bit_and_low j (x / 2 ^ k),
        mod-eq_of_lt small,
      )
      refl

zero_factor : (y m : ℕ) → 1 ≤ m → y * m ≡ 0 → y ≡ 0
zero_factor zero m h e = refl
zero_factor (suc y) m h e = absurd (omega arith)

masked_iff :
    (k j a b : ℕ)
    → a < 2 ^ (k + j)
    → b < 2 ^ (k + j)
    → (bit_and (bit_xor a b) ((2 ^ (k + j) - 1) * 2 ^ k % 2 ^ (k + j)) ≡ 0)
      ↔ (a / 2 ^ k ≡ b / 2 ^ k)
masked_iff k j a b h h' =
    let left = masked k j (bit_xor a b) (xor-lt (k + j) a b h h') in
    let same = xor-zero_iff (a / 2 ^ k) (b / 2 ^ k) in
    let shift = xor-div k a b in
    (
      λ e. same.0 (
          sym shift
          ∙ zero_factor (bit_xor a b / 2 ^ k) (2 ^ k) (one-le-pow k 2 (omega arith))
              (sym left ∙ e)),
      λ e. left ∙ rw (shift ∙ same.1 e) (omega arith),
    )

-- Two numbers of `w` bits agree on the bits from `k` on exactly when the mask of these bits
-- finds no difference.
pub differ-masked_iff :
    (w k a b : ℕ)
    → k ≤ w
    → a < 2 ^ w
    → b < 2 ^ w
    → (bit_and (bit_xor a b) ((2 ^ w - 1) * 2 ^ k % 2 ^ w) ≡ 0) ↔ (a / 2 ^ k ≡ b / 2 ^ k)
differ-masked_iff w k a b below h h' =
    let whole : k + (w - k) ≡ w = omega arith in
    subst
      (λ (t : ℕ).
        a < 2 ^ t
        → b < 2 ^ t
        → (bit_and (bit_xor a b) ((2 ^ t - 1) * 2 ^ k % 2 ^ t) ≡ 0) ↔ (a / 2 ^ k ≡ b / 2 ^ k))
      whole (masked_iff k (w - k) a b) h h'

-- A common term cancels.
differ_cancel : (x y c : ℕ) → x < 2 → y < 2 → c < 2 → differ x c ≡ differ y c → x ≡ y
differ_cancel zero zero c h k l e = refl
differ_cancel (suc zero) (suc zero) c h k l e = refl
differ_cancel zero (suc zero) zero h k l e = absurd (omega (arith, e))
differ_cancel zero (suc zero) (suc zero) h k l e = absurd (omega (arith, e))
differ_cancel (suc zero) zero zero h k l e = absurd (omega (arith, e))
differ_cancel (suc zero) zero (suc zero) h k l e = absurd (omega (arith, e))
differ_cancel (suc (suc x)) y c h k l e = absurd (omega arith)
differ_cancel x (suc (suc y)) c h k l e = absurd (omega arith)
differ_cancel x y (suc (suc c)) h k l e = absurd (omega arith)

xor-cancel_below : (n a b c : ℕ) → a + b + c ≤ n → bit_xor a c ≡ bit_xor b c → a ≡ b
xor-cancel_below zero a b c h e = omega arith
xor-cancel_below (suc n) a b c h e =
    let first = xor_digit a c in
    let second = xor_digit b c in
    let low_a = (differ_digit (a % 2) (c % 2) (omega arith) (omega arith)).0 in
    let low_b = (differ_digit (b % 2) (c % 2) (omega arith) (omega arith)).0 in
    let low =
      differ_cancel (a % 2) (b % 2) (c % 2) (omega arith) (omega arith) (omega arith)
        (omega arith) in
    let high = xor-cancel_below n (a / 2) (b / 2) (c / 2) (omega arith) (omega arith) in
    omega (arith, low, high)

pub xor-cancel_right : (a b c : ℕ) → bit_xor a c ≡ bit_xor b c → a ≡ b
xor-cancel_right a b c = xor-cancel_below (a + b + c) a b c (omega arith)

differ_swap : (x y : ℕ) → x < 2 → y < 2 → differ x y ≡ differ y x
differ_swap zero zero h k = refl
differ_swap zero (suc zero) h k = refl
differ_swap (suc zero) zero h k = refl
differ_swap (suc zero) (suc zero) h k = refl
differ_swap (suc (suc x)) y h k = absurd (omega arith)
differ_swap x (suc (suc y)) h k = absurd (omega arith)

xor-swap_below : (n a b : ℕ) → a + b ≤ n → bit_xor a b ≡ bit_xor b a
xor-swap_below zero a b h = let same : a ≡ b = omega arith in rw same refl
xor-swap_below (suc n) a b h = omega (
  arith,
  xor_digit a b,
  xor_digit b a,
  xor-swap_below n (a / 2) (b / 2) (omega arith),
  differ_swap (a % 2) (b % 2) (omega arith) (omega arith),
)

pub xor_comm : (a b : ℕ) → bit_xor a b ≡ bit_xor b a
xor_comm a b = xor-swap_below (a + b) a b (omega arith)

differ_none : (x : ℕ) → differ x 0 ≡ x
differ_none zero = refl
differ_none (suc x) = refl

-- The high part of a number cancels.
pub xor-high : (k c : ℕ) → bit_xor c (c / 2 ^ k * 2 ^ k) ≡ c % 2 ^ k
xor-high zero c = (xor-zero_iff c (c / 1 * 1)).1 (omega arith) ∙ omega arith
xor-high (suc k) c =
    let rest = c / 2 ^ suc k * 2 ^ suc k in
    let twice_rest : rest ≡ c / 2 / 2 ^ k * 2 ^ k * 2 = omega (
      arith,
      ap (λ (t : ℕ). t * 2 ^ suc k) (half-div c k),
      ap (λ (t : ℕ). c / 2 / 2 ^ k * t) (pow-suc 2 k),
    ) in
    let half : rest / 2 ≡ c / 2 / 2 ^ k * 2 ^ k = omega (arith, twice_rest) in
    let even : rest % 2 ≡ 0 = omega (arith, twice_rest) in
    xor_digit c rest
    ∙ rw (half, even, xor-high k (c / 2), half-mod c k) (omega (arith, differ_none (c % 2)))
