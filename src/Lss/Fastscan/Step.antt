-- ===== src/Lss/Fastscan/Step.antt =====
-- core/src/lss.rs: what a scan knows of a value of the address, bit by bit.
use canopen_rs.Base.{
  ℕ, suc, ◌+◌, ◌*◌, ◌/◌, ◌%◌, ◌^◌, ◌<◌, ◌≡◌, ◌≢◌, ◌↔◌, inl, inr, sym, ap, ◌∙◌, subst, true, bit_and,
  bit_or, bit_xor, ◌==◌, ==_iff, arith, Bool-cases,
}
use native.Mathlib.Nat.{pow-suc, one-le-pow, div-div-eq-div-mul, mul-div_cancel}
use canopen_rs.Base.Bits.{bit_or_fields}
use canopen_rs.Base.Bits.Xor.{differ-masked_iff}
use canopen_rs.Base.Bytes.{from-to_le_bytes}
use canopen_rs.Lss.{LssFrame, LssAddress, IsValid, frame_u32, u32_at, encode_fastscan}
use canopen_rs.Lss.Slave.{LssSlave, identity, mask, agrees}

pub u32_at-encode_fastscan : (id b s n : ℕ) → id < 2 ^ 32 → u32_at (encode_fastscan id b s n) ≡ id
unfolding u32_at encode_fastscan frame_u32
u32_at-encode_fastscan id b s n h = from-to_le_bytes 4 id h

pub identity-lt : (a : LssAddress) (s : ℕ) → IsValid a → identity a s < 2 ^ 32
unfolding identity
identity-lt a s v = ground (arith, v.vendor_lt, v.product_lt, v.revision_lt, v.serial_lt)

-- The slave agrees when the candidate has the identity's bits from the tested one on.
agrees_iff :
    (sl : LssSlave) (req : LssFrame)
    → IsValid sl.address
    → u32_at req < 2 ^ 32
    → req.b5 < 32
    → (agrees sl req ≡ true) ↔ (u32_at req / 2 ^ req.b5 ≡ identity sl.address req.b6 / 2 ^ req.b5)
unfolding agrees
agrees_iff sl req v h k =
    let id = u32_at req in
    let w = identity sl.address req.b6 in
    let test = bit_and (bit_xor id w) (mask req.b5) in
    let same = differ-masked_iff 32 req.b5 id w (omega arith) h (identity-lt sl.address req.b6 v) in
    let zero_test = ==_iff test 0 in (λ e. same.0 (zero_test.0 e), λ e. zero_test.1 (same.1 e))

pub agrees-encode_fastscan :
    (sl : LssSlave) (id b s n : ℕ)
    → IsValid sl.address
    → id < 2 ^ 32
    → b < 32
    → (agrees sl (encode_fastscan id b s n) ≡ true) ↔ (id / 2 ^ b ≡ identity sl.address s / 2 ^ b)
unfolding encode_fastscan
agrees-encode_fastscan sl id b s n v h k =
    let read = u32_at-encode_fastscan id b s n h in
    subst
      (λ (t : ℕ).
        (agrees sl (encode_fastscan id b s n) ≡ true) ↔ (t / 2 ^ b ≡ identity sl.address s / 2 ^ b))
      read (agrees_iff sl (encode_fastscan id b s n) v (omega (arith, read)) k)

-- The bits of `w` from `k` on.
abbrev pub known : ℕ → ℕ → ℕ
known w k = w / 2 ^ k * 2 ^ k

-- One more bit: it is clear when what is known agrees with `w` there, and else it is set.
module _ (w k : ℕ) where
  known-pow : known w (suc k) ≡ w / 2 ^ k / 2 * 2 * 2 ^ k
  known-pow = rw (pow-suc 2 k, ← div-div-eq-div-mul w (2 ^ k) 2) (omega arith)

  known-div : known w (suc k) / 2 ^ k ≡ w / 2 ^ k / 2 * 2
  known-div = rw known-pow (mul-div_cancel (w / 2 ^ k / 2 * 2) (one-le-pow k 2 (omega arith)))

  pub bit_clear : known w (suc k) / 2 ^ k ≡ w / 2 ^ k → known w (suc k) ≡ known w k
  bit_clear e = known-pow ∙ ap (λ (t : ℕ). t * 2 ^ k) (sym known-div ∙ e)

  pub bit_set : known w (suc k) / 2 ^ k ≢ w / 2 ^ k → bit_or (known w (suc k)) (2 ^ k) ≡ known w k
  bit_set e =
      let q = w / 2 ^ k in
      let odd : q ≡ q / 2 * 2 + 1 = elim (Bool-cases (w / 2 ^ k % 2 == 0)) [
        | inl even ↦ absurd (e (known-div ∙ ground arith))
        | inr odd_ ↦ ground arith
      ] in
      bit_or_fields (suc k) (w / 2 ^ suc k) (2 ^ k)
        (omega (arith, pow-suc 2 k, one-le-pow k 2 (omega arith)))
      ∙ rw known-pow (omega (arith, ap (λ (t : ℕ). t * 2 ^ k) odd))
