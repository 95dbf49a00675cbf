-- ===== src/Sdo/Block/Crc.antt =====
-- core/src/sdo/block.rs: what the checksum detects.
use Prim.Native.Nat.{differ}
use canopen_rs.Base.{
  ℕ, zero, suc, ◌*◌, ◌/◌, ◌%◌, ◌^◌, ◌<◌, ◌≡◌, ◌≢◌, ◌∙◌, refl, sym, ap, inl, inr, Bool-cases, List,
  [], ◌∷◌, ◌++◌, All, bit_and, bit_xor, arith, ltb, ◌≤◌,
}
use canopen_rs.Base.Bits.{bit_and_shifted, and_0x01}
use canopen_rs.Base.Bits.Xor.{xor-lt, xor_digit, xor-cancel_right, xor_comm}
use canopen_rs.Base.Bytes.{IsByte}
use canopen_rs.Sdo.Block.{crc_shift, crc_shifts, crc_byte, crc_from, crc16}

and_0x8000 : (c : ℕ) → bit_and c 0x8000 ≡ c / 2 ^ 15 % 2 * 2 ^ 15
and_0x8000 c = bit_and_shifted 15 c 1 ∙ ap (λ (t : ℕ). t * 2 ^ 15) (and_0x01 (c / 2 ^ 15))

pub crc_shift-low : (c : ℕ) → c < 2 ^ 15 → crc_shift c ≡ c * 2
unfolding crc_shift
crc_shift-low c h = ground (arith, and_0x8000 c)

pub crc_shift-high :
    (c : ℕ) → 2 ^ 15 ≤ c → c < 2 ^ 16 → crc_shift c ≡ bit_xor (c * 2 % 2 ^ 16) 0x1021
unfolding crc_shift
crc_shift-high c l h = ground (arith, and_0x8000 c)

pub crc_shift-lt : (c : ℕ) → c < 2 ^ 16 → crc_shift c < 2 ^ 16
crc_shift-lt c h = elim (Bool-cases (ltb c 32768)) [
  | inl low ↦ rw (crc_shift-low c (ground arith)) (ground arith)
  | inr high ↦
      rw (crc_shift-high c (ground arith) h)
        (xor-lt 16 (c * 2 % 2 ^ 16) 0x1021 (omega arith) (omega arith))
]

-- A shift loses nothing: its lowest bit tells the highest bit that it drops.
crc_shift-odd : (c : ℕ) → 2 ^ 15 ≤ c → c < 2 ^ 16 → crc_shift c % 2 ≡ 1
crc_shift-odd c l h = rw (crc_shift-high c l h) (
    let even : c * 2 % 2 ^ 16 % 2 ≡ 0 = omega arith in
    let last : differ (c * 2 % 2 ^ 16 % 2) 1 ≡ 1 = rw even refl in
    omega (arith, xor_digit (c * 2 % 2 ^ 16) 0x1021, last))

crc_shift-injective : (c d : ℕ) → c < 2 ^ 16 → d < 2 ^ 16 → crc_shift c ≡ crc_shift d → c ≡ d
crc_shift-injective c d h k e = elim (Bool-cases (ltb c 32768)) [
  | inl low ↦ elim (Bool-cases (ltb d 32768)) [
    | inl low' ↦ ground (arith, crc_shift-low c (ground arith), crc_shift-low d (ground arith))
    | inr high' ↦
        absurd (ground (arith, crc_shift-low c (ground arith), crc_shift-odd d (ground arith) k))
  ]
  | inr high ↦ elim (Bool-cases (ltb d 32768)) [
    | inl low' ↦
        absurd (ground (arith, crc_shift-odd c (ground arith) h, crc_shift-low d (ground arith)))
    | inr high' ↦
        let same =
          xor-cancel_right (c * 2 % 2 ^ 16) (d * 2 % 2 ^ 16) 0x1021
            (sym (crc_shift-high c (ground arith) h) ∙ e ∙ crc_shift-high d (ground arith) k) in
        ground (arith, same)
  ]
]

pub crc_shifts-lt : (n c : ℕ) → c < 2 ^ 16 → crc_shifts n c < 2 ^ 16
unfolding crc_shifts
crc_shifts-lt zero c h = h
crc_shifts-lt (suc n) c h = crc_shifts-lt n (crc_shift c) (crc_shift-lt c h)

crc_shifts-injective :
    (n c d : ℕ) → c < 2 ^ 16 → d < 2 ^ 16 → crc_shifts n c ≡ crc_shifts n d → c ≡ d
unfolding crc_shifts
crc_shifts-injective zero c d h k e = e
crc_shifts-injective (suc n) c d h k e =
    crc_shift-injective c d h k
      (crc_shifts-injective n (crc_shift c) (crc_shift d) (crc_shift-lt c h) (crc_shift-lt d k) e)

module _ (c byte : ℕ) (h : c < 2 ^ 16) (k : byte < 256) where
  mixed-lt : bit_xor c (byte * 2 ^ 8 % 2 ^ 16) < 2 ^ 16
  mixed-lt = xor-lt 16 c (byte * 2 ^ 8 % 2 ^ 16) h (omega arith)

  pub crc_byte-lt : crc_byte c byte < 2 ^ 16
  unfolding crc_byte
  crc_byte-lt = crc_shifts-lt 8 (bit_xor c (byte * 2 ^ 8 % 2 ^ 16)) mixed-lt

  crc_byte-injective : (d : ℕ) → d < 2 ^ 16 → crc_byte c byte ≡ crc_byte d byte → c ≡ d
  unfolding crc_byte
  crc_byte-injective d l e = xor-cancel_right c d (byte * 2 ^ 8 % 2 ^ 16) (
      crc_shifts-injective 8 (bit_xor c (byte * 2 ^ 8 % 2 ^ 16)) (bit_xor d (byte * 2 ^ 8 % 2 ^ 16))
        mixed-lt (xor-lt 16 d (byte * 2 ^ 8 % 2 ^ 16) l (omega arith)) e)

  -- Another byte gives another checksum.
  crc_byte-differs : (byte' : ℕ) → byte' < 256 → crc_byte c byte ≡ crc_byte c byte' → byte ≡ byte'
  unfolding crc_byte
  crc_byte-differs byte' l e =
      let mixed =
        crc_shifts-injective 8 (bit_xor c (byte * 2 ^ 8 % 2 ^ 16))
          (bit_xor c (byte' * 2 ^ 8 % 2 ^ 16)) mixed-lt
          (xor-lt 16 c (byte' * 2 ^ 8 % 2 ^ 16) h (omega arith)) e in
      let same =
        xor-cancel_right (byte * 2 ^ 8 % 2 ^ 16) (byte' * 2 ^ 8 % 2 ^ 16) c
          (xor_comm (byte * 2 ^ 8 % 2 ^ 16) c ∙ mixed ∙ xor_comm c (byte' * 2 ^ 8 % 2 ^ 16)) in
      omega (arith, same)

crc_from-lt : (c : ℕ) (bytes : List ℕ) → c < 2 ^ 16 → All IsByte bytes → crc_from c bytes < 2 ^ 16
unfolding crc_from
crc_from-lt c [] h k = h
crc_from-lt c (byte ∷ bytes) h k =
    crc_from-lt (crc_byte c byte) bytes (crc_byte-lt c byte h k.0) k.1

crc_from-injective :
    (c d : ℕ) (bytes : List ℕ)
    → c < 2 ^ 16
    → d < 2 ^ 16
    → All IsByte bytes
    → crc_from c bytes ≡ crc_from d bytes
    → c ≡ d
unfolding crc_from
crc_from-injective c d [] h k l e = e
crc_from-injective c d (byte ∷ bytes) h k l e = crc_byte-injective c byte h l.0 d k (
    crc_from-injective (crc_byte c byte) (crc_byte d byte) bytes (crc_byte-lt c byte h l.0)
      (crc_byte-lt d byte k l.0) l.1 e)

crc_from-append : (c : ℕ) (xs ys : List ℕ) → crc_from c (xs ++ ys) ≡ crc_from (crc_from c xs) ys
unfolding crc_from
crc_from-append c [] ys = refl
crc_from-append c (x ∷ xs) ys = crc_from-append (crc_byte c x) xs ys

-- The checksum of any bytes has 16 bits.
pub crc16-lt : (bytes : List ℕ) → All IsByte bytes → crc16 bytes < 2 ^ 16
unfolding crc16
crc16-lt bytes h = crc_from-lt 0 bytes (omega arith) h

-- Two strings of bytes that differ in exactly one place have different checksums.
pub crc16-differs :
    (before after : List ℕ) (x y : ℕ)
    → All IsByte before
    → All IsByte after
    → x < 256
    → y < 256
    → x ≢ y
    → crc16 (before ++ x ∷ after) ≢ crc16 (before ++ y ∷ after)
unfolding crc16 crc_from
crc16-differs before after x y h k l m other e =
    let c = crc_from 0 before in
    let c-lt = crc_from-lt 0 before (omega arith) h in
    let rest =
      sym (crc_from-append 0 before (x ∷ after)) ∙ e ∙ crc_from-append 0 before (y ∷ after) in
    let same =
      crc_from-injective (crc_byte c x) (crc_byte c y) after (crc_byte-lt c x c-lt l)
        (crc_byte-lt c y c-lt m) k rest in
    other (crc_byte-differs c x c-lt l y m same)
