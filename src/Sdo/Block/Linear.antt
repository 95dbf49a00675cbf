-- ===== src/Sdo/Block/Linear.antt =====
-- core/src/sdo/block.rs: the checksum's shifts as steps of a division, and sums of checksums.
use canopen_rs.Base.{
  ℕ, zero, suc, ◌+◌, ◌*◌, ◌/◌, ◌%◌, ◌^◌, ◌≤◌, ◌<◌, ◌≡◌, ◌∙◌, refl, sym, ap, bit_xor, ltb, arith,
  Bool-cases, inl, inr,
}
use canopen_rs.Base.Bits.Xor.{xor-lt, xor-div, xor_comm}
use canopen_rs.Base.Bits.Sum.{xor_assoc, xor_self, xor-zero_left, xor-double, xor-low, xor-mod}
use canopen_rs.Sdo.Block.{crc_shift, crc_shifts}
use canopen_rs.Sdo.Block.Crc.{crc_shift-low, crc_shift-high, crc_shift-lt}
use canopen_rs.Sdo.Block.Remainder.{divisor, reduced}

xor-swap_inner : (x y p : ℕ) → bit_xor (bit_xor x p) y ≡ bit_xor (bit_xor x y) p
xor-swap_inner x y p = xor_assoc x p y ∙ ap (bit_xor x) (xor_comm p y) ∙ sym (xor_assoc x y p)

xor-cancel_both : (x y p : ℕ) → bit_xor (bit_xor x p) (bit_xor y p) ≡ bit_xor x y
xor-cancel_both x y p =
    sym (xor_assoc (bit_xor x p) y p)
    ∙ ap (λ (t : ℕ). bit_xor t p) (xor-swap_inner x y p)
    ∙ xor_assoc (bit_xor x y) p p
    ∙ rw (xor_self p, xor_comm (bit_xor x y) 0) (xor-zero_left (bit_xor x y))

pub reduced-low : (x : ℕ) → x < 2 ^ 16 → reduced x ≡ x
reduced-low x h = ground arith

reduced-high : (x : ℕ) → 2 ^ 16 ≤ x → reduced x ≡ bit_xor x divisor
reduced-high x h = ground arith

reduced-xor :
    (x y : ℕ) → x < 2 ^ 17 → y < 2 ^ 17 → reduced (bit_xor x y) ≡ bit_xor (reduced x) (reduced y)
reduced-xor x y h k =
    let top = xor-div 16 x y in
    elim (Bool-cases (ltb x 65536)) [
      | inl low ↦
          let x0 : x / 2 ^ 16 ≡ 0 = ground arith in
          elim (Bool-cases (ltb y 65536)) [
            | inl low' ↦
                rw (low, low')
                  (reduced-low (bit_xor x y) (xor-lt 16 x y (ground arith) (ground arith)))
            | inr high' ↦
                let y1 : y / 2 ^ 16 ≡ 1 = ground arith in
                let one : bit_xor x y / 2 ^ 16 ≡ 1 = top ∙ rw (x0, y1) refl in
                rw (low, high')
                  (reduced-high (bit_xor x y) (omega (arith, one)) ∙ xor_assoc x y divisor)
          ]
      | inr high ↦
          let x1 : x / 2 ^ 16 ≡ 1 = ground arith in
          elim (Bool-cases (ltb y 65536)) [
            | inl low' ↦
                let y0 : y / 2 ^ 16 ≡ 0 = ground arith in
                let one : bit_xor x y / 2 ^ 16 ≡ 1 = top ∙ rw (x1, y0) refl in
                rw (high, low')
                  (reduced-high (bit_xor x y) (omega (arith, one))
                    ∙ sym (xor-swap_inner x y divisor))
            | inr high' ↦
                let y1 : y / 2 ^ 16 ≡ 1 = ground arith in
                let none_ : bit_xor x y / 2 ^ 16 ≡ 0 = top ∙ rw (x1, y1) refl in
                rw (high, high')
                  (reduced-low (bit_xor x y) (omega (arith, none_))
                    ∙ sym (xor-cancel_both x y divisor))
          ]
    ]

-- A shift of the checksum is a step of the division by a digit 0.
pub crc_shift-reduced : (c : ℕ) → c < 2 ^ 16 → crc_shift c ≡ reduced (c * 2)
crc_shift-reduced c h = elim (Bool-cases (ltb c 32768)) [
  | inl low ↦ crc_shift-low c (ground arith) ∙ sym (reduced-low (c * 2) (ground arith))
  | inr high ↦
      let one : c * 2 / 2 ^ 16 ≡ 1 = ground arith in
      let top : bit_xor (c * 2) divisor / 2 ^ 16 ≡ 0 = xor-div 16 (c * 2) divisor ∙ rw one refl in
      let rest = xor-mod 16 (c * 2) divisor in
      let small : bit_xor (c * 2) divisor % 2 ^ 16 ≡ bit_xor (c * 2) divisor = omega (arith, top) in
      crc_shift-high c (ground arith) h
      ∙ sym rest
      ∙ small
      ∙ sym (reduced-high (c * 2) (ground arith))
]

crc_shift-xor :
    (c d : ℕ)
    → c < 2 ^ 16
    → d < 2 ^ 16
    → crc_shift (bit_xor c d) ≡ bit_xor (crc_shift c) (crc_shift d)
crc_shift-xor c d h k =
    crc_shift-reduced (bit_xor c d) (xor-lt 16 c d h k)
    ∙ ap reduced (sym (xor-double c d))
    ∙ reduced-xor (c * 2) (d * 2) (omega arith) (omega arith)
    ∙ rw (crc_shift-reduced c h, crc_shift-reduced d k) refl

pub crc_shifts-xor :
    (n c d : ℕ)
    → c < 2 ^ 16
    → d < 2 ^ 16
    → crc_shifts n (bit_xor c d) ≡ bit_xor (crc_shifts n c) (crc_shifts n d)
unfolding crc_shifts
crc_shifts-xor zero c d h k = refl
crc_shifts-xor (suc n) c d h k =
    ap (crc_shifts n) (crc_shift-xor c d h k)
    ∙ crc_shifts-xor n (crc_shift c) (crc_shift d) (crc_shift-lt c h) (crc_shift-lt d k)

pub crc_shifts-add : (n k c : ℕ) → crc_shifts k (crc_shifts n c) ≡ crc_shifts (n + k) c
unfolding crc_shifts
crc_shifts-add zero k c = let same : k ≡ 0 + k = omega arith in ap (λ (t : ℕ). crc_shifts t c) same
crc_shifts-add (suc n) k c =
    let next : suc n + k ≡ suc (n + k) = omega arith in rw next (crc_shifts-add n k (crc_shift c))

-- A step of the division by any digit.
pub reduced-step : (c b : ℕ) → c < 2 ^ 16 → b < 2 → reduced (c * 2 + b) ≡ bit_xor (crc_shift c) b
reduced-step c b h k =
    ap reduced (sym (xor-low c b k))
    ∙ reduced-xor (c * 2) b (omega arith) (omega arith)
    ∙ rw (reduced-low b (omega arith), crc_shift-reduced c h) refl
