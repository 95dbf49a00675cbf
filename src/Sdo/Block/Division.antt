-- ===== src/Sdo/Block/Division.antt =====
-- core/src/sdo/block.rs: the checksum as the remainder of a division of polynomials.
use canopen_rs.Base.{
  ℕ, zero, suc, ◌+◌, ◌*◌, ◌/◌, ◌%◌, ◌^◌, ◌<◌, ◌≡◌, ◌∙◌, refl, sym, ap, List, [], ◌∷◌, ◌++◌, length,
  replicate, All, bit_xor, arith,
}
use canopen_rs.Base.Bits.Xor.{xor-lt, xor_comm}
use canopen_rs.Base.Bits.Sum.{xor_assoc, xor-zero_left}
use canopen_rs.Base.Bytes.{IsByte}
use canopen_rs.Sdo.Block.{crc_shift, crc_shifts, crc_byte, crc_from, crc16}
use canopen_rs.Sdo.Block.Crc.{crc_shift-low, crc_shift-lt, crc_shifts-lt}
use canopen_rs.Sdo.Block.Remainder.{reduced, remainder, byte_bits, message_bits, IsBit}
use canopen_rs.Sdo.Block.Linear.{
  reduced-low, crc_shift-reduced, crc_shifts-xor, crc_shifts-add, reduced-step,
}

-- The digits of the dividend and the remainder so far are divided apart.
remainder-split :
    (c : ℕ) (bs : List ℕ)
    → c < 2 ^ 16
    → All IsBit bs
    → remainder c bs ≡ bit_xor (crc_shifts (length bs) c) (remainder 0 bs)
unfolding crc_shifts
remainder-split c [] h k = sym (xor_comm c 0 ∙ xor-zero_left c)
remainder-split c (b ∷ bs) h k =
    let b-lt : b < 2 ^ 16 = omega (arith, k.0) in
    let same : 0 * 2 + b ≡ b = omega arith in
    let alone : reduced (0 * 2 + b) ≡ b = ap reduced same ∙ reduced-low b b-lt in
    let n = length bs in
    rw (reduced-step c b h k.0) (
      remainder-split (bit_xor (crc_shift c) b) bs
        (xor-lt 16 (crc_shift c) b (crc_shift-lt c h) b-lt) k.1)
    ∙ ap (λ (t : ℕ). bit_xor t (remainder 0 bs))
        (crc_shifts-xor n (crc_shift c) b (crc_shift-lt c h) b-lt)
    ∙ xor_assoc (crc_shifts n (crc_shift c)) (crc_shifts n b) (remainder 0 bs)
    ∙ ap (bit_xor (crc_shifts n (crc_shift c))) (sym (remainder-split b bs b-lt k.1))
    ∙ rw alone refl

remainder-append : (r : ℕ) (xs ys : List ℕ) → remainder r (xs ++ ys) ≡ remainder (remainder r xs) ys
remainder-append r [] ys = refl
remainder-append r (x ∷ xs) ys = remainder-append (reduced (r * 2 + x)) xs ys

remainder-zeros : (n c : ℕ) → c < 2 ^ 16 → remainder c (replicate n 0) ≡ crc_shifts n c
unfolding crc_shifts
remainder-zeros zero c h = refl
remainder-zeros (suc n) c h =
    let none_ : c * 2 + 0 ≡ c * 2 = omega arith in
    let step : reduced (c * 2 + 0) ≡ crc_shift c = ap reduced none_ ∙ sym (crc_shift-reduced c h) in
    rw (step, remainder) (remainder-zeros n (crc_shift c) (crc_shift-lt c h))

byte_bits-IsBit : (byte : ℕ) → All IsBit (byte_bits byte)
byte_bits-IsBit byte = ground arith

reduced-digit : (r b v : ℕ) → r * 2 + b ≡ v → v < 2 ^ 16 → reduced (r * 2 + b) ≡ v
reduced-digit r b v same h = ap reduced same ∙ reduced-low v h

-- A byte is too small to be divided.
remainder-byte : (byte : ℕ) → byte < 256 → remainder 0 (byte_bits byte) ≡ byte
remainder-byte byte h =
    let a = reduced-digit (0) (byte / 2 ^ 7 % 2) (byte / 128) (omega arith) (omega arith) in
    let b = reduced-digit (byte / 128) (byte / 2 ^ 6 % 2) (byte / 64) (omega arith) (omega arith) in
    let c = reduced-digit (byte / 64) (byte / 2 ^ 5 % 2) (byte / 32) (omega arith) (omega arith) in
    let d = reduced-digit (byte / 32) (byte / 2 ^ 4 % 2) (byte / 16) (omega arith) (omega arith) in
    let e = reduced-digit (byte / 16) (byte / 2 ^ 3 % 2) (byte / 8) (omega arith) (omega arith) in
    let f = reduced-digit (byte / 8) (byte / 2 ^ 2 % 2) (byte / 4) (omega arith) (omega arith) in
    let g = reduced-digit (byte / 4) (byte / 2 % 2) (byte / 2) (omega arith) (omega arith) in
    let last = reduced-digit (byte / 2) (byte % 2) (byte) (omega arith) (omega arith) in
    rw (a, b, c, d, e, f, g, last, remainder) refl

crc_shift-digit : (c d : ℕ) → c < 2 ^ 15 → c * 2 ≡ d → crc_shift c ≡ d
crc_shift-digit c d h same = crc_shift-low c h ∙ same

crc_shifts-byte : (byte : ℕ) → byte < 256 → crc_shifts 8 byte ≡ byte * 2 ^ 8
unfolding crc_shifts
crc_shifts-byte byte h =
    let a = crc_shift-digit (byte) (byte * 2 ^ 1) (omega arith) (omega arith) in
    let b = crc_shift-digit (byte * 2 ^ 1) (byte * 2 ^ 2) (omega arith) (omega arith) in
    let c = crc_shift-digit (byte * 2 ^ 2) (byte * 2 ^ 3) (omega arith) (omega arith) in
    let d = crc_shift-digit (byte * 2 ^ 3) (byte * 2 ^ 4) (omega arith) (omega arith) in
    let e = crc_shift-digit (byte * 2 ^ 4) (byte * 2 ^ 5) (omega arith) (omega arith) in
    let f = crc_shift-digit (byte * 2 ^ 5) (byte * 2 ^ 6) (omega arith) (omega arith) in
    let g = crc_shift-digit (byte * 2 ^ 6) (byte * 2 ^ 7) (omega arith) (omega arith) in
    let last = crc_shift-digit (byte * 2 ^ 7) (byte * 2 ^ 8) (omega arith) (omega arith) in
    rw (a, b, c, d, e, f, g, last) refl

-- The checksum is the remainder so far, shifted by the 16 digits that are still to come.
crc_byte-remainder :
    (r byte : ℕ)
    → r < 2 ^ 16
    → byte < 256
    → crc_byte (crc_shifts 16 r) byte ≡ crc_shifts 16 (remainder r (byte_bits byte))
unfolding crc_byte
crc_byte-remainder r byte h k =
    let c = crc_shifts 16 r in
    let c-lt = crc_shifts-lt 16 r h in
    let high : byte * 2 ^ 8 % 2 ^ 16 ≡ byte * 2 ^ 8 = omega arith in
    let left : crc_shifts 8 (bit_xor c (byte * 2 ^ 8 % 2 ^ 16))
        ≡ bit_xor (crc_shifts 24 r) (crc_shifts 16 byte) =
      rw high (
        crc_shifts-xor 8 c (byte * 2 ^ 8) c-lt (omega arith)
        ∙ rw (crc_shifts-add 16 8 r, sym (crc_shifts-byte byte k), crc_shifts-add 8 8 byte) refl) in
    let split : remainder r (byte_bits byte) ≡ bit_xor (crc_shifts 8 r) byte =
      remainder-split r (byte_bits byte) h (byte_bits-IsBit byte)
      ∙ ap (bit_xor (crc_shifts 8 r)) (remainder-byte byte k) in
    left
    ∙ sym (
        ap (crc_shifts 16) split
        ∙ crc_shifts-xor 16 (crc_shifts 8 r) byte (crc_shifts-lt 8 r h) (omega arith)
        ∙ rw (crc_shifts-add 8 16 r) refl)

remainder-byte_lt : (r byte : ℕ) → r < 2 ^ 16 → byte < 256 → remainder r (byte_bits byte) < 2 ^ 16
remainder-byte_lt r byte h k =
    rw (remainder-split r (byte_bits byte) h (byte_bits-IsBit byte), remainder-byte byte k)
      (xor-lt 16 (crc_shifts 8 r) byte (crc_shifts-lt 8 r h) (omega arith))

remainder-message_lt :
    (r : ℕ) (bytes : List ℕ)
    → r < 2 ^ 16
    → All IsByte bytes
    → remainder r (message_bits bytes) < 2 ^ 16
remainder-message_lt r [] h k = h
remainder-message_lt r (byte ∷ bytes) h k =
    rw (remainder-append r (byte_bits byte) (message_bits bytes)) (
      remainder-message_lt (remainder r (byte_bits byte)) bytes (remainder-byte_lt r byte h k.0)
        k.1)

crc_from-remainder :
    (r : ℕ) (bytes : List ℕ)
    → r < 2 ^ 16
    → All IsByte bytes
    → crc_from (crc_shifts 16 r) bytes ≡ crc_shifts 16 (remainder r (message_bits bytes))
unfolding crc_from
crc_from-remainder r [] h k = refl
crc_from-remainder r (byte ∷ bytes) h k =
    ap (λ (c : ℕ). crc_from c bytes) (crc_byte-remainder r byte h k.0)
    ∙ crc_from-remainder (remainder r (byte_bits byte)) bytes (remainder-byte_lt r byte h k.0) k.1
    ∙ ap (crc_shifts 16) (sym (remainder-append r (byte_bits byte) (message_bits bytes)))

-- The checksum of any bytes is the remainder of the division of their bits, highest first and with
-- sixteen zeros behind them, by the polynomial x^16 + x^12 + x^5 + 1 over two elements.
pub crc16-remainder :
    (bytes : List ℕ)
    → All IsByte bytes
    → crc16 bytes ≡ remainder 0 (message_bits bytes ++ replicate 16 0)
unfolding crc16 crc_shifts
crc16-remainder bytes h =
    crc_from-remainder 0 bytes (omega arith) h
    ∙ sym (
        remainder-append 0 (message_bits bytes) (replicate 16 0)
        ∙ remainder-zeros 16 (remainder 0 (message_bits bytes))
            (remainder-message_lt 0 bytes (omega arith) h))
