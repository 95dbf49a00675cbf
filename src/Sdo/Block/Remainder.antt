-- ===== src/Sdo/Block/Remainder.antt =====
-- core/src/sdo/block.rs: the division of polynomials that `crc16` is for.
use canopen_rs.Base.{
  ℕ, ◌+◌, ◌*◌, ◌/◌, ◌%◌, ◌^◌, ◌<◌, List, [], ◌∷◌, ◌++◌, bit_xor, ltb, if◌then◌else◌,
}

-- x^16 + x^12 + x^5 + 1, the bits of a number being the coefficients of a polynomial over two elements.
abbrev pub divisor : ℕ
divisor = 0x11021

-- A polynomial of a degree up to 16, less the divisor if it has its degree.
abbrev pub reduced : ℕ → ℕ
reduced x = if ltb x 65536 then x else bit_xor x divisor

-- The remainder of a long division: each digit of the dividend, highest first, goes to the end.
abbrev pub remainder : ℕ → List ℕ → ℕ
remainder r [] = r
remainder r (b ∷ bs) = remainder (reduced (r * 2 + b)) bs

-- The bits of a byte, highest first.
abbrev pub byte_bits : ℕ → List ℕ
byte_bits byte =
    byte / 2 ^ 7 % 2
    ∷ byte / 2 ^ 6 % 2
    ∷ byte / 2 ^ 5 % 2
    ∷ byte / 2 ^ 4 % 2
    ∷ byte / 2 ^ 3 % 2
    ∷ byte / 2 ^ 2 % 2
    ∷ byte / 2 % 2
    ∷ byte % 2
    ∷ []

abbrev pub message_bits : List ℕ → List ℕ
message_bits [] = []
message_bits (byte ∷ bytes) = byte_bits byte ++ message_bits bytes

abbrev pub IsBit : ℕ → Type 0
IsBit b = b < 2
