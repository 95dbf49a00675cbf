-- ===== src/Base/Int.antt =====
-- Signed integers and their two's complement.
use Prim.Native.Nat.{ℕ, ◌-◌, ◌^◌, ◌<◌}
use canopen_rs.Base.Tests.{ltb, if◌then◌else◌}

-- `negsuc n` is -(n + 1).
pub data ℤ : Type 0 where
  pos : ℕ → ℤ
  negsuc : ℕ → ℤ

-- The range of an integer of `w` bits.
abbrev pub IsSigned : ℕ → ℤ → Type 0
IsSigned w (pos n) = n < 2 ^ (w - 1)
IsSigned w (negsuc n) = n < 2 ^ (w - 1)

-- `v as u16` and the like: the two's complement of `w` bits.
abbrev pub to_bits : ℕ → ℤ → ℕ
to_bits w (pos n) = n
to_bits w (negsuc n) = 2 ^ w - 1 - n

-- `b as i16` and the like.
abbrev pub of_bits : ℕ → ℕ → ℤ
of_bits w b = if ltb b (2 ^ (w - 1)) then pos b else negsuc (2 ^ w - 1 - b)
