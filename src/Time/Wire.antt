-- ===== src/Time/Wire.antt =====
-- core/src/time.rs: a time stamp, read back.
use canopen_rs.Base.{
  ℕ, ◌+◌, ◌%◌, ◌^◌, ◌≤◌, ◌<◌, ◌≡◌, ◌∙◌, refl, ap, sym, List, [], ◌++◌, append-nil, length, ltb_no,
  bit_and, arith,
}
use native.Mathlib.Nat.{mod-eq_of_lt}
use canopen_rs.Base.Bits.{bit_and_low}
use canopen_rs.Base.Bytes.{from-to_le_bytes}
use canopen_rs.Types.{ok}
use canopen_rs.Time.{TimeOfDay, ms_per_day, encode, decode}

low_28 : (n : ℕ) → bit_and n 0x0fff_ffff ≡ n % 2 ^ 28
low_28 = bit_and_low 28

-- A time stamp of at most 16 bits of days decodes to its days and to the low 28 bits of its milliseconds, whatever bytes
-- follow it.
pub decode-encode_time :
    (t : TimeOfDay) (rest : List ℕ)
    → t.days < 2 ^ 16
    → decode (encode t ++ rest)
      ≡ ok (record { milliseconds = t.milliseconds % 2 ^ 28; days = t.days })
unfolding decode encode
decode-encode_time t rest h = ground (
  arith,
  low_28 t.milliseconds,
  low_28 (t.milliseconds % 2 ^ 28),
  from-to_le_bytes 4 (t.milliseconds % 2 ^ 28) (omega arith),
  from-to_le_bytes 2 t.days h,
  ltb_no (length rest + 6) 6 (omega arith),
)

-- Every time of a day survives.
pub decode-encode_in_day :
    (t : TimeOfDay) → t.milliseconds ≤ ms_per_day → t.days < 2 ^ 16 → decode (encode t) ≡ ok t
decode-encode_in_day t small h =
    ap decode (sym (append-nil (encode t)))
    ∙ decode-encode_time t [] h
    ∙ rw (mod-eq_of_lt {n = t.milliseconds} {m = 2 ^ 28} (omega arith)) refl
