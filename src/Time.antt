-- ===== src/Time.antt =====
-- core/src/time.rs: the time stamp object. A data field is the list of its bytes.
pub mod Wire
use canopen_rs.Base.{ℕ, List, [], ◌∷◌, ◌++◌, length, take, slice, ltb, if◌then◌else◌, bit_and}
use canopen_rs.Base.Bytes.{to_le_bytes, from_le_bytes}
use canopen_rs.Types.{Result, ok, err, bad_length}

abbrev pub time_cob_id : ℕ
time_cob_id = 0x100

abbrev pub ms_per_day : ℕ
ms_per_day = 86400000

pub record TimeOfDay : Type 0 where
  pub milliseconds : ℕ
  pub days : ℕ

abbrev pub new : ℕ → ℕ → TimeOfDay
new milliseconds days = record { milliseconds = milliseconds; days = days }

unfoldable pub encode : TimeOfDay → List ℕ
encode t = to_le_bytes 4 (bit_and t.milliseconds 0x0fff_ffff) ++ to_le_bytes 2 t.days

unfoldable pub decode : List ℕ → Result TimeOfDay
decode bytes =
    if ltb (length bytes) 6
    then err bad_length
    else ok (record {
      milliseconds = bit_and (from_le_bytes (take 4 bytes)) 0x0fff_ffff;
      days = from_le_bytes (slice 4 2 bytes);
    })
