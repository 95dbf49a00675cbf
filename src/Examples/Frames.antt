-- ===== src/Examples/Frames.antt =====
-- Frames of the SDO protocol, and of the emergency and time objects.
use canopen_rs.Base.{◌+◌, ◌≡◌, ◌^◌, ◌%◌, refl, true, false, some, [], ◌∷◌, ◌++◌, arith}
use canopen_rs.Types.{ok}
use canopen_rs.Datatypes.Value.{Value}
use canopen_rs.Sdo.Payload.{Payload}
use canopen_rs.Sdo.Segment.{encode_data_segment, decode_data_segment}
use canopen_rs.Sdo.Segment.RoundTrip.{decode-encode_data_segment}
use canopen_rs.Emcy
use canopen_rs.Emcy.{EmergencyMessage}
use canopen_rs.Time
use canopen_rs.Time.{TimeOfDay}
use canopen_rs.Sync
use canopen_rs.Sync.{SyncCounter}
use canopen_rs.Sync.Cycle.{advanced, advance-cycle}
use canopen_rs.Emcy.Wire.{encode-decode_message}
use canopen_rs.Time.Wire.{decode-encode_time}

abbrev answer : Value
answer = Value.unsigned16 0xbeef

decode-encode_data_segment_example :
    (p : Payload) × (encode_data_segment (1 ∷ 2 ∷ 3 ∷ []) true false ≡ ok p)
    × (decode_data_segment p
        ≡ ok (record { toggle = true; last = false; content = 1 ∷ 2 ∷ 3 ∷ [] }))
decode-encode_data_segment_example =
    decode-encode_data_segment (1 ∷ 2 ∷ 3 ∷ []) true false (omega arith)

abbrev overvoltage : EmergencyMessage
overvoltage = record {
  error_code = 0x3000;
  error_register = record { bits = 5 };
  vendor_specific = 1 ∷ 2 ∷ 3 ∷ 4 ∷ 5 ∷ [];
}

encode-decode_message_example :
    (Emcy.encode overvoltage ≡ 0 ∷ 0x30 ∷ 5 ∷ 1 ∷ 2 ∷ 3 ∷ 4 ∷ 5 ∷ []) × Emcy.IsValid overvoltage
unfolding Emcy.decode
encode-decode_message_example =
    encode-decode_message (0 ∷ 0x30 ∷ 5 ∷ 1 ∷ 2 ∷ 3 ∷ 4 ∷ 5 ∷ []) overvoltage (ground arith) refl

abbrev noon : TimeOfDay
noon = Time.new 43200000 15000

decode-encode_time_example :
    Time.decode (Time.encode noon ++ 7 ∷ [])
    ≡ ok (record { milliseconds = noon.milliseconds % 2 ^ 28; days = noon.days })
decode-encode_time_example = decode-encode_time noon (7 ∷ []) (omega arith)

abbrev counter : SyncCounter
counter = record { overflow = 3; value = 0 }

advance-cycle_example : (Sync.advance (advanced 3 counter)).1 ≡ some (3 % 3 + 1)
unfolding Sync.new Sync.is_valid_counter_overflow
advance-cycle_example = advance-cycle 3 3 counter refl (omega arith)
