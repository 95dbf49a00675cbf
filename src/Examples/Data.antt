-- ===== src/Examples/Data.antt =====
-- Values and data types.
use canopen_rs.Base.{ℕ, ◌≡◌, refl, List, [], ◌∷◌, take, drop, arith}
use canopen_rs.Types.{ok}
use canopen_rs.Datatypes.DataType.{DataType}
use canopen_rs.Datatypes.Value
use canopen_rs.Datatypes.Value.{Value, data_type, encode_le, decode_le, wrong_length}
use canopen_rs.Datatypes.Lemmas.{decode_le-encode_le}
use canopen_rs.Datatypes.Decode.{decode_le-IsValid}

abbrev answer : Value
answer = Value.unsigned16 0xbeef

decode_le-encode_le_example :
    (out : List ℕ) × (encode_le answer (1 ∷ 2 ∷ 3 ∷ []) ≡ ok (out, Value.size answer))
    × (decode_le (data_type answer) (take (Value.size answer) out) ≡ ok answer)
    × (drop (Value.size answer) out ≡ drop (Value.size answer) (1 ∷ 2 ∷ 3 ∷ []))
decode_le-encode_le_example =
    decode_le-encode_le answer (1 ∷ 2 ∷ 3 ∷ []) (omega arith) (unfold Value.size in omega arith)

decode_le-IsValid_example :
    Value.IsValid answer × (data_type answer ≡ DataType.unsigned16) × (Value.size answer ≡ 2)
unfolding decode_le wrong_length Value.decode_bytes
decode_le-IsValid_example =
    decode_le-IsValid DataType.unsigned16 (0xef ∷ 0xbe ∷ []) answer (ground arith) refl
