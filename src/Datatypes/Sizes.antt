-- ===== src/Datatypes/Sizes.antt =====
-- core/src/datatypes.rs: a value fits the buffers that the SDO services keep.
use canopen_rs.Base.{
  ℕ, ◌≤◌, ◌≡◌, ◌∙◌, ap, List, ◌++◌, length, take, drop, slice, arith, length-take, length-drop,
  length-append, take-append, append-nil, drop_all, sym,
}
use canopen_rs.Types.{ok}
use canopen_rs.Datatypes.ByteString.{zeros}
use canopen_rs.Datatypes.Value
use canopen_rs.Datatypes.Value.{Value, wire_bytes, encode_le, data_type}
use canopen_rs.Datatypes.Lemmas.{encode_le_fits, length-wire_bytes}

pub size-le : (v : Value) → Value.IsValid v → Value.size v ≤ 32
unfolding Value.size
size-le (Value.visible_string s) h = h.bounded
size-le (Value.octet_string s) h = h.bounded
size-le (Value.domain s) h = h.bounded
size-le (Value.boolean b) h = omega arith
size-le _ h = omega arith

-- `value.encode_le(&mut data[..size])` into a zeroed buffer, and the buffer after it.
pub encode_front :
    (v : Value)
    → Value.IsValid v
    → encode_le v (slice 0 (Value.size v) zeros) ≡ ok (wire_bytes v, Value.size v)
encode_front v h =
    let counted = length-wire_bytes v h in
    let room : length (slice 0 (Value.size v) zeros) ≡ Value.size v =
      omega (arith, length-take (Value.size v) zeros, size-le v h) in
    encode_le_fits v (slice 0 (Value.size v) zeros) (omega arith)
    ∙ ap (λ xs. ok (wire_bytes v ++ xs, Value.size v))
        (drop_all (length (wire_bytes v)) (slice 0 (Value.size v) zeros) (omega arith))
    ∙ ap (λ xs. ok (xs, Value.size v)) (append-nil (wire_bytes v))

-- The 32 bytes that a transfer of the value works on.
abbrev pub transfer_buffer : Value → List ℕ
transfer_buffer v = wire_bytes v ++ drop (Value.size v) zeros

pub length-transfer_buffer : (v : Value) → Value.IsValid v → length (transfer_buffer v) ≡ 32
length-transfer_buffer v h = omega (
  arith,
  length-append (wire_bytes v) (drop (Value.size v) zeros),
  length-wire_bytes v h,
  length-drop (Value.size v) zeros,
  size-le v h,
)

pub take-transfer_buffer :
    (v : Value) → Value.IsValid v → take (Value.size v) (transfer_buffer v) ≡ wire_bytes v
take-transfer_buffer v h =
    ap (λ k. take k (transfer_buffer v)) (sym (length-wire_bytes v h))
    ∙ take-append (wire_bytes v) (drop (Value.size v) zeros)
