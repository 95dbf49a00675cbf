-- ===== src/Datatypes/Lemmas.antt =====
-- core/src/datatypes.rs: the byte string's and the values' encodings, read back.
use canopen_rs.Base.{
  ltb_lem, ℕ, ◌^◌, ◌≤◌, ◌<◌, ◌≡◌, refl, ap, true, false, List, length, take, drop, overwrite, All,
  arith, ltb_no, take-append, drop-append,
}
use canopen_rs.Base.Bytes.{IsByte, from-to_le_bytes}
use canopen_rs.Base.Int.{ℤ, pos, negsuc, IsSigned, to_bits, of_bits}
use canopen_rs.Types.{ok, err, bad_length}
use canopen_rs.Datatypes.ByteString
use canopen_rs.Datatypes.ByteString.{ByteString, max_string_len, zeros}
use canopen_rs.Datatypes.Value
use canopen_rs.Datatypes.Value.{
  Value, boolean, wire_bytes, encode_le, decode_le, decode_bytes, wrong_length, data_type,
}

-- What `from_bytes` builds of at most 32 bytes.
abbrev pub filled : List ℕ → ByteString
filled bytes = record { buffer = overwrite zeros bytes; length_used = length bytes }

pub from_bytes_fits :
    (bytes : List ℕ) → length bytes ≤ 32 → ByteString.from_bytes bytes ≡ ok (filled bytes)
unfolding ByteString.from_bytes
from_bytes_fits bytes h =
    rw (ltb_no 32 (length bytes) h)
      (ap (λ n. ok (record { buffer = overwrite zeros bytes; length_used = n })) (omega arith))

pub as_bytes-filled : (bytes : List ℕ) → ByteString.as_bytes (filled bytes) ≡ bytes
unfolding ByteString.as_bytes
as_bytes-filled bytes = take-append bytes (drop (length bytes) zeros)

pub filled-IsValid :
    (bytes : List ℕ) → length bytes ≤ 32 → All IsByte bytes → ByteString.IsValid (filled bytes)
filled-IsValid bytes h b = record {
  built = rw as_bytes-filled (from_bytes_fits bytes h);
  bytes = rw as_bytes-filled b;
  counted = rw as_bytes-filled;
  bounded = h;
}

of-to_bits_8 : (v : ℤ) → IsSigned 8 v → of_bits 8 (to_bits 8 v) ≡ v
of-to_bits_8 (pos n) h = ground arith
of-to_bits_8 (negsuc n) h = ground arith

of-to_bits_16 : (v : ℤ) → IsSigned 16 v → of_bits 16 (to_bits 16 v) ≡ v
of-to_bits_16 (pos n) h = ground arith
of-to_bits_16 (negsuc n) h = ground arith

of-to_bits_32 : (v : ℤ) → IsSigned 32 v → of_bits 32 (to_bits 32 v) ≡ v
of-to_bits_32 (pos n) h = ground arith
of-to_bits_32 (negsuc n) h = ground arith

of-to_bits_64 : (v : ℤ) → IsSigned 64 v → of_bits 64 (to_bits 64 v) ≡ v
of-to_bits_64 (pos n) h = ground arith
of-to_bits_64 (negsuc n) h = ground arith

to_bits-lt_16 : (v : ℤ) → IsSigned 16 v → to_bits 16 v < 2 ^ 16
to_bits-lt_16 (pos n) h = omega arith
to_bits-lt_16 (negsuc n) h = omega arith

to_bits-lt_32 : (v : ℤ) → IsSigned 32 v → to_bits 32 v < 2 ^ 32
to_bits-lt_32 (pos n) h = omega arith
to_bits-lt_32 (negsuc n) h = omega arith

to_bits-lt_64 : (v : ℤ) → IsSigned 64 v → to_bits 64 v < 2 ^ 64
to_bits-lt_64 (pos n) h = omega arith
to_bits-lt_64 (negsuc n) h = omega arith

-- As many bytes go out as `size` says.
pub length-wire_bytes : (v : Value) → Value.IsValid v → length (wire_bytes v) ≡ Value.size v
unfolding wire_bytes Value.size
length-wire_bytes (boolean true) h = refl
length-wire_bytes (boolean false) h = refl
length-wire_bytes (Value.visible_string s) h = h.counted
length-wire_bytes (Value.octet_string s) h = h.counted
length-wire_bytes (Value.domain s) h = h.counted
length-wire_bytes _ h = refl

-- The match of `decode_le` reads back what the match of `encode_le` wrote.
decode_bytes-wire_bytes :
    (v : Value) → Value.IsValid v → decode_bytes (data_type v) (wire_bytes v) ≡ ok v
unfolding decode_bytes data_type wire_bytes
decode_bytes-wire_bytes (boolean true) h = refl
decode_bytes-wire_bytes (boolean false) h = refl
decode_bytes-wire_bytes (Value.integer8 v) h = rw (of-to_bits_8 v h)
decode_bytes-wire_bytes (Value.integer16 v) h =
    rw (from-to_le_bytes 2 (to_bits 16 v) (to_bits-lt_16 v h)) (rw (of-to_bits_16 v h))
decode_bytes-wire_bytes (Value.integer32 v) h =
    rw (from-to_le_bytes 4 (to_bits 32 v) (to_bits-lt_32 v h)) (rw (of-to_bits_32 v h))
decode_bytes-wire_bytes (Value.integer64 v) h =
    rw (from-to_le_bytes 8 (to_bits 64 v) (to_bits-lt_64 v h)) (rw (of-to_bits_64 v h))
decode_bytes-wire_bytes (Value.unsigned8 v) h = refl
decode_bytes-wire_bytes (Value.unsigned16 v) h = rw (from-to_le_bytes 2 v h)
decode_bytes-wire_bytes (Value.unsigned32 v) h = rw (from-to_le_bytes 4 v h)
decode_bytes-wire_bytes (Value.real32 v) h = rw (from-to_le_bytes 4 v h)
decode_bytes-wire_bytes (Value.real64 v) h = rw (from-to_le_bytes 8 v h)
decode_bytes-wire_bytes (Value.unsigned64 v) h = rw (from-to_le_bytes 8 v h)
decode_bytes-wire_bytes (Value.visible_string s) h = rw h.built
decode_bytes-wire_bytes (Value.octet_string s) h = rw h.built
decode_bytes-wire_bytes (Value.domain s) h = rw h.built

wrong_length-wire_bytes :
    (v : Value) → Value.IsValid v → wrong_length (data_type v) (wire_bytes v) ≡ false
unfolding wrong_length data_type wire_bytes
wrong_length-wire_bytes (boolean true) h = refl
wrong_length-wire_bytes (boolean false) h = refl
wrong_length-wire_bytes (Value.visible_string s) h =
    ltb_no 32 _ (omega (arith, h.counted, h.bounded))
wrong_length-wire_bytes (Value.octet_string s) h = ltb_no 32 _ (omega (arith, h.counted, h.bounded))
wrong_length-wire_bytes (Value.domain s) h = ltb_no 32 _ (omega (arith, h.counted, h.bounded))
wrong_length-wire_bytes _ h = refl

pub decode_le-wire_bytes :
    (v : Value) → Value.IsValid v → decode_le (data_type v) (wire_bytes v) ≡ ok v
unfolding decode_le
decode_le-wire_bytes v h = rw (wrong_length-wire_bytes v h) (decode_bytes-wire_bytes v h)

pub encode_le_fits :
    (v : Value) (buf : List ℕ)
    → Value.size v ≤ length buf
    → encode_le v buf ≡ ok (overwrite buf (wire_bytes v), Value.size v)
unfolding encode_le
encode_le_fits v buf h = rw (ltb_no _ _ h)

-- `encode_le` writes a valid value's bytes at the front of a buffer that has room, says how many,
-- and leaves the rest of the buffer; `decode_le` of those bytes gives the value back.
pub decode_le-encode_le :
    (v : Value) (buf : List ℕ)
    → Value.IsValid v
    → Value.size v ≤ length buf
    → (out : List ℕ) × (encode_le v buf ≡ ok (out, Value.size v))
      × (decode_le (data_type v) (take (Value.size v) out) ≡ ok v)
      × (drop (Value.size v) out ≡ drop (Value.size v) buf)
decode_le-encode_le v buf h fits = (
  overwrite buf (wire_bytes v),
  encode_le_fits v buf fits,
  rw (← length-wire_bytes v h) (rw take-append (decode_le-wire_bytes v h)),
  rw (← length-wire_bytes v h) (drop-append (wire_bytes v) _),
)

-- A buffer that is too short is refused.
pub encode_le_short :
    (v : Value) (buf : List ℕ) → length buf < Value.size v → encode_le v buf ≡ err bad_length
unfolding encode_le
encode_le_short v buf h = rw (ltb_lem _ _ h)
