-- ===== src/Datatypes/Value.antt =====
-- core/src/datatypes.rs: typed values, and their little-endian encoding.
-- A float is the bit pattern that its `to_le_bytes` and `from_le_bytes` carry.
use canopen_rs.Base.{
  ℕ, ◌^◌, ◌<◌, Bool, true, false, not, none, some, List, [], ◌∷◌, ltb, ◌==◌, if◌then◌else◌, length,
  get_or, take, overwrite,
}
use canopen_rs.Base.Bytes.{to_le_bytes, from_le_bytes}
use canopen_rs.Base.Int.{ℤ, IsSigned, to_bits, of_bits}
use canopen_rs.Types.{Result, ok, err, bad_length, ◌>>=◌}
use canopen_rs.Datatypes.ByteString
use canopen_rs.Datatypes.ByteString.{ByteString, max_string_len}
use canopen_rs.Datatypes.DataType
use canopen_rs.Datatypes.DataType.{DataType, fixed_size}

pub data Value : Type 0 where
  boolean : Bool → Value
  integer8 integer16 integer32 : ℤ → Value
  unsigned8 unsigned16 unsigned32 real32 real64 : ℕ → Value
  integer64 : ℤ → Value
  unsigned64 : ℕ → Value
  visible_string octet_string domain : ByteString → Value

unfoldable pub data_type : Value → DataType
data_type (boolean _) = DataType.boolean
data_type (integer8 _) = DataType.integer8
data_type (integer16 _) = DataType.integer16
data_type (integer32 _) = DataType.integer32
data_type (unsigned8 _) = DataType.unsigned8
data_type (unsigned16 _) = DataType.unsigned16
data_type (unsigned32 _) = DataType.unsigned32
data_type (real32 _) = DataType.real32
data_type (real64 _) = DataType.real64
data_type (integer64 _) = DataType.integer64
data_type (unsigned64 _) = DataType.unsigned64
data_type (visible_string _) = DataType.visible_string
data_type (octet_string _) = DataType.octet_string
data_type (domain _) = DataType.domain

unfoldable pub size : Value → ℕ
unfolding data_type ByteString.len DataType.size
size (visible_string s) = ByteString.len s
size (octet_string s) = ByteString.len s
size (domain s) = ByteString.len s
size v = DataType.size (data_type v)

-- The bytes that each arm of `encode_le` copies to the front of the buffer.
unfoldable pub wire_bytes : Value → List ℕ
unfolding ByteString.as_bytes
wire_bytes (boolean true) = 1 ∷ []
wire_bytes (boolean false) = 0 ∷ []
wire_bytes (integer8 v) = to_bits 8 v ∷ []
wire_bytes (unsigned8 v) = v ∷ []
wire_bytes (integer16 v) = to_le_bytes 2 (to_bits 16 v)
wire_bytes (unsigned16 v) = to_le_bytes 2 v
wire_bytes (integer32 v) = to_le_bytes 4 (to_bits 32 v)
wire_bytes (unsigned32 v) = to_le_bytes 4 v
wire_bytes (real32 v) = to_le_bytes 4 v
wire_bytes (integer64 v) = to_le_bytes 8 (to_bits 64 v)
wire_bytes (unsigned64 v) = to_le_bytes 8 v
wire_bytes (real64 v) = to_le_bytes 8 v
wire_bytes (visible_string s) = ByteString.as_bytes s
wire_bytes (octet_string s) = ByteString.as_bytes s
wire_bytes (domain s) = ByteString.as_bytes s

-- The buffer after the call, and the count of bytes written.
unfoldable pub encode_le : Value → List ℕ → Result (List ℕ × ℕ)
encode_le v buf =
    if ltb (length buf) (size v) then err bad_length else ok (overwrite buf (wire_bytes v), size v)

-- The guard of `decode_le`.
unfoldable pub wrong_length : DataType → List ℕ → Bool
unfolding fixed_size
wrong_length t bytes = elim (fixed_size t) [
  | some fixed ↦ not (length bytes == fixed)
  | none ↦ ltb max_string_len (length bytes)
]

-- The match of `decode_le`.
unfoldable pub decode_bytes : DataType → List ℕ → Result Value
decode_bytes DataType.boolean bytes = ok (boolean (not (get_or bytes 0 0 == 0)))
decode_bytes DataType.integer8 bytes = ok (integer8 (of_bits 8 (get_or bytes 0 0)))
decode_bytes DataType.unsigned8 bytes = ok (unsigned8 (get_or bytes 0 0))
decode_bytes DataType.integer16 bytes = ok (integer16 (of_bits 16 (from_le_bytes (take 2 bytes))))
decode_bytes DataType.unsigned16 bytes = ok (unsigned16 (from_le_bytes (take 2 bytes)))
decode_bytes DataType.integer32 bytes = ok (integer32 (of_bits 32 (from_le_bytes (take 4 bytes))))
decode_bytes DataType.unsigned32 bytes = ok (unsigned32 (from_le_bytes (take 4 bytes)))
decode_bytes DataType.real32 bytes = ok (real32 (from_le_bytes (take 4 bytes)))
decode_bytes DataType.integer64 bytes = ok (integer64 (of_bits 64 (from_le_bytes (take 8 bytes))))
decode_bytes DataType.unsigned64 bytes = ok (unsigned64 (from_le_bytes (take 8 bytes)))
decode_bytes DataType.real64 bytes = ok (real64 (from_le_bytes (take 8 bytes)))
decode_bytes DataType.visible_string bytes = do
  s ← ByteString.from_bytes bytes
  ok (visible_string s)
decode_bytes DataType.octet_string bytes = do s ← ByteString.from_bytes bytes; ok (octet_string s)
decode_bytes DataType.domain bytes = do s ← ByteString.from_bytes bytes; ok (domain s)

unfoldable pub decode_le : DataType → List ℕ → Result Value
decode_le t bytes = if wrong_length t bytes then err bad_length else decode_bytes t bytes

-- The values that the Rust types hold.
abbrev pub IsValid : Value → Type 0
IsValid (boolean _) = Unit
IsValid (integer8 v) = IsSigned 8 v
IsValid (integer16 v) = IsSigned 16 v
IsValid (integer32 v) = IsSigned 32 v
IsValid (unsigned8 v) = v < 2 ^ 8
IsValid (unsigned16 v) = v < 2 ^ 16
IsValid (unsigned32 v) = v < 2 ^ 32
IsValid (real32 v) = v < 2 ^ 32
IsValid (real64 v) = v < 2 ^ 64
IsValid (integer64 v) = IsSigned 64 v
IsValid (unsigned64 v) = v < 2 ^ 64
IsValid (visible_string s) = ByteString.IsValid s
IsValid (octet_string s) = ByteString.IsValid s
IsValid (domain s) = ByteString.IsValid s
