-- ===== src/Datatypes/ByteString.antt =====
-- core/src/datatypes.rs: the bounded byte string that variable-length values carry.
use canopen_rs.Base.{
  ℕ, ◌%◌, ◌≤◌, ◌≡◌, List, ltb, if◌then◌else◌, length, take, replicate, overwrite, All,
}
use canopen_rs.Base.Bytes.{IsByte}
use canopen_rs.Types.{Result, ok, err, bad_length}

abbrev pub max_string_len : ℕ
max_string_len = 32

-- A fixed buffer, and how many of its bytes are meaningful.
pub record ByteString : Type 0 where
  pub buffer : List ℕ
  pub length_used : ℕ

abbrev pub zeros : List ℕ
zeros = replicate max_string_len 0

unfoldable pub new : ByteString
new = record { buffer = zeros; length_used = 0 }

unfoldable pub from_bytes : List ℕ → Result ByteString
from_bytes bytes =
    if ltb max_string_len (length bytes)
    then err bad_length
    else ok (record { buffer = overwrite zeros bytes; length_used = length bytes % 256 })

unfoldable pub as_bytes : ByteString → List ℕ
as_bytes s = take s.length_used s.buffer

unfoldable pub len : ByteString → ℕ
len s = s.length_used

-- What the constructors of the type build: the bytes, followed by zeros.
pub record IsValid (s : ByteString) : Type 0 where
  pub built : from_bytes (as_bytes s) ≡ ok s
  pub bytes : All IsByte (as_bytes s)
  pub counted : length (as_bytes s) ≡ s.length_used
  pub bounded : s.length_used ≤ max_string_len
