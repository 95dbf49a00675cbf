-- ===== src/Pdo.antt =====
-- core/src/pdo.rs: process data objects: the parameters of a PDO and its mapping.
pub mod Wire
pub mod Layout
pub mod Frame
pub mod Transfer
use canopen_rs.Base.{
  ℕ, ◌+◌, ◌*◌, ◌/◌, ◌%◌, ◌^◌, Bool, not, ◌||◌, Option, none, some, List, [], ◌∷◌, ◌++◌, length,
  take, drop, slice, ltb, leb, ◌==◌, ◌&&◌, if◌then◌else◌, bit_and, bit_or,
}
use canopen_rs.Heapless.{BoundedVec}
use canopen_rs.Types.{
  Result, ok, err, bad_length, object_not_found, type_mismatch, unsupported_transfer, pdo_too_long,
  mapping_full, ◌>>=◌,
}
use canopen_rs.Types.NodeId.{NodeId}
use canopen_rs.Types.Outcome
use canopen_rs.Types.Outcome.{Outcome, done, panicked, checked_slice}
use canopen_rs.Datatypes.DataType
use canopen_rs.Datatypes.DataType.{DataType}
use canopen_rs.Datatypes.Value
use canopen_rs.Datatypes.Value.{Value, data_type, encode_le, decode_le}
use canopen_rs.Objects.Address
use canopen_rs.Objects.Address.{Address}
use canopen_rs.Objects.ObjectDictionary.{ObjectDictionary, EntryMap, entry, read, write}

pub data PdoKind : Type 0 where
  transmit receive : PdoKind

abbrev pub pdo_cob_id_invalid : ℕ
pdo_cob_id_invalid = 0x8000_0000

unfoldable pub pdo_is_valid : ℕ → Bool
pdo_is_valid comm_cob_id = bit_and comm_cob_id pdo_cob_id_invalid == 0

-- `as u16`
unfoldable pub pdo_can_id : ℕ → ℕ
pdo_can_id comm_cob_id = bit_and comm_cob_id 0x7ff % 2 ^ 16

unfoldable pub base_cob_id : PdoKind → ℕ → ℕ
base_cob_id transmit number = 0x80 + number * 0x100
base_cob_id receive number = 0x100 + number * 0x100

unfoldable pub default_cob_id : PdoKind → ℕ → NodeId → Option ℕ
unfolding base_cob_id
default_cob_id kind number node =
    if ltb number 1 || ltb 4 number then none else some (base_cob_id kind number + node.raw)

pub data TransmissionType : Type 0 where
  synchronous_acyclic : TransmissionType
  synchronous_cyclic : ℕ → TransmissionType
  synchronous_rtr_only event_driven_rtr_only : TransmissionType
  event_driven_manufacturer event_driven_profile : TransmissionType

unfoldable pub from_byte : ℕ → Result TransmissionType
from_byte byte =
    if byte == 0
    then ok synchronous_acyclic
    else if leb 1 byte && leb byte 240
    then ok (synchronous_cyclic byte)
    else if byte == 252
    then ok synchronous_rtr_only
    else if byte == 253
    then ok event_driven_rtr_only
    else if byte == 254
    then ok event_driven_manufacturer
    else if byte == 255
    then ok event_driven_profile
    else err unsupported_transfer

unfoldable pub to_byte : TransmissionType → ℕ
to_byte synchronous_acyclic = 0
to_byte (synchronous_cyclic n) = n
to_byte synchronous_rtr_only = 252
to_byte event_driven_rtr_only = 253
to_byte event_driven_manufacturer = 254
to_byte event_driven_profile = 255

pub record MappingEntry : Type 0 where
  pub address : Address
  pub bit_length : ℕ

unfoldable pub to_u32 : MappingEntry → ℕ
to_u32 e =
    bit_or (bit_or (e.address.index * 2 ^ 16 % 2 ^ 32) (e.address.subindex * 2 ^ 8 % 2 ^ 32))
      e.bit_length

unfoldable pub from_u32 : ℕ → MappingEntry
from_u32 raw = record {
  address = Address.new (raw / 2 ^ 16 % 2 ^ 16) (raw / 2 ^ 8 % 2 ^ 8);
  bit_length = raw % 2 ^ 8;
}

-- `V` is the type of the vectors of mapping entries.
pub record PdoMapping (N : ℕ) (V : Type 0) : Type 0 where
  pub entries : V

abbrev pub sum_bits : List MappingEntry → ℕ
sum_bits [] = 0
sum_bits (e ∷ es) = e.bit_length + sum_bits es

module _ {N : ℕ} {V : Type 0} ⦃b : BoundedVec MappingEntry N V⦄ where
  unfoldable pub new : PdoMapping N V
  new = record { entries = b.new }

  unfoldable pub entries : PdoMapping N V → List MappingEntry
  entries mapping = b.as_slice mapping.entries

  unfoldable pub is_empty : PdoMapping N V → Bool
  unfolding entries
  is_empty mapping = length (entries mapping) == 0

  unfoldable pub total_bits : PdoMapping N V → ℕ
  unfolding entries
  total_bits mapping = sum_bits (entries mapping)

  unfoldable pub total_bytes : PdoMapping N V → ℕ
  unfolding total_bits
  total_bytes mapping = (total_bits mapping + 7) / 8

  unfoldable pub push : PdoMapping N V → MappingEntry → PdoMapping N V × Result (Unit {0})
  unfolding total_bits
  push mapping e =
      if ltb 64 (total_bits mapping + e.bit_length)
      then (mapping, err pdo_too_long)
      else elim (b.push mapping.entries e) [
        | some es ↦ (record { entries = es }, ok tt)
        | none ↦ (mapping, err mapping_full)
      ]

unfoldable pub byte_width : ℕ → Result ℕ
byte_width bit_length =
    if bit_length == 0 || not (bit_length % 8 == 0)
    then err unsupported_transfer
    else ok (bit_length / 8)
