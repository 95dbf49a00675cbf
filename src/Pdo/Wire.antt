-- ===== src/Pdo/Wire.antt =====
-- core/src/pdo.rs: the numbers that a PDO's parameters are stored as.
use canopen_rs.Base.{ℕ, ◌+◌, ◌*◌, ◌/◌, ◌%◌, ◌^◌, ◌≤◌, ◌<◌, ◌≡◌, ◌↔◌, ◌∙◌, some, bit_or, arith}
use canopen_rs.Base.Bits.{bit_or_fields}
use canopen_rs.Types.{ok}
use canopen_rs.Types.NodeId
use canopen_rs.Types.NodeId.{NodeId}
use canopen_rs.Objects.Address
use canopen_rs.Objects.Address.{Address}
use canopen_rs.Pdo.{
  PdoKind, transmit, receive, default_cob_id, base_cob_id, TransmissionType, synchronous_acyclic,
  synchronous_cyclic, synchronous_rtr_only, event_driven_rtr_only, event_driven_manufacturer,
  event_driven_profile, from_byte, to_byte, MappingEntry, to_u32, from_u32,
}

-- A cyclic type carries its period.
abbrev pub IsValid : TransmissionType → Type 0
IsValid (synchronous_cyclic n) = (1 ≤ n) × (n ≤ 240)
IsValid _ = Unit

-- `from_byte` accepts exactly the bytes of the valid transmission types, each as its type.
pub from_byte_iff :
    (byte : ℕ) (t : TransmissionType) → (from_byte byte ≡ ok t) ↔ ((to_byte t ≡ byte) × IsValid t)
unfolding from_byte to_byte
from_byte_iff byte synchronous_acyclic = (ground arith, ground arith)
from_byte_iff byte (synchronous_cyclic n) = (ground arith, ground arith)
from_byte_iff byte synchronous_rtr_only = (ground arith, ground arith)
from_byte_iff byte event_driven_rtr_only = (ground arith, ground arith)
from_byte_iff byte event_driven_manufacturer = (ground arith, ground arith)
from_byte_iff byte event_driven_profile = (ground arith, ground arith)

fields :
    (i s l : ℕ)
    → i < 2 ^ 16
    → s < 2 ^ 8
    → l < 2 ^ 8
    → bit_or (bit_or (i * 2 ^ 16 % 2 ^ 32) (s * 2 ^ 8 % 2 ^ 32)) l ≡ i * 2 ^ 16 + s * 2 ^ 8 + l
fields i s l hi hs hl =
    ground
      (arith, bit_or_fields 16 i (s * 2 ^ 8) (omega arith), bit_or_fields 8 (i * 2 ^ 8 + s) l hl)

-- A mapping entry with a valid address and a bit length below 256 is read back from the number that it is stored as.
pub from_u32-to_u32 :
    (e : MappingEntry) → Address.IsValid e.address → e.bit_length < 2 ^ 8 → from_u32 (to_u32 e) ≡ e
unfolding from_u32 to_u32
from_u32-to_u32 e h l =
    rw (fields e.address.index e.address.subindex e.bit_length h.index_lt h.subindex_lt l)
      (ground arith)

-- A number below 2 ^ 32 that is read as a mapping entry is stored again as it was.
pub to_u32-from_u32 : (raw : ℕ) → raw < 2 ^ 32 → to_u32 (from_u32 raw) ≡ raw
unfolding from_u32 to_u32
to_u32-from_u32 raw h =
    fields (raw / 2 ^ 16 % 2 ^ 16) (raw / 2 ^ 8 % 2 ^ 8) (raw % 2 ^ 8) (omega arith) (omega arith)
      (omega arith)
    ∙ omega arith

-- Two PDOs of valid nodes in the predefined connection set have the same COB-ID only where they are the same PDO
-- of the same node.
pub default_cob_id-injective :
    (k k' : PdoKind) (n n' : ℕ) (node node' : NodeId) (id : ℕ)
    → NodeId.IsValid node
    → NodeId.IsValid node'
    → default_cob_id k n node ≡ some id
    → default_cob_id k' n' node' ≡ some id
    → (k ≡ k') × (n ≡ n') × (node ≡ node')
unfolding default_cob_id base_cob_id
default_cob_id-injective transmit transmit n n' node node' id h h' e e' = ground arith
default_cob_id-injective transmit receive n n' node node' id h h' e e' = absurd (ground arith)
default_cob_id-injective receive transmit n n' node node' id h h' e e' = absurd (ground arith)
default_cob_id-injective receive receive n n' node node' id h h' e e' = ground arith
