-- ===== src/Sdo/Payload.antt =====
-- core/src/sdo/mod.rs: the 8-byte SDO payload, its channels and its command specifiers.
use canopen_rs.Base.{ℕ, ◌+◌, ◌/◌, ◌%◌, List, [], ◌∷◌, get_or, bit_or, All}
use canopen_rs.Base.Bytes.{IsByte, from_le_bytes}
use canopen_rs.Types.NodeId.{NodeId}
use canopen_rs.Objects.Address.{Address}

-- `[u8; 8]`
pub record Payload : Type 0 where
  pub b0 : ℕ
  pub b1 : ℕ
  pub b2 : ℕ
  pub b3 : ℕ
  pub b4 : ℕ
  pub b5 : ℕ
  pub b6 : ℕ
  pub b7 : ℕ

-- `&p[1..]` and `&p[4..]`
abbrev pub from_1 : Payload → List ℕ
from_1 p = p.b1 ∷ p.b2 ∷ p.b3 ∷ p.b4 ∷ p.b5 ∷ p.b6 ∷ p.b7 ∷ []

abbrev pub from_4 : Payload → List ℕ
from_4 p = p.b4 ∷ p.b5 ∷ p.b6 ∷ p.b7 ∷ []

abbrev pub all_bytes : Payload → List ℕ
all_bytes p = p.b0 ∷ from_1 p

abbrev pub IsValid : Payload → Type 0
IsValid p = All IsByte (all_bytes p)

abbrev pub request_cob_base : ℕ
request_cob_base = 0x600

abbrev pub response_cob_base : ℕ
response_cob_base = 0x580

unfoldable pub request_cob_id : NodeId → ℕ
request_cob_id node = request_cob_base + node.raw

unfoldable pub response_cob_id : NodeId → ℕ
response_cob_id node = response_cob_base + node.raw

abbrev pub ccs_download_segment : ℕ
ccs_download_segment = 0x00

abbrev pub ccs_download_initiate : ℕ
ccs_download_initiate = 0x20

abbrev pub ccs_upload_initiate : ℕ
ccs_upload_initiate = 0x40

abbrev pub ccs_upload_segment : ℕ
ccs_upload_segment = 0x60

abbrev pub scs_download_segment : ℕ
scs_download_segment = 0x20

abbrev pub scs_upload_initiate : ℕ
scs_upload_initiate = 0x40

abbrev pub scs_download_initiate : ℕ
scs_download_initiate = 0x60

abbrev pub cs_abort : ℕ
cs_abort = 0x80

abbrev pub cs_mask : ℕ
cs_mask = 0xe0

abbrev pub expedited : ℕ
expedited = 0x02

abbrev pub size_indicated : ℕ
size_indicated = 0x01

abbrev pub expedited_sized : ℕ
expedited_sized = bit_or expedited size_indicated

abbrev pub toggle_bit : ℕ
toggle_bit = 0x10

abbrev pub no_more_segments : ℕ
no_more_segments = 0x01

abbrev pub segment_data_max : ℕ
segment_data_max = 7

-- A zeroed payload with its command byte, its address, and some bytes copied to `p[4..]`.
abbrev pub addressed : ℕ → Address → List ℕ → Payload
addressed command addr content = record {
  b0 = command;
  b1 = addr.index % 256;
  b2 = addr.index / 256 % 256;
  b3 = addr.subindex;
  b4 = get_or content 0 0;
  b5 = get_or content 1 0;
  b6 = get_or content 2 0;
  b7 = get_or content 3 0;
}

-- `Address::new(u16::from_le_bytes([p[1], p[2]]), p[3])`
abbrev pub address_of : Payload → Address
address_of p = record { index = from_le_bytes (p.b1 ∷ p.b2 ∷ []); subindex = p.b3 }
