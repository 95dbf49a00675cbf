-- ===== src/Lss.antt =====
-- core/src/lss.rs: the frames of the layer setting services, what the master sends and reads.
pub mod Slave
pub mod Master
pub mod Fastscan
pub mod Selective
pub mod Assignment
use canopen_rs.Base.{
  ℕ, ◌^◌, ◌<◌, Bool, not, true, Option, none, some, List, [], ◌∷◌, get_or, ◌==◌, if◌then◌else◌,
}
use canopen_rs.Base.Bytes.{to_le_bytes, from_le_bytes}
use canopen_rs.Sdo.Payload.{Payload}

abbrev pub lss_master_cob_id : ℕ
lss_master_cob_id = 0x7e5

abbrev pub lss_slave_cob_id : ℕ
lss_slave_cob_id = 0x7e4

-- `[u8; 8]`, as an SDO payload is.
abbrev pub LssFrame : Type 0
LssFrame = Payload

abbrev pub unconfigured_node_id : ℕ
unconfigured_node_id = 0xff

abbrev pub cs_switch_global : ℕ
cs_switch_global = 0x04

abbrev pub cs_configure_node_id : ℕ
cs_configure_node_id = 0x11

abbrev pub cs_store_configuration : ℕ
cs_store_configuration = 0x17

abbrev pub cs_switch_selective_vendor : ℕ
cs_switch_selective_vendor = 0x40

abbrev pub cs_switch_selective_product : ℕ
cs_switch_selective_product = 0x41

abbrev pub cs_switch_selective_revision : ℕ
cs_switch_selective_revision = 0x42

abbrev pub cs_switch_selective_serial : ℕ
cs_switch_selective_serial = 0x43

abbrev pub cs_switch_selective_response : ℕ
cs_switch_selective_response = 0x44

abbrev pub cs_inquire_vendor : ℕ
cs_inquire_vendor = 0x5a

abbrev pub cs_inquire_product : ℕ
cs_inquire_product = 0x5b

abbrev pub cs_inquire_revision : ℕ
cs_inquire_revision = 0x5c

abbrev pub cs_inquire_serial : ℕ
cs_inquire_serial = 0x5d

abbrev pub cs_inquire_node_id : ℕ
cs_inquire_node_id = 0x5e

abbrev pub cs_identify_slave : ℕ
cs_identify_slave = 0x4f

abbrev pub cs_fastscan : ℕ
cs_fastscan = 0x51

abbrev pub mode_waiting : ℕ
mode_waiting = 0

abbrev pub mode_configuration : ℕ
mode_configuration = 1

abbrev pub fastscan_init : ℕ
fastscan_init = 32

pub record LssAddress : Type 0 where
  pub vendor_id : ℕ
  pub product_code : ℕ
  pub revision_number : ℕ
  pub serial_number : ℕ

-- Each of the four is a `u32`.
pub record IsValid (a : LssAddress) : Type 0 where
  pub vendor_lt : a.vendor_id < 2 ^ 32
  pub product_lt : a.product_code < 2 ^ 32
  pub revision_lt : a.revision_number < 2 ^ 32
  pub serial_lt : a.serial_number < 2 ^ 32

pub data LssState : Type 0 where
  waiting configuration : LssState

-- `frame(cs)` with `f[1]` set.
abbrev pub frame_byte : ℕ → ℕ → LssFrame
frame_byte cs b = record { b0 = cs; b1 = b; b2 = 0; b3 = 0; b4 = 0; b5 = 0; b6 = 0; b7 = 0 }

abbrev pub frame : ℕ → LssFrame
frame cs = frame_byte cs 0

unfoldable pub frame_u32 : ℕ → ℕ → LssFrame
frame_u32 cs value =
    let bytes = to_le_bytes 4 value in
    record (frame cs) {
      b1 = get_or bytes 0 0;
      b2 = get_or bytes 1 0;
      b3 = get_or bytes 2 0;
      b4 = get_or bytes 3 0;
    }

unfoldable pub u32_at : LssFrame → ℕ
u32_at f = from_le_bytes (f.b1 ∷ f.b2 ∷ f.b3 ∷ f.b4 ∷ [])

unfoldable pub encode_switch_global : Bool → LssFrame
encode_switch_global to_configuration =
    frame_byte cs_switch_global (if to_configuration then mode_configuration else mode_waiting)

unfoldable pub encode_switch_selective : LssAddress → List LssFrame
unfolding frame_u32
encode_switch_selective a =
    frame_u32 cs_switch_selective_vendor a.vendor_id
    ∷ frame_u32 cs_switch_selective_product a.product_code
    ∷ frame_u32 cs_switch_selective_revision a.revision_number
    ∷ frame_u32 cs_switch_selective_serial a.serial_number
    ∷ []

unfoldable pub encode_configure_node_id : ℕ → LssFrame
encode_configure_node_id node_id = frame_byte cs_configure_node_id node_id

unfoldable pub encode_store : LssFrame
encode_store = frame cs_store_configuration

unfoldable pub encode_inquire_node_id : LssFrame
encode_inquire_node_id = frame cs_inquire_node_id

unfoldable pub is_switch_selective_response : LssFrame → Bool
is_switch_selective_response f = f.b0 == cs_switch_selective_response

-- `Result<(), u8>`: the answer of a slave that was given a node-id.
pub data Configured : Type 0 where
  accepted : Configured
  refused : ℕ → Configured

unfoldable pub decode_configure_node_id_response : LssFrame → Option Configured
decode_configure_node_id_response f =
    if not (f.b0 == cs_configure_node_id)
    then none
    else some (if f.b1 == 0 then accepted else refused f.b1)

unfoldable pub decode_inquire_node_id_response : LssFrame → Option ℕ
decode_inquire_node_id_response f = if f.b0 == cs_inquire_node_id then some f.b1 else none

unfoldable pub encode_fastscan : ℕ → ℕ → ℕ → ℕ → LssFrame
unfolding frame_u32
encode_fastscan id_number bit_check lss_sub lss_next = record (frame_u32 cs_fastscan id_number) {
  b5 = bit_check;
  b6 = lss_sub;
  b7 = lss_next;
}

unfoldable pub is_identify_slave_response : LssFrame → Bool
is_identify_slave_response f = f.b0 == cs_identify_slave
