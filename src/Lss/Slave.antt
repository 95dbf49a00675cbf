-- ===== src/Lss/Slave.antt =====
-- core/src/lss.rs: `LssSlave`, the state machine of a node that is configured.
use canopen_rs.Base.{
  ℕ, suc, ◌*◌, ◌^◌, ◌%◌, Bool, true, false, not, ◌&&◌, ◌||◌, Option, none, some, ◌==◌, leb,
  if◌then◌else◌, bit_and, bit_xor,
}
use canopen_rs.Lss.{
  LssFrame, LssAddress, LssState, waiting, configuration, frame, frame_byte, frame_u32, u32_at,
  unconfigured_node_id, fastscan_init, mode_configuration, cs_switch_global, cs_configure_node_id,
  cs_store_configuration, cs_switch_selective_vendor, cs_switch_selective_product,
  cs_switch_selective_revision, cs_switch_selective_serial, cs_switch_selective_response,
  cs_inquire_vendor, cs_inquire_product, cs_inquire_revision, cs_inquire_serial, cs_inquire_node_id,
  cs_identify_slave, cs_fastscan,
}

pub record LssSlave : Type 0 where
  pub address : LssAddress
  pub node_id : ℕ
  pub pending_node_id : ℕ
  pub state : LssState
  pub selective : ℕ
  pub fs_sub : ℕ

unfoldable pub new : LssAddress → ℕ → LssSlave
new address node_id = record {
  address = address;
  node_id = node_id;
  pending_node_id = node_id;
  state = waiting;
  selective = 0;
  fs_sub = 0;
}

unfoldable pub identity : LssAddress → ℕ → ℕ
identity a sub =
    if sub == 0
    then a.vendor_id
    else if sub == 1
    then a.product_code
    else if sub == 2
    then a.revision_number
    else a.serial_number

abbrev pub is_configuration : LssState → Bool
is_configuration waiting = false
is_configuration configuration = true

-- `0xFFFF_FFFFu32 << bit_check`
abbrev pub mask : ℕ → ℕ
mask bit_check = 0xffffffff * 2 ^ bit_check % 2 ^ 32

-- The bits of the candidate that are known so far are those of the identity value.
unfoldable pub agrees : LssSlave → LssFrame → Bool
unfolding u32_at identity
agrees s req = bit_and (bit_xor (u32_at req) (identity s.address req.b6)) (mask req.b5) == 0

-- What a full match of an identity value does.
unfoldable pub confirm : LssSlave → LssFrame → LssSlave
confirm s req =
    if req.b5 == 0 && not (req.b7 == req.b6)
    then if leb 3 req.b6 then record s { state = configuration } else record s { fs_sub = req.b7 }
    else s

unfoldable pub handle_fastscan : LssSlave → LssFrame → LssSlave × Option LssFrame
unfolding agrees confirm
handle_fastscan s req =
    if not (s.node_id == unconfigured_node_id) || is_configuration s.state
    then (s, none)
    else if leb fastscan_init req.b5
    then (record s { fs_sub = 0 }, some (frame cs_identify_slave))
    else if not (req.b6 == s.fs_sub)
    then (s, none)
    else if not (agrees s req)
    then (s, none)
    else (confirm s req, some (frame cs_identify_slave))

unfoldable pub adopt_pending : LssSlave → LssSlave
adopt_pending s = record s { node_id = s.pending_node_id }

-- A step of the selective switch: the next level if the value matches at this level, else none.
unfoldable pub match_next : LssSlave → ℕ → ℕ → LssFrame → LssSlave
unfolding u32_at
match_next s level value req = record s {
  selective = if s.selective == level && u32_at req == value then suc level else 0;
}

unfoldable pub on_switch_global : LssSlave → LssFrame → LssSlave × Option LssFrame
on_switch_global s req = (
  record s {
    selective = 0;
    state = if req.b1 == mode_configuration then configuration else waiting;
  },
  none,
)

unfoldable pub on_switch_serial : LssSlave → LssFrame → LssSlave × Option LssFrame
unfolding u32_at
on_switch_serial s req =
    if s.selective == 3 && u32_at req == s.address.serial_number
    then (
      record s { selective = 0; state = configuration },
      some (frame cs_switch_selective_response),
    )
    else (record s { selective = 0 }, none)

-- A node-id that a slave accepts: of a node, or that of an unconfigured one.
unfoldable pub is_assignable : ℕ → Bool
is_assignable id = leb 1 id && leb id 127 || id == unconfigured_node_id

unfoldable pub on_configure_node_id : LssSlave → LssFrame → LssSlave × Option LssFrame
unfolding is_assignable
on_configure_node_id s req =
    if is_assignable req.b1
    then (record s { pending_node_id = req.b1 }, some (frame_byte cs_configure_node_id 0))
    else (s, some (frame_byte cs_configure_node_id 1))

-- The services that only a slave in the configuration state answers.
unfoldable pub on_configuration : LssSlave → LssFrame → LssSlave × Option LssFrame
unfolding on_configure_node_id frame_u32
on_configuration s req =
    if req.b0 == cs_configure_node_id
    then on_configure_node_id s req
    else if req.b0 == cs_store_configuration
    then (s, some (frame cs_store_configuration))
    else if req.b0 == cs_inquire_node_id
    then (s, some (frame_byte cs_inquire_node_id s.node_id))
    else if req.b0 == cs_inquire_vendor
    then (s, some (frame_u32 cs_inquire_vendor s.address.vendor_id))
    else if req.b0 == cs_inquire_product
    then (s, some (frame_u32 cs_inquire_product s.address.product_code))
    else if req.b0 == cs_inquire_revision
    then (s, some (frame_u32 cs_inquire_revision s.address.revision_number))
    else if req.b0 == cs_inquire_serial
    then (s, some (frame_u32 cs_inquire_serial s.address.serial_number))
    else (s, none)

unfoldable pub handle : LssSlave → LssFrame → LssSlave × Option LssFrame
unfolding match_next on_switch_global on_switch_serial on_configuration handle_fastscan u32_at
handle s req =
    if req.b0 == cs_switch_global
    then on_switch_global s req
    else if req.b0 == cs_switch_selective_vendor
    then (record s { selective = if u32_at req == s.address.vendor_id then 1 else 0 }, none)
    else if req.b0 == cs_switch_selective_product
    then (match_next s 1 s.address.product_code req, none)
    else if req.b0 == cs_switch_selective_revision
    then (match_next s 2 s.address.revision_number req, none)
    else if req.b0 == cs_switch_selective_serial
    then on_switch_serial s req
    else if req.b0 == cs_fastscan
    then handle_fastscan s req
    else if is_configuration s.state
    then on_configuration s req
    else (s, none)
