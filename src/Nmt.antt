-- ===== src/Nmt.antt =====
-- core/src/nmt.rs: network management.
pub mod Wire
pub mod Machine
use canopen_rs.Base.{
  ℕ, ◌+◌, ◌*◌, Bool, true, false, not, Option, ◌==◌, if◌then◌else◌, bit_and, bit_or,
}
use canopen_rs.Types.{Result, ok, err, unknown_state, unexpected_command, ◌>>=◌}
use canopen_rs.Types.NodeId
use canopen_rs.Types.NodeId.{NodeId, broadcast}

abbrev pub nmt_command_cob_id : ℕ
nmt_command_cob_id = 0x000

abbrev pub heartbeat_cob_base : ℕ
heartbeat_cob_base = 0x700

unfoldable pub heartbeat_cob_id : NodeId → ℕ
heartbeat_cob_id node = heartbeat_cob_base + node.raw

pub data NmtState : Type 0 where
  initialising stopped operational pre_operational : NmtState

-- `state as u8`
unfoldable pub to_wire : NmtState → ℕ
to_wire initialising = 0x00
to_wire stopped = 0x04
to_wire operational = 0x05
to_wire pre_operational = 0x7f

-- The match of `from_wire`, on the byte without its toggle bit.
unfoldable pub state_of : ℕ → Result NmtState
state_of low =
    if low == 0x00
    then ok initialising
    else if low == 0x04
    then ok stopped
    else if low == 0x05
    then ok operational
    else if low == 0x7f
    then ok pre_operational
    else err unknown_state

unfoldable pub from_wire : ℕ → Result NmtState
unfolding state_of
from_wire byte = state_of (bit_and byte 0x7f)

pub data NmtCommand : Type 0 where
  start_remote_node stop_remote_node enter_pre_operational : NmtCommand
  reset_node reset_communication : NmtCommand

-- `command as u8`
unfoldable pub to_byte : NmtCommand → ℕ
to_byte start_remote_node = 0x01
to_byte stop_remote_node = 0x02
to_byte enter_pre_operational = 0x80
to_byte reset_node = 0x81
to_byte reset_communication = 0x82

unfoldable pub from_byte : ℕ → Result NmtCommand
from_byte byte =
    if byte == 0x01
    then ok start_remote_node
    else if byte == 0x02
    then ok stop_remote_node
    else if byte == 0x80
    then ok enter_pre_operational
    else if byte == 0x81
    then ok reset_node
    else if byte == 0x82
    then ok reset_communication
    else err unexpected_command

-- `[u8; 2]`
abbrev pub NmtCommandFrame : Type 0
NmtCommandFrame = ℕ × ℕ

abbrev pub bootup_frame : ℕ
bootup_frame = 0x00

unfoldable pub encode_command : NmtCommand → NodeId → NmtCommandFrame
unfolding to_byte
encode_command command target = (to_byte command, target.raw)

unfoldable pub decode_command : NmtCommandFrame → Result (NmtCommand × NodeId)
unfolding from_byte NodeId.new
decode_command frame = do
  command ← from_byte frame.0
  target ← (if frame.1 == 0 then ok broadcast else NodeId.new frame.1)
  ok (command, target)

-- A heartbeat frame is its one byte.
unfoldable pub encode_heartbeat : NmtState → ℕ
unfolding to_wire
encode_heartbeat state = to_wire state

unfoldable pub decode_heartbeat : ℕ → Result NmtState
unfolding from_wire
decode_heartbeat byte = from_wire byte

unfoldable pub encode_node_guard : NmtState → Bool → ℕ
unfolding to_wire
encode_node_guard state toggle = bit_or (if toggle then 0x80 else 0) (to_wire state)

unfoldable pub decode_node_guard : ℕ → Result (Bool × NmtState)
unfolding from_wire
decode_node_guard byte = do state ← from_wire byte; ok (not (bit_and byte 0x80 == 0), state)

pub record NmtStateMachine : Type 0 where
  pub state : NmtState

unfoldable pub new : NmtStateMachine
new = record { state = initialising }

-- The state after the call, which the method also returns.
unfoldable pub boot : NmtStateMachine → NmtStateMachine
boot sm = elim sm.state [ initialising ↦ record { state = pre_operational } | _ ↦ sm ]

-- The match of `apply`: a reset comes first, then initialisation ignores the rest.
unfoldable pub next : NmtState → NmtCommand → NmtState
next _ reset_node = initialising
next _ reset_communication = initialising
next initialising _ = initialising
next _ start_remote_node = operational
next _ stop_remote_node = stopped
next _ enter_pre_operational = pre_operational

unfoldable pub apply : NmtStateMachine → NmtCommand → NmtStateMachine
unfolding next
apply sm command = record { state = next sm.state command }
