-- ===== src/Nmt/Wire.antt =====
-- core/src/nmt.rs: the frames of network management, read back.
use canopen_rs.Base.{
  ℕ, ◌<◌, ◌≡◌, ◌↔◌, ◌⊎◌, inl, inr, refl, Bool, true, false, ◌==◌, if◌then◌else◌, Bool-cases, arith,
  ◌%◌,
}
use canopen_rs.Base.Bits.{and_0x7f}
use canopen_rs.Types.{Result, ok, bind_ok}
use canopen_rs.Types.NodeId
use canopen_rs.Types.NodeId.{NodeId, broadcast}
use canopen_rs.Nmt.{
  NmtState, initialising, stopped, operational, pre_operational, NmtCommand, start_remote_node,
  stop_remote_node, enter_pre_operational, reset_node, reset_communication, to_wire, from_wire,
  state_of, to_byte, from_byte, encode_command, decode_command, encode_node_guard,
  decode_node_guard,
}

-- A target that a command can address: everybody, or a node.
abbrev pub IsTarget : NodeId → Type 0
IsTarget n = (n.raw ≡ 0) ⊎ NodeId.IsValid n

-- The frame of a command to a valid node, or to all nodes, decodes to its command and its target.
pub decode-encode_command :
    (command : NmtCommand) (target : NodeId)
    → IsTarget target
    → decode_command (encode_command command target) ≡ ok (command, target)
unfolding decode_command encode_command
decode-encode_command start_remote_node n h = ground arith
decode-encode_command _ n h = ground arith

from_byte_iff : (a : ℕ) (command : NmtCommand) → (from_byte a ≡ ok command) ↔ (a ≡ to_byte command)
unfolding from_byte to_byte
from_byte_iff a start_remote_node = (ground arith, ground arith)
from_byte_iff a stop_remote_node = (ground arith, ground arith)
from_byte_iff a enter_pre_operational = (ground arith, ground arith)
from_byte_iff a reset_node = (ground arith, ground arith)
from_byte_iff a reset_communication = (ground arith, ground arith)

addressee :
    (t : ℕ) (target : NodeId)
    → (if t == 0 then ok broadcast else NodeId.new t) ≡ ok target
    → (target.raw ≡ t) × IsTarget target
unfolding NodeId.new
addressee t target h = elim (Bool-cases (t == 0)) [
  | inl zero ↦ ground arith
  | inr other ↦ ground arith
]

decoded :
    (a t : ℕ) (c command : NmtCommand) (n target : NodeId)
    → (a ≡ to_byte c)
    → (n.raw ≡ t) × IsTarget n
    → ◌≡◌ {A = Result (NmtCommand × NodeId)} (ok (c, n)) (ok (command, target))
    → (encode_command command target ≡ (a, t)) × IsTarget target
unfolding encode_command
decoded a t c command n target p q same = ground arith

-- A frame that decodes is the frame of the command and target that it decodes to, and the target
-- is a valid node or all nodes.
pub encode-decode_command :
    (a t : ℕ) (command : NmtCommand) (target : NodeId)
    → decode_command (a, t) ≡ ok (command, target)
    → (encode_command command target ≡ (a, t)) × IsTarget target
unfolding decode_command encode_command
encode-decode_command a t command target h =
    let (c, e, rest) = bind_ok (from_byte a) _ _ h in
    let (n, e', rest') = bind_ok (if t == 0 then ok broadcast else NodeId.new t) _ _ rest in
    decoded a t c command n target ((from_byte_iff a c).0 e) (addressee t n e') rest'

-- A node-guard byte carries the state and the toggle bit.
pub decode-encode_node_guard :
    (state : NmtState) (toggle : Bool)
    → decode_node_guard (encode_node_guard state toggle) ≡ ok (toggle, state)
unfolding decode_node_guard encode_node_guard
decode-encode_node_guard initialising true = refl
decode-encode_node_guard initialising false = refl
decode-encode_node_guard _ true = refl
decode-encode_node_guard _ false = refl

-- Of a byte, `from_wire` gives a state exactly for the state's number, with the toggle bit set or clear.
pub from_wire_iff :
    (byte : ℕ) (state : NmtState)
    → byte < 256
    → (from_wire byte ≡ ok state) ↔ (byte % 128 ≡ to_wire state)
unfolding from_wire to_wire state_of
from_wire_iff byte initialising h = rw (and_0x7f byte) (ground arith, ground arith)
from_wire_iff byte stopped h = rw (and_0x7f byte) (ground arith, ground arith)
from_wire_iff byte operational h = rw (and_0x7f byte) (ground arith, ground arith)
from_wire_iff byte pre_operational h = rw (and_0x7f byte) (ground arith, ground arith)
