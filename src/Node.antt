-- ===== src/Node.antt =====
-- core/src/node.rs: the state of a device node and the operations on it that no frame triggers.
-- The type parameters are those of the node's containers: its objects, its transfer buffer, the
-- entries of a mapping, its receive and transmit PDOs, and its past errors.
pub mod Frame
pub mod Errors
pub mod Configure
pub mod Dispatch
pub mod Mirror
pub mod History
pub mod Pdos
pub mod Safety
pub mod Exchange
pub mod Transmit
pub mod Gates
pub mod Commission
use canopen_rs.Base.{ℕ, Bool, true, false, not, Option, none, some, List, [], ◌∷◌, ◌==◌}
use canopen_rs.Heapless.{BoundedVec}
use canopen_rs.Datatypes.ByteString.{max_string_len}
use canopen_rs.Types.{Result, ok, err, mapping_full}
use canopen_rs.Types.NodeId
use canopen_rs.Types.NodeId.{NodeId}
use canopen_rs.Objects.Address.{Address}
use canopen_rs.Objects.ObjectDictionary.{ObjectDictionary, EntryMap}
use canopen_rs.Sdo.Server
use canopen_rs.Sdo.Server.{SdoServer}
use canopen_rs.Nmt
use canopen_rs.Nmt.{
  NmtStateMachine, heartbeat_cob_id, bootup_frame, encode_node_guard, encode_heartbeat,
}
use canopen_rs.Lss.{LssAddress, unconfigured_node_id}
use canopen_rs.Lss.Slave
use canopen_rs.Lss.Slave.{LssSlave}
use canopen_rs.Pdo.{PdoMapping, MappingEntry, TransmissionType}
use canopen_rs.Sync
use canopen_rs.Sync.{SyncCounter}
use canopen_rs.Node.Frame
use canopen_rs.Node.Frame.{TxFrame}

abbrev pub max_pdos : ℕ
max_pdos = 4

abbrev pub max_pdo_mapping : ℕ
max_pdo_mapping = 8

abbrev pub max_error_history : ℕ
max_error_history = 8

pub record RpdoSlot (Map : Type 0) : Type 0 where
  pub cob_id : ℕ
  pub mapping : PdoMapping max_pdo_mapping Map

pub record TpdoSlot (Map : Type 0) : Type 0 where
  pub cob_id : ℕ
  pub mapping : PdoMapping max_pdo_mapping Map
  pub transmission : TransmissionType

pub record Node (M Buf Map R T H : Type 0) : Type 0 where
  pub node_id : NodeId
  pub od : ObjectDictionary M
  pub sdo : SdoServer Buf
  pub nmt : NmtStateMachine
  pub rpdos : R
  pub tpdos : T
  pub lss : Option LssSlave
  pub guard_toggle : Bool
  pub error_register : ℕ
  pub error_history : H
  pub sync_producer : Option SyncCounter

module _ {M Buf Map R T H : Type 0} where
  module _ ⦃r : BoundedVec (RpdoSlot Map) max_pdos R⦄ ⦃t : BoundedVec (TpdoSlot Map) max_pdos T⦄
      ⦃h : BoundedVec ℕ max_error_history H⦄ where
    unfoldable pub new : NodeId → ObjectDictionary M → Node M Buf Map R T H
    new node_id od = record {
      node_id = node_id;
      od = od;
      sdo = Server.new node_id;
      nmt = Nmt.new;
      rpdos = r.new;
      tpdos = t.new;
      lss = none;
      guard_toggle = false;
      error_register = 0;
      error_history = h.new;
      sync_producer = none;
    }

  unfoldable pub enable_lss : Node M Buf Map R T H → LssAddress → Node M Buf Map R T H
  enable_lss n address = record n { lss = some (Slave.new address n.node_id.raw) }

  unfoldable pub enable_lss_unconfigured : Node M Buf Map R T H → LssAddress → Node M Buf Map R T H
  enable_lss_unconfigured n address = record n {
    lss = some (Slave.new address unconfigured_node_id);
  }

  unfoldable pub lss_unconfigured : Node M Buf Map R T H → Bool
  lss_unconfigured n = elim n.lss [ some l ↦ l.node_id == unconfigured_node_id | none ↦ false ]

  unfoldable pub set_node_id : Node M Buf Map R T H → NodeId → Node M Buf Map R T H
  set_node_id n node_id = record n { node_id = node_id; sdo = Server.new node_id }

  -- The node after the call, and the node-id that it has taken.
  unfoldable pub apply_lss_node_id : Node M Buf Map R T H → Node M Buf Map R T H × Option NodeId
  unfolding set_node_id
  apply_lss_node_id n = elim n.lss [
    | none ↦ (n, none)
    | some l ↦ elim (NodeId.new l.pending_node_id) [
      | err _ ↦ (n, none)
      | ok node_id ↦
          (record (set_node_id n node_id) { lss = some (Slave.adopt_pending l) }, some node_id)
    ]
  ]

  unfoldable pub add_rpdo :
      ⦃r : BoundedVec (RpdoSlot Map) max_pdos R⦄
      → Node M Buf Map R T H
      → ℕ
      → PdoMapping max_pdo_mapping Map
      → Node M Buf Map R T H × Result (Unit {0})
  add_rpdo ⦃r⦄ n cob_id mapping =
      elim (r.push n.rpdos (record { cob_id = cob_id; mapping = mapping })) [
        | some rpdos ↦ (record n { rpdos = rpdos }, ok tt)
        | none ↦ (n, err mapping_full)
      ]

  unfoldable pub add_tpdo :
      ⦃t : BoundedVec (TpdoSlot Map) max_pdos T⦄
      → Node M Buf Map R T H
      → ℕ
      → PdoMapping max_pdo_mapping Map
      → TransmissionType
      → Node M Buf Map R T H × Result (Unit {0})
  add_tpdo ⦃t⦄ n cob_id mapping transmission =
      let slot : TpdoSlot Map = record {
        cob_id = cob_id;
        mapping = mapping;
        transmission = transmission;
      } in
      elim (t.push n.tpdos slot) [
        | some tpdos ↦ (record n { tpdos = tpdos }, ok tt)
        | none ↦ (n, err mapping_full)
      ]

  unfoldable pub take_written_object : Node M Buf Map R T H → Node M Buf Map R T H × Option Address
  take_written_object n =
      let (sdo, written) = Server.take_write n.sdo in (record n { sdo = sdo }, written)

  unfoldable pub boot : Node M Buf Map R T H → Node M Buf Map R T H × TxFrame
  boot n = (
    record n { nmt = Nmt.boot n.nmt; guard_toggle = false },
    Frame.new (heartbeat_cob_id n.node_id) (bootup_frame ∷ []),
  )

  unfoldable pub node_guard_response : Node M Buf Map R T H → Node M Buf Map R T H × TxFrame
  node_guard_response n = (
    record n { guard_toggle = not n.guard_toggle },
    Frame.new (heartbeat_cob_id n.node_id) (encode_node_guard n.nmt.state n.guard_toggle ∷ []),
  )

  unfoldable pub heartbeat : Node M Buf Map R T H → TxFrame
  heartbeat n = Frame.new (heartbeat_cob_id n.node_id) (encode_heartbeat n.nmt.state ∷ [])

  unfoldable pub enable_sync_producer :
      Node M Buf Map R T H → ℕ → Node M Buf Map R T H × Result (Unit {0})
  enable_sync_producer n counter_overflow = elim (Sync.new counter_overflow) [
    | err e ↦ (n, err e)
    | ok counter ↦ (record n { sync_producer = some counter }, ok tt)
  ]

  unfoldable pub produce_sync : Node M Buf Map R T H → Node M Buf Map R T H × Option TxFrame
  produce_sync n = elim n.sync_producer [
    | none ↦ (n, none)
    | some c ↦
        let (counter, count) = Sync.advance c in
        let n = record n { sync_producer = some counter } in
        elim count [
          | some k ↦ (n, some (Frame.new Sync.sync_cob_id (Sync.encode_counter k)))
          | none ↦ (n, some (Frame.new Sync.sync_cob_id []))
        ]
  ]
