-- ===== src/Node/Dispatch.antt =====
-- core/src/node.rs: what a node does with the frames that it receives, and the PDOs that it sends.
use canopen_rs.Base.{
  ℕ, zero, suc, Bool, true, false, not, ◌||◌, Option, none, some, List, [], ◌∷◌, length, take,
  replicate, get_or, ltb, ◌==◌, if◌then◌else◌,
}
use mathlib.Core.Option
use canopen_rs.Heapless.{BoundedVec}
use canopen_rs.Datatypes.ByteString.{max_string_len}
use canopen_rs.Types.{Result, ok, err}
use canopen_rs.Types.Outcome.{Outcome, done, ◌>>=◌}
use canopen_rs.Types.NodeId
use canopen_rs.Types.NodeId.{NodeId, broadcast}
use canopen_rs.Objects.ObjectDictionary.{EntryMap}
use canopen_rs.Sdo.Payload.{Payload, all_bytes, request_cob_id, response_cob_id}
use canopen_rs.Sdo.Server
use canopen_rs.Nmt
use canopen_rs.Nmt.{NmtState, NmtCommand, nmt_command_cob_id, decode_command}
use canopen_rs.Nmt.NmtState.{initialising, stopped, operational, pre_operational}
use canopen_rs.Lss.{lss_master_cob_id, lss_slave_cob_id}
use canopen_rs.Lss.Slave
use canopen_rs.Pdo.{
  PdoMapping, MappingEntry, TransmissionType, synchronous_acyclic, synchronous_cyclic, is_empty,
}
use canopen_rs.Pdo.Frame.{pack, unpack}
use canopen_rs.Node.{Node, RpdoSlot, TpdoSlot, max_pdos, max_pdo_mapping, lss_unconfigured}
use canopen_rs.Node.Frame
use canopen_rs.Node.Frame.{TxFrame}

abbrev pub is_operational : NmtState → Bool
is_operational operational = true
is_operational _ = false

-- The states in which SDO is served.
abbrev pub serves_sdo : NmtState → Bool
serves_sdo pre_operational = true
serves_sdo operational = true
serves_sdo _ = false

unfoldable pub is_synchronous : TransmissionType → Bool
is_synchronous synchronous_acyclic = true
is_synchronous (synchronous_cyclic _) = true
is_synchronous _ = false

-- Eight zeros with the data copied to their front.
abbrev pub padded : List ℕ → Payload
padded bytes = record {
  b0 = get_or bytes 0 0;
  b1 = get_or bytes 1 0;
  b2 = get_or bytes 2 0;
  b3 = get_or bytes 3 0;
  b4 = get_or bytes 4 0;
  b5 = get_or bytes 5 0;
  b6 = get_or bytes 6 0;
  b7 = get_or bytes 7 0;
}

-- `iter().position(|r| r.cob_id == cob_id)`, and then the slot's mapping.
abbrev pub find_mapping :
    {Map : Type 0} → List (RpdoSlot Map) → ℕ → Option (PdoMapping max_pdo_mapping Map)
find_mapping [] cob_id = none
find_mapping (slot ∷ slots) cob_id =
    if slot.cob_id == cob_id then some slot.mapping else find_mapping slots cob_id

-- `if let Some(frame) = frame { let _ = frames.push(frame); }`
abbrev pub push_frame : {F : Type 0} → ⦃f : BoundedVec TxFrame max_pdos F⦄ → F → Option TxFrame → F
push_frame ⦃f⦄ frames none = frames
push_frame ⦃f⦄ frames (some frame) = elim (f.push frames frame) [
  | some frames' ↦ frames'
  | none ↦ frames
]

-- `get(index)`
abbrev pub get_slot : {Map : Type 0} → List (TpdoSlot Map) → ℕ → Option (TpdoSlot Map)
get_slot [] i = none
get_slot (slot ∷ slots) zero = some slot
get_slot (slot ∷ slots) (suc i) = get_slot slots i

module _ {M Buf Map R T H : Type 0} where
  -- The node after the call, and the frame to transmit.
  unfoldable pub on_lss : Node M Buf Map R T H → List ℕ → Node M Buf Map R T H × Option TxFrame
  on_lss n bytes = elim n.lss [
    | none ↦ (n, none)
    | some l ↦ if ltb 8 (length bytes) then (n, none) else (
      record n { lss = some (Slave.handle l (padded bytes)).0 },
      Option.map (λ response. Frame.new lss_slave_cob_id (all_bytes response))
          (Slave.handle l (padded bytes)).1,
    )
  ]

  -- The command of a frame of two bytes, to this node or to all.
  abbrev pub obey : Node M Buf Map R T H → Result (NmtCommand × NodeId) → Node M Buf Map R T H
  obey n (err _) = n
  obey n (ok (command, target)) =
      if NodeId.eq target broadcast || NodeId.eq target n.node_id
      then record n { nmt = Nmt.apply n.nmt command }
      else n

  unfoldable pub on_nmt : Node M Buf Map R T H → List ℕ → Node M Buf Map R T H
  on_nmt n (command ∷ target ∷ _) = obey n (decode_command (command, target))
  on_nmt n _ = n

  module _ ⦃m : EntryMap M⦄ where
    unfoldable pub on_sdo :
        ⦃buf : BoundedVec ℕ max_string_len Buf⦄
        → Node M Buf Map R T H
        → List ℕ
        → Outcome (Node M Buf Map R T H × Option TxFrame)
    on_sdo n bytes =
        if not (serves_sdo n.nmt.state)
        then done (n, none)
        else if ltb 8 (length bytes)
        then done (n, none)
        else do
          (sdo, od, response) ← Server.handle n.sdo n.od (padded bytes)
          done (
            record n { sdo = sdo; od = od },
            Option.map (λ p. Frame.new (response_cob_id sdo.node) (all_bytes p)) response,
          )

    module _ ⦃map : BoundedVec MappingEntry max_pdo_mapping Map⦄ where
      unfoldable pub on_rpdo :
          ⦃r : BoundedVec (RpdoSlot Map) max_pdos R⦄
          → Node M Buf Map R T H
          → ℕ
          → List ℕ
          → Outcome (Node M Buf Map R T H)
      on_rpdo ⦃r⦄ n cob_id bytes =
          if not (is_operational n.nmt.state)
          then done n
          else elim (find_mapping (r.as_slice n.rpdos) cob_id) [
            | none ↦ done n
            | some mapping ↦ unpack mapping n.od bytes >>= λ (od, _). done (record n { od = od })
          ]

      unfoldable pub on_frame :
          ⦃buf : BoundedVec ℕ max_string_len Buf⦄
          → ⦃r : BoundedVec (RpdoSlot Map) max_pdos R⦄ → Node M Buf Map R T H
          → ℕ
          → List ℕ
          → Outcome (Node M Buf Map R T H × Option TxFrame)
      on_frame n cob_id bytes =
          if cob_id == lss_master_cob_id
          then done (on_lss n bytes)
          else if lss_unconfigured n
          then done (n, none)
          else if cob_id == nmt_command_cob_id
          then done (on_nmt n bytes, none)
          else if cob_id == request_cob_id n.sdo.node
          then on_sdo n bytes
          else on_rpdo n cob_id bytes >>= λ n'. done (n', none)

      unfoldable pub build_tpdo : Node M Buf Map R T H → TpdoSlot Map → Outcome (Option TxFrame)
      build_tpdo n slot =
          if is_empty slot.mapping
          then done none
          else pack slot.mapping n.od (replicate 8 0) >>= λ (buf, result). elim result [
            | err _ ↦ done none
            | ok len ↦ done (some (Frame.new slot.cob_id (take len buf)))
          ]

      module _ {F : Type 0} ⦃f : BoundedVec TxFrame max_pdos F⦄ where
        -- The loop of `sync_tpdos`.
        unfoldable pub sync_slots : Node M Buf Map R T H → List (TpdoSlot Map) → F → Outcome F
        sync_slots n [] frames = done frames
        sync_slots n (slot ∷ slots) frames = elim (is_synchronous slot.transmission) [
          | false ↦ sync_slots n slots frames
          | true ↦ build_tpdo n slot >>= λ frame. sync_slots n slots (push_frame frames frame)
        ]

        unfoldable pub sync_tpdos :
            ⦃t : BoundedVec (TpdoSlot Map) max_pdos T⦄ → Node M Buf Map R T H → Outcome F
        sync_tpdos ⦃t⦄ n =
            if not (is_operational n.nmt.state)
            then done f.new
            else sync_slots n (t.as_slice n.tpdos) f.new

      unfoldable pub tpdo :
          ⦃t : BoundedVec (TpdoSlot Map) max_pdos T⦄
          → Node M Buf Map R T H
          → ℕ
          → Outcome (Option TxFrame)
      tpdo ⦃t⦄ n index =
          if not (is_operational n.nmt.state)
          then done none
          else elim (get_slot (t.as_slice n.tpdos) index) [
            | none ↦ done none
            | some slot ↦ build_tpdo n slot
          ]
