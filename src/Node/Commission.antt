-- ===== src/Node/Commission.antt =====
-- core/src/node.rs: a node that gets its node-id over the bus.
use canopen_rs.Base.{ℕ, ◌≤◌, ◌≡◌, refl, true, false, none, some, [], ◌∷◌, arith}
use canopen_rs.Heapless.{BoundedVec}
use canopen_rs.Datatypes.ByteString.{max_string_len}
use canopen_rs.Types.{ok}
use canopen_rs.Types.NodeId
use canopen_rs.Types.NodeId.{NodeId}
use canopen_rs.Types.Outcome.{done}
use canopen_rs.Objects.ObjectDictionary.{EntryMap}
use canopen_rs.Sdo.Payload.{all_bytes}
use canopen_rs.Sdo.Server
use canopen_rs.Lss.{
  lss_master_cob_id, lss_slave_cob_id, encode_switch_global, encode_configure_node_id,
  configuration,
}
use canopen_rs.Lss.Slave
use canopen_rs.Lss.Slave.{
  LssSlave, handle, on_switch_global, on_configuration, on_configure_node_id, is_assignable,
}
use canopen_rs.Pdo.{MappingEntry}
use canopen_rs.Node.{
  Node, RpdoSlot, max_pdos, max_pdo_mapping, lss_unconfigured, apply_lss_node_id, set_node_id,
}
use canopen_rs.Node.Frame
use canopen_rs.Node.Frame.{TxFrame}
use canopen_rs.Node.Dispatch.{on_frame, on_lss}

-- The slave after the global switch.
abbrev pub switched : LssSlave → LssSlave
switched l = record l { selective = 0; state = configuration }

assignable : (id : ℕ) → 1 ≤ id → id ≤ 127 → is_assignable id ≡ true
unfolding is_assignable
assignable id low high = ground arith

new_id : (id : ℕ) → 1 ≤ id → id ≤ 127 → NodeId.new id ≡ ok (record { raw = id })
unfolding NodeId.new
new_id id low high = ground arith

module _ {M Buf Map R T H : Type 0} ⦃m : EntryMap M⦄ ⦃buf : BoundedVec ℕ max_string_len Buf⦄
    ⦃map : BoundedVec MappingEntry max_pdo_mapping Map⦄
    ⦃r : BoundedVec (RpdoSlot Map) max_pdos R⦄ where
  -- The node with its LSS slave.
  abbrev pub with_lss : Node M Buf Map R T H → LssSlave → Node M Buf Map R T H
  with_lss n l = record n { lss = some l }

  on_frame-switch :
      (n : Node M Buf Map R T H) (l : LssSlave)
      → on_frame (with_lss n l) lss_master_cob_id (all_bytes (encode_switch_global true))
        ≡ done (with_lss n (switched l), none)
  unfolding on_frame on_lss handle on_switch_global encode_switch_global
  on_frame-switch n l = refl

  on_frame-configure :
      (n : Node M Buf Map R T H) (l : LssSlave) (id : ℕ)
      → 1 ≤ id
      → id ≤ 127
      → (f : TxFrame) × (on_frame
            (with_lss n (switched l))
            lss_master_cob_id
            (all_bytes (encode_configure_node_id id))
          ≡ done (with_lss n (record (switched l) { pending_node_id = id }), some f))
        × (f.cob_id ≡ lss_slave_cob_id)
  unfolding on_frame on_lss handle on_configuration on_configure_node_id encode_configure_node_id
      is_assignable Frame.new
  on_frame-configure n l id low high =
      let fits : is_assignable id ≡ true = assignable id low high in
      (Frame.new lss_slave_cob_id (0x11 ∷ 0 ∷ 0 ∷ 0 ∷ 0 ∷ 0 ∷ 0 ∷ 0 ∷ []), rw fits refl, refl)

  -- A node with LSS, in any state, that gets the global switch to configuration and then a node-id of
  -- 1 to 127 from the LSS master, answers the second frame; when it then applies what it got, it has
  -- this node-id, a new SDO server for it, the dictionary that it had, and is not unconfigured.
  pub apply_lss_node_id_lem :
      (n : Node M Buf Map R T H) (l : LssSlave) (id : ℕ)
      → 1 ≤ id
      → id ≤ 127
      → (n1 : Node M Buf Map R T H) × (n2 : Node M Buf Map R T H) × (f : TxFrame) × (on_frame
            (with_lss n l)
            lss_master_cob_id
            (all_bytes (encode_switch_global true))
          ≡ done (n1, none))
        × (on_frame n1 lss_master_cob_id (all_bytes (encode_configure_node_id id))
            ≡ done (n2, some f))
        × (f.cob_id ≡ lss_slave_cob_id)
        × ((apply_lss_node_id n2).1 ≡ some (record { raw = id }))
        × ((apply_lss_node_id n2).0.node_id ≡ record { raw = id })
        × ((apply_lss_node_id n2).0.sdo ≡ Server.new (record { raw = id }))
        × ((apply_lss_node_id n2).0.od ≡ n.od)
        × (lss_unconfigured (apply_lss_node_id n2).0 ≡ false)
  unfolding apply_lss_node_id set_node_id lss_unconfigured Slave.adopt_pending
  apply_lss_node_id_lem n l id low high =
      let (f, given, sent) = on_frame-configure n l id low high in
      let made = new_id id low high in
      (
        with_lss n (switched l),
        with_lss n (record (switched l) { pending_node_id = id }),
        f,
        on_frame-switch n l,
        given,
        sent,
        rw (made, apply_lss_node_id) refl,
        rw (made, apply_lss_node_id) refl,
        rw (made, apply_lss_node_id) refl,
        rw (made, apply_lss_node_id) refl,
        rw (made, apply_lss_node_id, lss_unconfigured) (ground arith),
      )
