-- ===== src/Node/Exchange.antt =====
-- core/src/node.rs: a process data object that one node sends and another takes.
use canopen_rs.Types.{ok}
use canopen_rs.Base.{
  ℕ, ◌≤◌, ◌≡◌, ◌≢◌, ◌∙◌, refl, ap, false, none, some, List, length, drop, replicate, All,
  take-append, ◌==◌, arith, ◌++◌, true,
}
use canopen_rs.Heapless.{BoundedVec}
use canopen_rs.Datatypes.ByteString.{max_string_len}
use canopen_rs.Types.Outcome.{done, ◌>>=◌}
use canopen_rs.Objects.ObjectDictionary.{ObjectDictionary, EntryMap}
use canopen_rs.Objects.ObjectDictionary.Invariant
use canopen_rs.Sdo.Payload.{request_cob_id}
use canopen_rs.Nmt.NmtState.{operational}
use canopen_rs.Lss.{lss_master_cob_id}
use canopen_rs.Pdo.{MappingEntry, entries, total_bytes, is_empty}
use canopen_rs.Pdo.Frame.{pack, unpack}
use canopen_rs.Pdo.Transfer.{unpack-pack}
use canopen_rs.Pdo.Transfer.Spec.{IsShared, Copies}
use canopen_rs.Node.{Node, RpdoSlot, TpdoSlot, max_pdos, max_pdo_mapping, lss_unconfigured}
use canopen_rs.Node.Frame
use canopen_rs.Node.Frame.{TxFrame, data_bytes, data_bytes-new}
use canopen_rs.Node.Dispatch.{
  on_frame, on_rpdo, is_operational, tpdo, build_tpdo, get_slot, find_mapping,
}

eq_no : (x y : ℕ) → x ≢ y → (x == y) ≡ false
eq_no x y other = ground arith

module _ {M Buf Map R T H : Type 0} ⦃m : EntryMap M⦄ ⦃buf : BoundedVec ℕ max_string_len Buf⦄
    ⦃map : BoundedVec MappingEntry max_pdo_mapping Map⦄ where
  -- A mapping that can be packed is sent under the slot's COB-ID.
  build_tpdo_lem :
      (n : Node M Buf Map R T H) (slot : TpdoSlot Map) (frame : List ℕ)
      → 1 ≤ length (entries slot.mapping)
      → length frame ≤ 8
      → pack slot.mapping n.od (replicate 8 0)
        ≡ done (frame ++ drop (length frame) (replicate 8 0), ok (length frame))
      → build_tpdo n slot ≡ done (some (Frame.new slot.cob_id frame))
  unfolding build_tpdo is_empty
  build_tpdo_lem n slot frame some_entry fits packed =
      let kept = take-append frame (drop (length frame) (replicate 8 0)) in
      let full : (length (entries slot.mapping) == 0) ≡ false = ground arith in
      rw full (rw (packed, ◌>>=◌) (rw kept refl))

  module _ ⦃r : BoundedVec (RpdoSlot Map) max_pdos R⦄
      ⦃t : BoundedVec (TpdoSlot Map) max_pdos T⦄ where
    on_frame-unpacked :
        (b : Node M Buf Map R T H) (slot : TpdoSlot Map) (bytes : List ℕ) (od : ObjectDictionary M)
        → b.nmt.state ≡ operational
        → lss_unconfigured b ≡ false
        → find_mapping (r.as_slice b.rpdos) slot.cob_id ≡ some slot.mapping
        → slot.cob_id ≢ lss_master_cob_id
        → slot.cob_id ≢ 0
        → slot.cob_id ≢ request_cob_id b.sdo.node
        → unpack slot.mapping b.od bytes ≡ done (od, ok tt)
        → on_frame b slot.cob_id bytes ≡ done (record b { od = od }, none)
    unfolding on_frame on_rpdo
    on_frame-unpacked b slot bytes od state configured takes no_lss no_nmt no_sdo unpacked =
        let runs : is_operational b.nmt.state ≡ true = rw state refl in
        rw
          (
            eq_no slot.cob_id 0x7e5 no_lss,
            configured,
            eq_no slot.cob_id 0 no_nmt,
            eq_no slot.cob_id (request_cob_id b.sdo.node) no_sdo,
          )
          (rw (runs, takes) (rw (unpacked, ◌>>=◌) refl))

    -- Two operational nodes, of which one has a transmit slot, and the other, whose node-id is
    -- configured, has a receive slot with the same COB-ID and mapping: where the COB-ID is none of
    -- LSS, NMT or the receiver's SDO requests, the mapping has an entry and at most eight bytes, the
    -- sender's values are valid, and it can read every mapped object, which the receiver has as a
    -- writable one of the same fixed-size type, the slot's frame is built, and when the receiver
    -- gets it, the mapped objects take the sender's values and all else is as before.
    pub on_frame-tpdo :
        (a b : Node M Buf Map R T H) (index : ℕ) (slot : TpdoSlot Map)
        → Invariant.IsValid a.od
        → a.nmt.state ≡ operational
        → get_slot (t.as_slice a.tpdos) index ≡ some slot
        → 1 ≤ length (entries slot.mapping)
        → total_bytes slot.mapping ≤ 8
        → All (IsShared a.od b.od) (entries slot.mapping)
        → b.nmt.state ≡ operational
        → lss_unconfigured b ≡ false
        → find_mapping (r.as_slice b.rpdos) slot.cob_id ≡ some slot.mapping
        → slot.cob_id ≢ lss_master_cob_id
        → slot.cob_id ≢ 0
        → slot.cob_id ≢ request_cob_id b.sdo.node
        → (f : TxFrame) × (od : ObjectDictionary M) × (tpdo a index ≡ done (some f))
          × (on_frame b f.cob_id (data_bytes f) ≡ done (record b { od = od }, none))
          × Copies a.od b.od (entries slot.mapping) od
    unfolding tpdo Frame.new
    on_frame-tpdo a b index slot valid a_state has some_entry fits shared b_state configured takes
          no_lss no_nmt no_sdo =
        let (frame, od, packed, total, _, unpacked, copies) =
          unpack-pack a.od valid slot.mapping b.od (replicate 8 0) shared fits in
        let short : length frame ≤ 8 = omega (arith, total, fits) in
        (
          Frame.new slot.cob_id frame,
          od,
          rw (a_state, has) (build_tpdo_lem a slot frame some_entry short packed),
          ap (λ (bytes : List ℕ). on_frame b slot.cob_id bytes)
                (data_bytes-new slot.cob_id frame short)
              ∙ on_frame-unpacked b slot frame od b_state configured takes no_lss no_nmt no_sdo
                  unpacked,
          copies,
        )
