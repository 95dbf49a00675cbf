-- ===== src/Node/Configure.antt =====
-- core/src/node.rs: the PDOs of a node as its dictionary's parameter objects describe them.
use canopen_rs.Base.{ℕ, zero, suc, ◌+◌, not, Option, none, some, if◌then◌else◌}
use mathlib.Core.Option
use canopen_rs.Heapless.{BoundedVec}
use canopen_rs.Types.{Result, ok, err}
use canopen_rs.Datatypes.Value.{Value}
use canopen_rs.Objects.Address
use canopen_rs.Objects.ObjectDictionary.{ObjectDictionary, EntryMap, read}
use canopen_rs.Pdo
use canopen_rs.Pdo.{
  PdoMapping, MappingEntry, TransmissionType, event_driven_profile, from_u32, from_byte,
  pdo_is_valid, pdo_can_id,
}
use canopen_rs.Node.{Node, RpdoSlot, TpdoSlot, max_pdos, max_pdo_mapping}

-- The value of an `Unsigned32`, and of an `Unsigned8`.
abbrev pub as_u32 : Result Value → Option ℕ
as_u32 (ok (Value.unsigned32 v)) = some v
as_u32 _ = none

abbrev pub as_u8 : Result Value → Option ℕ
as_u8 (ok (Value.unsigned8 v)) = some v
as_u8 _ = none

-- `and_then(|b| TransmissionType::from_byte(b).ok()).unwrap_or(..)`
abbrev pub transmission_of : Option ℕ → TransmissionType
transmission_of none = event_driven_profile
transmission_of (some b) = elim (from_byte b) [ ok t ↦ t | err _ ↦ event_driven_profile ]

module _ {M : Type 0} ⦃m : EntryMap M⦄ where
  unfoldable pub od_u32 : ObjectDictionary M → ℕ → ℕ → Option ℕ
  od_u32 od index sub = as_u32 (read od (Address.new index sub))

  unfoldable pub od_u8 : ObjectDictionary M → ℕ → ℕ → Option ℕ
  od_u8 od index sub = as_u8 (read od (Address.new index sub))

  module _ {Map : Type 0} ⦃map : BoundedVec MappingEntry max_pdo_mapping Map⦄ where
    -- The loop of `read_pdo_mapping` over the sub-indices from `sub` on, `left` of them.
    unfoldable pub push_mapped :
        ObjectDictionary M
        → ℕ
        → ℕ
        → ℕ
        → PdoMapping max_pdo_mapping Map
        → Option (PdoMapping max_pdo_mapping Map)
    push_mapped od map_index sub zero mapping = some mapping
    push_mapped od map_index sub (suc left) mapping = elim (od_u32 od map_index sub) [
      | none ↦ none
      | some raw ↦
          let (mapping', result) = Pdo.push mapping (from_u32 raw) in
          elim result [ err _ ↦ none | ok _ ↦ push_mapped od map_index (sub + 1) left mapping' ]
    ]

    unfoldable pub read_pdo_mapping :
        ObjectDictionary M → ℕ → Option (PdoMapping max_pdo_mapping Map)
    read_pdo_mapping od map_index = elim (od_u8 od map_index 0) [
      | none ↦ none
      | some count ↦ push_mapped od map_index 1 count Pdo.new
    ]

    unfoldable pub build_rpdo : ObjectDictionary M → ℕ → Option (RpdoSlot Map)
    build_rpdo od n = elim (od_u32 od (0x1400 + n) 1) [
      | none ↦ none
      | some cob_id ↦
          if not (pdo_is_valid cob_id)
          then none
          else Option.map (λ mapping. record { cob_id = pdo_can_id cob_id; mapping = mapping })
              (read_pdo_mapping od (0x1600 + n))
    ]

    unfoldable pub build_tpdo : ObjectDictionary M → ℕ → Option (TpdoSlot Map)
    build_tpdo od n = elim (od_u32 od (0x1800 + n) 1) [
      | none ↦ none
      | some cob_id ↦
          if not (pdo_is_valid cob_id)
          then none
          else Option.map
              (λ mapping. record {
                cob_id = pdo_can_id cob_id;
                mapping = mapping;
                transmission = transmission_of (od_u8 od (0x1800 + n) 2);
              })
              (read_pdo_mapping od (0x1a00 + n))
    ]

-- `if let Some(slot) = slot { let _ = v.push(slot); }`
abbrev pub push_some : {A V : Type 0} → ⦃v : BoundedVec A max_pdos V⦄ → V → Option A → V
push_some ⦃v⦄ slots none = slots
push_some ⦃v⦄ slots (some slot) = elim (v.push slots slot) [ some slots' ↦ slots' | none ↦ slots ]

module _ {M Buf Map R T H : Type 0} ⦃m : EntryMap M⦄
    ⦃map : BoundedVec MappingEntry max_pdo_mapping Map⦄ ⦃r : BoundedVec (RpdoSlot Map) max_pdos R⦄
    ⦃t : BoundedVec (TpdoSlot Map) max_pdos T⦄ where
  -- The loop of `configure_pdos_from_od` over the PDOs from `n` on, `left` of them.
  unfoldable pub configure_from : ℕ → ℕ → Node M Buf Map R T H → Node M Buf Map R T H
  configure_from n zero node = node
  configure_from n (suc left) node =
      let rpdos = push_some node.rpdos (build_rpdo {Map = Map} node.od n) in
      let tpdos = push_some node.tpdos (build_tpdo {Map = Map} node.od n) in
      configure_from (suc n) left (record node { rpdos = rpdos; tpdos = tpdos })

  unfoldable pub configure_pdos_from_od : Node M Buf Map R T H → Node M Buf Map R T H
  configure_pdos_from_od node =
      configure_from 0 max_pdos
        (record node { rpdos = r.clear node.rpdos; tpdos = t.clear node.tpdos })
