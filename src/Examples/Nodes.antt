-- ===== src/Examples/Nodes.antt =====
-- A node over the device of three objects, and a dictionary with the standard objects.
use canopen_rs.Objects.Entry.{ro_entry, rw_entry}
use canopen_rs.Examples.Network.{mapping, listener, heartbeat-IsShared}
use canopen_rs.Node.Exchange.{on_frame-tpdo}
use canopen_rs.Node.Transmit.{Sends, sync_tpdos_lem}
use canopen_rs.Pdo.Transfer.Spec.{Copies}
use canopen_rs.Base.{ℕ, ◌≡◌, refl, true, false, Option, some, none, List, [], ◌∷◌, arith, ◌⊎◌}
use canopen_rs.Heapless.{BoundedVec}
use canopen_rs.Types.{ok}
use canopen_rs.Types.Outcome.{done}
use canopen_rs.Datatypes.Value.{Value}
use canopen_rs.Objects.Address
use canopen_rs.Objects.Address.{Address}
use canopen_rs.Objects.ObjectDictionary.{ObjectDictionary, entry}
use canopen_rs.Sdo.Payload.{all_bytes, request_cob_id}
use canopen_rs.Sdo.Server
use canopen_rs.Nmt.{NmtState, operational, pre_operational}
use canopen_rs.Emcy
use canopen_rs.Emcy.{emcy_cob_id}
use canopen_rs.Node.Mirror.{updated, mirrored}
use canopen_rs.Lss.{
  LssAddress, lss_master_cob_id, lss_slave_cob_id, encode_switch_global, encode_configure_node_id,
  waiting,
}
use canopen_rs.Lss.Slave
use canopen_rs.Pdo.{MappingEntry, entries, total_bytes, total_bits, synchronous_cyclic}
use canopen_rs.Node.{Node, RpdoSlot, TpdoSlot, lss_unconfigured, apply_lss_node_id}
use canopen_rs.Node.Frame.{TxFrame, data_bytes}
use canopen_rs.Node.Errors.{raise_emergency}
use canopen_rs.Node.Dispatch.{on_frame, on_rpdo, tpdo, sync_tpdos, is_operational}
use canopen_rs.Node.History.{raise_emergency_lem}
use canopen_rs.Node.Safety.{IsReady, EndsReady, on_frame-EndsReady}
use canopen_rs.Node.Gates.Rules.{Gated}
use canopen_rs.Node.Gates.{on_frame-Gated}
use canopen_rs.Node.Commission.{apply_lss_node_id_lem}
use canopen_rs.Standard.{StandardObjects, insert_into}
use canopen_rs.Standard.Populated.{Populated, insert_into-Populated}
use canopen_rs.Examples.Containers.{Items, items_map, bytes_vec, mapping_vec, list_vec}
use canopen_rs.Examples.Device.{node, device, device-IsValid}

abbrev Map : Type 0
Map = List MappingEntry

abbrev Rpdos : Type 0
Rpdos = List (RpdoSlot Map)

instance abbrev rpdo_vec : BoundedVec (RpdoSlot Map) 4 Rpdos
rpdo_vec = list_vec (RpdoSlot Map) 4

instance abbrev history_vec : BoundedVec ℕ 8 (List ℕ)
history_vec = list_vec ℕ 8

abbrev Device : Type 0
Device = Node Items (List ℕ) Map Rpdos (List (TpdoSlot Map)) (List ℕ)

abbrev pump : LssAddress
pump = record { vendor_id = 0x1f; product_code = 0x2a; revision_number = 1; serial_number = 0x1234 }

abbrev pump_slave : Slave.LssSlave
pump_slave = record {
  address = pump;
  node_id = 0xff;
  pending_node_id = 0xff;
  state = waiting;
  selective = 0;
  fs_sub = 0;
}

abbrev pump_node : NmtState → Option Slave.LssSlave → Device
pump_node state lss = record {
  node_id = node;
  od = device;
  sdo = record { node = node; transfer = none; last_write = none };
  nmt = record { state = state };
  rpdos = [];
  tpdos = [];
  lss = lss;
  guard_toggle = false;
  error_register = 0;
  error_history = 0x2310 ∷ [];
  sync_producer = none;
}

-- An SDO request to read the device name.
abbrev request : List ℕ
request = 0x40 ∷ 0x08 ∷ 0x10 ∷ 0 ∷ 0 ∷ 0 ∷ 0 ∷ 0 ∷ []

pump-IsReady : IsReady (pump_node operational none)
pump-IsReady = record { server = tt; objects = device-IsValid }

on_frame-EndsReady_example :
    EndsReady (pump_node operational none) (on_frame (pump_node operational none) 0x605 request)
on_frame-EndsReady_example =
    on_frame-EndsReady (pump_node operational none) 0x605 request pump-IsReady (ground arith)

on_frame-Gated_example : Gated (pump_node operational none) 0x123 (pump_node operational none) none
unfolding on_frame on_rpdo lss_unconfigured request_cob_id
on_frame-Gated_example =
    on_frame-Gated (pump_node operational none) (pump_node operational none) 0x123 request none refl

-- The pump with the error objects 0x1001 and 0x1003, for one past error.
abbrev error_objects : ObjectDictionary Items
error_objects = record {
  entries =
      (Address.new 0x1001 0, ro_entry (Value.unsigned8 0))
      ∷ (Address.new 0x1003 0, rw_entry (Value.unsigned8 0))
      ∷ (Address.new 0x1003 1, ro_entry (Value.unsigned32 0))
      ∷ [];
}

abbrev faulty : Device
faulty = record (pump_node operational none) { od = error_objects }

raise_emergency_lem_example :
    (n' : Device) × (f : TxFrame) × (raise_emergency faulty 0x4210
        (record { bits = 8 })
        (1 ∷ 2 ∷ 3 ∷ 4 ∷ 5 ∷ [])
      ≡ done (n', f))
    × (n'.error_register ≡ 9)
    × (n'.error_history ≡ 0x4210 ∷ 0x2310 ∷ [])
    × ((j : Address)
        → entry n'.od j
          ≡ updated (entry error_objects j) (mirrored n'.error_register n'.error_history j))
    × (f.cob_id ≡ emcy_cob_id node)
    × (Emcy.decode (data_bytes f)
        ≡ ok (record {
          error_code = 0x4210;
          error_register = record { bits = n'.error_register };
          vendor_specific = 1 ∷ 2 ∷ 3 ∷ 4 ∷ 5 ∷ [];
        }))
    × (n' ≡ record faulty {
      error_register = n'.error_register;
      error_history = n'.error_history;
      od = n'.od;
    })
raise_emergency_lem_example =
    raise_emergency_lem faulty 0x4210 (record { bits = 8 }) (1 ∷ 2 ∷ 3 ∷ 4 ∷ 5 ∷ []) (omega arith)
      (omega arith) refl

apply_lss_node_id_lem_example :
    (n1 : Device) × (n2 : Device) × (f : TxFrame) × (on_frame
        (pump_node pre_operational (some pump_slave))
        lss_master_cob_id
        (all_bytes (encode_switch_global true))
      ≡ done (n1, none))
    × (on_frame n1 lss_master_cob_id (all_bytes (encode_configure_node_id 0x20))
        ≡ done (n2, some f))
    × (f.cob_id ≡ lss_slave_cob_id)
    × ((apply_lss_node_id n2).1 ≡ some (record { raw = 0x20 }))
    × ((apply_lss_node_id n2).0.node_id ≡ record { raw = 0x20 })
    × ((apply_lss_node_id n2).0.sdo ≡ Server.new (record { raw = 0x20 }))
    × ((apply_lss_node_id n2).0.od ≡ device)
    × (lss_unconfigured (apply_lss_node_id n2).0 ≡ false)
apply_lss_node_id_lem_example =
    apply_lss_node_id_lem (pump_node pre_operational none) pump_slave 0x20 (omega arith)
      (omega arith)

abbrev standard : StandardObjects
standard = record {
  device_type = 0x192;
  identity = pump;
  producer_heartbeat_ms = 1000;
  error_history_len = 2;
  device_name = none;
}

abbrev empty : ObjectDictionary Items
empty = record { entries = [] }

insert_into-Populated_example :
    ((insert_into standard empty).1 ≡ ok tt)
    × Populated standard empty (insert_into standard empty).0
insert_into-Populated_example = insert_into-Populated standard empty (omega arith)

abbrev Tpdos : Type 0
Tpdos = List (TpdoSlot Map)

instance abbrev tpdo_vec : BoundedVec (TpdoSlot Map) 4 Tpdos
tpdo_vec = list_vec (TpdoSlot Map) 4

instance abbrev frame_vec : BoundedVec TxFrame 4 (List TxFrame)
frame_vec = list_vec TxFrame 4

abbrev heartbeat_slot : TpdoSlot Map
heartbeat_slot = record { cob_id = 0x185; mapping = mapping; transmission = synchronous_cyclic 1 }

abbrev sender : Device
sender = record (pump_node operational none) { tpdos = heartbeat_slot ∷ [] }

abbrev receiver : Device
receiver = record (pump_node operational none) {
  od = listener;
  rpdos = record { cob_id = 0x185; mapping = mapping } ∷ [];
}

sync_tpdos_lem_example :
    (frames : List TxFrame) × (sync_tpdos sender ≡ done frames)
    × (((is_operational operational ≡ false) × (◌≡◌ {A = List TxFrame} frames []))
        ⊎ ((is_operational operational ≡ true) × Sends sender (heartbeat_slot ∷ []) frames))
sync_tpdos_lem_example = sync_tpdos_lem sender (omega arith)

on_frame-tpdo_example :
    (f : TxFrame) × (od : ObjectDictionary Items) × (tpdo sender 0 ≡ done (some f))
    × (on_frame receiver f.cob_id (data_bytes f) ≡ done (record receiver { od = od }, none))
    × Copies device listener (entries {N = 8} mapping) od
unfolding entries total_bytes total_bits lss_unconfigured request_cob_id
on_frame-tpdo_example =
    on_frame-tpdo sender receiver 0 heartbeat_slot device-IsValid refl refl (omega arith)
      (omega arith) (heartbeat-IsShared, tt) refl refl refl (λ e. omega (arith, e))
      (λ e. omega (arith, e)) (λ e. omega (arith, e))
