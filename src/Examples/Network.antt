-- ===== src/Examples/Network.antt =====
-- Network management and process data.
use canopen_rs.Base.{
  ℕ, ◌≡◌, ◌≢◌, ◌↔◌, ◌⊎◌, ◌<◌, ◌≤◌, ◌+◌, inr, refl, List, [], ◌∷◌, ◌++◌, length, drop, arith,
}
use canopen_rs.Types.{ok, err, pdo_too_long, mapping_full}
use canopen_rs.Types.Outcome.{done}
use canopen_rs.Types.NodeId
use canopen_rs.Types.NodeId.{NodeId}
use canopen_rs.Datatypes.DataType
use canopen_rs.Datatypes.Value
use canopen_rs.Datatypes.Value.{Value, data_type}
use canopen_rs.Objects.Entry.{rw_entry, is_readable, is_writable}
use canopen_rs.Objects.ObjectDictionary.{ObjectDictionary, entry, read}
use canopen_rs.Nmt.{
  start_remote_node, reset_node, initialising, operational, decode_command, encode_command,
  from_byte,
}
use canopen_rs.Nmt.Wire.{decode-encode_command, encode-decode_command, IsTarget}
use canopen_rs.Nmt.Machine.{
  boots, gets, after, IsUp, IsStarted, after-IsUp_iff, after-IsStarted_iff,
}
use canopen_rs.Pdo
use canopen_rs.Pdo.{
  PdoKind, transmit, receive, default_cob_id, TransmissionType, synchronous_cyclic, to_byte,
  MappingEntry, PdoMapping, to_u32, from_u32, entries, total_bits, total_bytes, push, new,
}
use canopen_rs.Pdo.Wire.{default_cob_id-injective}
use canopen_rs.Pdo.Layout.{push_lem, pushed, pushed-fits}
use canopen_rs.Pdo.Frame.{pack, unpack}
use canopen_rs.Pdo.Transfer.{unpack-pack}
use canopen_rs.Pdo.Transfer.Spec.{IsShared, Carries, Copies}
use canopen_rs.Examples.Containers.{Items, items_map, mapping_vec}
use canopen_rs.Examples.Device.{node, heartbeat_time, device, device-IsValid}

node-IsValid : NodeId.IsValid node
node-IsValid = record { low = omega arith; high = omega arith }

decode-encode_command_example :
    decode_command (encode_command reset_node node) ≡ ok (reset_node, node)
decode-encode_command_example = decode-encode_command reset_node node (inr node-IsValid)

encode-decode_command_example : (encode_command reset_node node ≡ (0x81, 5)) × IsTarget node
unfolding decode_command NodeId.new from_byte
encode-decode_command_example = encode-decode_command 0x81 5 reset_node node refl

after-IsUp_iff_example :
    ((after (gets reset_node ∷ boots ∷ [])).state ≢ initialising)
    ↔ IsUp (gets reset_node ∷ boots ∷ [])
after-IsUp_iff_example = after-IsUp_iff (gets reset_node ∷ boots ∷ [])

after-IsStarted_iff_example :
    ((after (gets start_remote_node ∷ boots ∷ [])).state ≡ operational)
    ↔ IsStarted (gets start_remote_node ∷ boots ∷ [])
after-IsStarted_iff_example = after-IsStarted_iff (gets start_remote_node ∷ boots ∷ [])

abbrev heartbeat_mapped : MappingEntry
heartbeat_mapped = record { address = heartbeat_time; bit_length = 16 }

default_cob_id-injective_example : (transmit ≡ transmit) × (◌≡◌ {A = ℕ} 2 2) × (node ≡ node)
unfolding default_cob_id Pdo.base_cob_id
default_cob_id-injective_example =
    default_cob_id-injective transmit transmit 2 2 node node 0x285 node-IsValid node-IsValid refl
      refl

abbrev pub mapping : PdoMapping 8 (List MappingEntry)
mapping = record { entries = heartbeat_mapped ∷ [] }

push_lem_example :
    (64 < total_bits {N = 8} mapping + 16)
      × (push {N = 8} mapping heartbeat_mapped ≡ (mapping, err pdo_too_long))
    ⊎ ((total_bits {N = 8} mapping + 16 ≤ 64)
        × (8 ≤ length (entries {N = 8} mapping))
        × (push {N = 8} mapping heartbeat_mapped ≡ (mapping, err mapping_full)))
    ⊎ ((total_bits {N = 8} mapping + 16 ≤ 64)
        × (length (entries {N = 8} mapping) < 8)
        × ((push {N = 8} mapping heartbeat_mapped).1 ≡ ok tt)
        × (entries {N = 8} (push {N = 8} mapping heartbeat_mapped).0
            ≡ entries {N = 8} mapping ++ heartbeat_mapped ∷ []))
push_lem_example = push_lem {N = 8} mapping heartbeat_mapped

pushed-fits_example :
    total_bytes {N = 8} {V = List MappingEntry} (pushed {N = 8} (heartbeat_mapped ∷ []) new) ≤ 8
pushed-fits_example = pushed-fits 8 (List MappingEntry) (heartbeat_mapped ∷ [])

-- A second device, whose heartbeat time is another.
abbrev pub listener : ObjectDictionary Items
listener = record { entries = (heartbeat_time, rw_entry (Value.unsigned16 0)) ∷ [] }

pub heartbeat-IsShared : IsShared device listener heartbeat_mapped
unfolding read entry is_readable is_writable Value.size data_type DataType.is_variable DataType.size
heartbeat-IsShared = record {
  value = Value.unsigned16 1000;
  target = rw_entry (Value.unsigned16 0);
  readable = refl;
  fixed = refl;
  width = omega arith;
  found = refl;
  writable = refl;
  same_type = refl;
}

unpack-pack_example :
    (frame : List ℕ) × (od'' : ObjectDictionary Items) × (pack mapping device (0 ∷ 0 ∷ 0 ∷ [])
      ≡ done (frame ++ drop (length frame) (0 ∷ 0 ∷ 0 ∷ []), ok (length frame)))
    × (length frame ≡ total_bytes mapping)
    × Carries device (entries mapping) frame
    × (unpack mapping listener frame ≡ done (od'', ok tt))
    × Copies device listener (entries mapping) od''
unfolding entries
unpack-pack_example =
    unpack-pack device device-IsValid mapping listener (0 ∷ 0 ∷ 0 ∷ []) (heartbeat-IsShared, tt)
      (unfold total_bytes in unfold total_bits in omega arith)
