-- ===== src/Examples/Dictionary.antt =====
-- Accesses to the device's objects.
use canopen_rs.Base.{◌≡◌, ◌↔◌, refl, true, some, if◌then◌else◌}
use canopen_rs.Types.{ok}
use canopen_rs.Datatypes.DataType
use canopen_rs.Datatypes.Value.{Value, data_type}
use canopen_rs.Objects.Address
use canopen_rs.Objects.Address.{Address}
use canopen_rs.Objects.Entry.{Entry, rw_entry, ro_entry, is_writable}
use canopen_rs.Objects.ObjectDictionary.{entry, write}
use canopen_rs.Objects.ObjectDictionary.Access.{write-ok_iff, entry-write}
use canopen_rs.Objects.ObjectDictionary.Invariant.{entry-write_protected}
use canopen_rs.Examples.Containers.{items_map}
use canopen_rs.Examples.Device.{device, device_name, device_type, heartbeat_time}

abbrev second : Value
second = Value.unsigned16 1000

abbrev half_second : Value
half_second = Value.unsigned16 500

abbrev type_code : Value
type_code = Value.unsigned32 0x0002_0192

found : entry device heartbeat_time ≡ some (rw_entry second)
unfolding entry
found = refl

accepted : (write device heartbeat_time half_second).1 ≡ ok tt
unfolding write is_writable data_type DataType.index
accepted = refl

write-ok_iff_example : ((write device heartbeat_time half_second).1 ≡ ok tt) ↔ (
    (e : Entry) × (entry device heartbeat_time ≡ some e)
    × (is_writable e.access ≡ true)
    × (data_type e.value ≡ data_type half_second))
write-ok_iff_example = write-ok_iff device heartbeat_time half_second

entry-write_example : entry (write device heartbeat_time half_second).0 device_name ≡ (
    if Address.eq heartbeat_time device_name
    then some (rw_entry half_second)
    else entry device device_name)
entry-write_example =
    entry-write device heartbeat_time device_name half_second (rw_entry second) found accepted

abbrev new_object : Address
new_object = Address.new 0x2000 1

entry-write_protected_example :
    entry (write device device_type (Value.unsigned32 0)).0 device_type ≡ some (ro_entry type_code)
unfolding entry is_writable
entry-write_protected_example =
    entry-write_protected device device_type device_type (Value.unsigned32 0) (ro_entry type_code)
      refl refl
