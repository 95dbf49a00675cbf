-- ===== src/Standard/Contents.antt =====
-- core/src/standard.rs: the standard objects by their addresses.
use canopen_rs.Base.{ℕ, zero, suc, ◌+◌, Option, none, some, ltb, if◌then◌else◌, ◌==◌}
use mathlib.Core.Option
use canopen_rs.Heapless.{is_some}
use canopen_rs.Datatypes.Value.{Value}
use canopen_rs.Objects.Entry.{Entry, rw_entry, ro_entry, constant}
use canopen_rs.Lss.{LssAddress}
use canopen_rs.Standard.{StandardObjects}

-- The identity record 0x1018: the last sub-index, and the values that LSS matches.
abbrev pub identity_object : LssAddress → ℕ → Option Entry
identity_object a zero = some (constant (Value.unsigned8 4))
identity_object a (suc zero) = some (constant (Value.unsigned32 a.vendor_id))
identity_object a (suc (suc zero)) = some (constant (Value.unsigned32 a.product_code))
identity_object a (suc (suc (suc zero))) = some (constant (Value.unsigned32 a.revision_number))
identity_object a (suc (suc (suc (suc zero)))) = some (constant (Value.unsigned32 a.serial_number))
identity_object a (suc (suc (suc (suc (suc k))))) = none

-- The pre-defined error field 0x1003, where it has any entries.
abbrev pub history_object : ℕ → ℕ → Option Entry
history_object entries zero = if ltb 0 entries then some (rw_entry (Value.unsigned8 0)) else none
history_object entries (suc k) =
    if ltb k entries then some (ro_entry (Value.unsigned32 0)) else none

-- The objects of one value, by their index.
abbrev pub single_object : StandardObjects → ℕ → ℕ → Option Entry
single_object s index zero =
    if index == 0x1000
    then some (constant (Value.unsigned32 s.device_type))
    else if index == 0x1001
    then some (ro_entry (Value.unsigned8 0))
    else if index == 0x1008
    then Option.map (λ name. constant (Value.visible_string name)) s.device_name
    else if index == 0x1017
    then some (rw_entry (Value.unsigned16 s.producer_heartbeat_ms))
    else none
single_object s index (suc k) = none

-- The standard object at an address.
abbrev pub standard_object : StandardObjects → ℕ → ℕ → Option Entry
standard_object s index k =
    if index == 0x1018
    then identity_object s.identity k
    else if index == 0x1003
    then history_object s.error_history_len k
    else single_object s index k

-- How many standard objects there are: eight, the name, and the error field with its count.
abbrev pub standard_count : StandardObjects → ℕ
standard_count s =
    8
    + (if is_some s.device_name then 1 else 0)
    + (if ltb 0 s.error_history_len then s.error_history_len + 1 else 0)

abbrev pub or_else : Option Entry → Option Entry → Option Entry
or_else (some e) old = some e
or_else none old = old
