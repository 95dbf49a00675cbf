-- ===== src/Standard.antt =====
-- core/src/standard.rs: the mandatory objects of the communication profile.
pub mod Contents
pub mod Overlay
pub mod Populated
use canopen_rs.Base.{
  ℕ, zero, suc, ◌+◌, min, Option, none, some, List, [], ◌∷◌, ◌++◌, length, take, ltb, if◌then◌else◌,
}
use canopen_rs.Types.{Result, ok, err}
use canopen_rs.Datatypes.ByteString
use canopen_rs.Datatypes.ByteString.{ByteString, max_string_len}
use canopen_rs.Datatypes.Value
use canopen_rs.Datatypes.Value.{Value}
use canopen_rs.Objects.Address
use canopen_rs.Objects.Address.{Address}
use canopen_rs.Objects.Entry.{Entry, rw_entry, ro_entry, constant}
use canopen_rs.Objects.ObjectDictionary.{ObjectDictionary, EntryMap, insert}
use canopen_rs.Lss.{LssAddress}

pub record StandardObjects : Type 0 where
  pub device_type : ℕ
  pub identity : LssAddress
  pub producer_heartbeat_ms : ℕ
  pub error_history_len : ℕ
  pub device_name : Option ByteString

unfoldable pub new : ℕ → LssAddress → StandardObjects
new device_type identity = record {
  device_type = device_type;
  identity = identity;
  producer_heartbeat_ms = 0;
  error_history_len = 0;
  device_name = none;
}

unfoldable pub with_heartbeat : StandardObjects → ℕ → StandardObjects
with_heartbeat s ms = record s { producer_heartbeat_ms = ms }

unfoldable pub with_error_history : StandardObjects → ℕ → StandardObjects
with_error_history s entries = record s { error_history_len = entries }

-- `Result::ok`
abbrev pub ok_or_none : {A : Type 0} → Result A → Option A
ok_or_none (ok a) = some a
ok_or_none (err _) = none

-- The name is its bytes.
unfoldable pub with_device_name : StandardObjects → List ℕ → StandardObjects
with_device_name s name = record s {
  device_name = ok_or_none (ByteString.from_bytes (take (min (length name) max_string_len) name));
}

-- The objects that are inserted, in the order of the source.
unfoldable pub base_objects : StandardObjects → List (Address × Entry)
base_objects s =
    (Address.new 0x1000 0, constant (Value.unsigned32 s.device_type))
    ∷ (Address.new 0x1001 0, ro_entry (Value.unsigned8 0))
    ∷ (Address.new 0x1017 0, rw_entry (Value.unsigned16 s.producer_heartbeat_ms))
    ∷ (Address.new 0x1018 0, constant (Value.unsigned8 4))
    ∷ (Address.new 0x1018 1, constant (Value.unsigned32 s.identity.vendor_id))
    ∷ (Address.new 0x1018 2, constant (Value.unsigned32 s.identity.product_code))
    ∷ (Address.new 0x1018 3, constant (Value.unsigned32 s.identity.revision_number))
    ∷ (Address.new 0x1018 4, constant (Value.unsigned32 s.identity.serial_number))
    ∷ []

unfoldable pub name_object : StandardObjects → List (Address × Entry)
name_object s = elim s.device_name [
  | some name ↦ (Address.new 0x1008 0, constant (Value.visible_string name)) ∷ []
  | none ↦ []
]

-- The sub-indices of the error history from `sub` on, `left` of them.
unfoldable pub history_from : ℕ → ℕ → List (Address × Entry)
history_from sub zero = []
history_from sub (suc left) =
    (Address.new 0x1003 sub, ro_entry (Value.unsigned32 0)) ∷ history_from (sub + 1) left

unfoldable pub history_objects : StandardObjects → List (Address × Entry)
unfolding history_from
history_objects s =
    if ltb 0 s.error_history_len
    then (Address.new 0x1003 0, rw_entry (Value.unsigned8 0)) ∷ history_from 1 s.error_history_len
    else []

module _ {M : Type 0} ⦃m : EntryMap M⦄ where
  -- The chain of insertions, each with `?`: the dictionary is as it was at the first error.
  unfoldable pub insert_all :
      ObjectDictionary M → List (Address × Entry) → ObjectDictionary M × Result (Unit {0})
  insert_all od [] = (od, ok tt)
  insert_all od ((addr, entry) ∷ objects) =
      let (od', result) = insert od addr entry in
      elim result [ err e ↦ (od', err e) | ok _ ↦ insert_all od' objects ]

  unfoldable pub insert_into :
      StandardObjects → ObjectDictionary M → ObjectDictionary M × Result (Unit {0})
  insert_into s od = insert_all od (base_objects s ++ (name_object s ++ history_objects s))
