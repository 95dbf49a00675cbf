-- ===== src/Objects/ObjectDictionary.antt =====
-- core/src/object_dictionary.rs: the object dictionary over heapless's map.
-- A method that changes the dictionary returns the new one beside its result.
pub mod Access
pub mod Invariant
use canopen_rs.Base.{Bool, not, Option, none, some, if◌then◌else◌}
use canopen_rs.Heapless.{LinearMap}
use canopen_rs.Types.{
  Result, ok, err, object_not_found, read_only, write_only, type_mismatch, dictionary_full,
}
use canopen_rs.Datatypes.DataType
use canopen_rs.Datatypes.Value.{Value, data_type}
use canopen_rs.Objects.Address
use canopen_rs.Objects.Address.{Address}
use canopen_rs.Objects.Entry.{Entry, is_readable, is_writable}

-- The map of a dictionary, over the derived equality of addresses.
abbrev pub EntryMap : Type 0 → Type 0
EntryMap M = LinearMap Address Entry Address.eq M

pub record ObjectDictionary (M : Type 0) : Type 0 where
  pub entries : M

module _ {M : Type 0} ⦃m : EntryMap M⦄ where
  unfoldable pub new : ObjectDictionary M
  new = record { entries = m.new }

  unfoldable pub insert :
      ObjectDictionary M → Address → Entry → ObjectDictionary M × Result (Unit {0})
  insert od addr entry = elim (m.insert od.entries addr entry) [
    | some entries ↦ (record { entries = entries }, ok tt)
    | none ↦ (od, err dictionary_full)
  ]

  unfoldable pub entry : ObjectDictionary M → Address → Option Entry
  entry od addr = m.get od.entries addr

  unfoldable pub read : ObjectDictionary M → Address → Result Value
  read od addr = elim (m.get od.entries addr) [
    | none ↦ err object_not_found
    | some entry ↦ if not (is_readable entry.access) then err write_only else ok entry.value
  ]

  -- `entry.value = value`, through the reference of `get_mut`.
  abbrev pub store : ObjectDictionary M → Address → Entry → Value → ObjectDictionary M
  store od addr entry value = record {
    entries = m.write od.entries addr (record entry { value = value });
  }

  unfoldable pub write :
      ObjectDictionary M → Address → Value → ObjectDictionary M × Result (Unit {0})
  write od addr value = elim (m.get od.entries addr) [
    | none ↦ (od, err object_not_found)
    | some entry ↦
        if not (is_writable entry.access)
        then (od, err read_only)
        else if not (DataType.eq (data_type entry.value) (data_type value))
        then (od, err type_mismatch)
        else (store od addr entry value, ok tt)
  ]

  unfoldable pub set : ObjectDictionary M → Address → Value → ObjectDictionary M × Result (Unit {0})
  set od addr value = elim (m.get od.entries addr) [
    | none ↦ (od, err object_not_found)
    | some entry ↦
        if not (DataType.eq (data_type entry.value) (data_type value))
        then (od, err type_mismatch)
        else (store od addr entry value, ok tt)
  ]
