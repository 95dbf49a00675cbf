-- ===== src/Objects/Entry.antt =====
-- core/src/object_dictionary.rs: access rights and entries.
use canopen_rs.Base.{Bool, true, false}
use canopen_rs.Datatypes.Value.{Value}

pub data AccessType : Type 0 where
  ro wo read_write const : AccessType

unfoldable pub is_readable : AccessType → Bool
is_readable wo = false
is_readable ro = true
is_readable read_write = true
is_readable const = true

unfoldable pub is_writable : AccessType → Bool
is_writable wo = true
is_writable read_write = true
is_writable ro = false
is_writable const = false

pub record Entry : Type 0 where
  pub value : Value
  pub access : AccessType

-- `Entry::rw`, `Entry::ro` and `Entry::constant`.
abbrev pub rw_entry : Value → Entry
rw_entry v = record { value = v; access = read_write }

abbrev pub ro_entry : Value → Entry
ro_entry v = record { value = v; access = ro }

abbrev pub constant : Value → Entry
constant v = record { value = v; access = const }
