-- ===== src/Pdo/Transfer/Spec.antt =====
-- core/src/pdo.rs: what a frame carries from one dictionary to another.
use canopen_rs.Base.{
  ℕ, ◌*◌, ◌≡◌, Bool, true, false, ◌||◌, Option, none, some, List, [], ◌∷◌, ◌++◌, if◌then◌else◌,
  subst,
}
use canopen_rs.Types.{Result, ok, err}
use canopen_rs.Datatypes.DataType
use canopen_rs.Datatypes.Value
use canopen_rs.Datatypes.Value.{Value, data_type, wire_bytes, encode_le, decode_le}
use canopen_rs.Objects.Address
use canopen_rs.Objects.Address.{Address}
use canopen_rs.Objects.Entry.{Entry, is_writable}
use canopen_rs.Objects.ObjectDictionary.{ObjectDictionary, EntryMap, entry, read}
use canopen_rs.Objects.ObjectDictionary.Access.{read-ok_iff}
use canopen_rs.Objects.ObjectDictionary.Invariant
use canopen_rs.Pdo.{MappingEntry}

-- The receiver's object takes the sender's value.
abbrev pub take_value : Option Entry → Result Value → Option Entry
take_value none _ = none
take_value (some x) (ok v) = some (record x { value = v })
take_value (some x) (err _) = some x

-- Whether an address is mapped.
abbrev pub is_mapped : List MappingEntry → Address → Bool
is_mapped [] j = false
is_mapped (e ∷ es) j = Address.eq e.address j || is_mapped es j

module _ {M : Type 0} ⦃m : EntryMap M⦄ where
  -- A mapped object that the sender can read, of a type of fixed size, and that the receiver has
  -- as a writable object of the same type.
  pub record IsShared (od od' : ObjectDictionary M) (e : MappingEntry) : Type 0 where
    pub value : Value
    pub target : Entry
    pub readable : read od e.address ≡ ok value
    pub fixed : DataType.is_variable (data_type value) ≡ false
    pub width : 8 * Value.size value ≡ e.bit_length
    pub found : entry od' e.address ≡ some target
    pub writable : is_writable target.access ≡ true
    pub same_type : data_type target.value ≡ data_type value

  -- The bytes are those of the mapped objects' values, one after the other.
  abbrev pub Carries : ObjectDictionary M → List MappingEntry → List ℕ → Type 0
  Carries od [] bytes = bytes ≡ []
  Carries od (e ∷ es) bytes =
      (v : Value) × (rest : List ℕ) × (read od e.address ≡ ok v)
      × (bytes ≡ wire_bytes v ++ rest)
      × Carries od es rest

  -- The mapped objects have taken the sender's values, and the others are as before.
  abbrev pub Copies :
      ObjectDictionary M → ObjectDictionary M → List MappingEntry → ObjectDictionary M → Type 0
  Copies od od' es od'' =
      (j : Address)
      → entry od'' j
        ≡ (if is_mapped es j then take_value (entry od' j) (read od j) else entry od' j)

  module _ (od : ObjectDictionary M) (valid : Invariant.IsValid od) where
    pub value-IsValid : (a : Address) (v : Value) → read od a ≡ ok v → Value.IsValid v
    value-IsValid a v h =
        let (e, found, _, same) = (read-ok_iff od a v).0 h in
        subst (λ (x : Value). Value.IsValid x) same (Invariant.entry-IsValid od a e valid found)
