-- ===== src/Examples/Device.antt =====
-- A device of three objects, for the examples.
use canopen_rs.Base.{
  ℕ, ◌≡◌, refl, some, List, [], ◌∷◌, ◌++◌, arith, All, Bool-cases, inl, inr, replicate, subst,
}
use canopen_rs.Types.NodeId.{NodeId}
use canopen_rs.Datatypes.ByteString
use canopen_rs.Datatypes.ByteString.{ByteString}
use canopen_rs.Datatypes.Value
use canopen_rs.Datatypes.Value.{Value}
use canopen_rs.Objects.Address
use canopen_rs.Objects.Address.{Address}
use canopen_rs.Objects.Entry.{Entry, rw_entry, ro_entry}
use canopen_rs.Objects.ObjectDictionary.{ObjectDictionary, entry}
use canopen_rs.Objects.ObjectDictionary.Invariant
use canopen_rs.Objects.ObjectDictionary.Invariant.{holds_valid}
use canopen_rs.Examples.Containers.{Items, items_map, get}

abbrev pub node : NodeId
node = record { raw = 5 }

abbrev pub text : List ℕ → ByteString
text bytes = record { buffer = bytes ++ replicate 22 0; length_used = 10 }

abbrev pub old_name : Value
old_name = Value.visible_string (text (112 ∷ 117 ∷ 109 ∷ 112 ∷ 45 ∷ 48 ∷ 48 ∷ 48 ∷ 48 ∷ 49 ∷ []))

abbrev pub new_name : Value
new_name = Value.visible_string (text (112 ∷ 117 ∷ 109 ∷ 112 ∷ 45 ∷ 48 ∷ 48 ∷ 48 ∷ 52 ∷ 50 ∷ []))

pub new_name-IsValid : Value.IsValid new_name
unfolding ByteString.from_bytes ByteString.as_bytes
new_name-IsValid = record {
  built = refl;
  bytes = ground arith;
  counted = refl;
  bounded = omega arith;
}

pub old_name-IsValid : Value.IsValid old_name
unfolding ByteString.from_bytes ByteString.as_bytes
old_name-IsValid = record {
  built = refl;
  bytes = ground arith;
  counted = refl;
  bounded = omega arith;
}

abbrev pub device_type : Address
device_type = Address.new 0x1000 0

abbrev pub device_name : Address
device_name = Address.new 0x1008 0

abbrev pub heartbeat_time : Address
heartbeat_time = Address.new 0x1017 0

abbrev pub device : ObjectDictionary Items
device = record {
  entries =
      (device_type, ro_entry (Value.unsigned32 0x0002_0192))
      ∷ (device_name, rw_entry old_name)
      ∷ (heartbeat_time, rw_entry (Value.unsigned16 1000))
      ∷ [];
}

pub device_name-IsValid : Address.IsValid device_name
device_name-IsValid = record { index_lt = omega arith; subindex_lt = omega arith }

-- Every item of the list holds a valid value.
all_valid :
    (m : Items)
    → All (λ (x : Address × Entry). Value.IsValid x.1.value) m
    → (a : Address) (e : Entry) → get m a ≡ some e
    → Value.IsValid e.value
all_valid [] h a e found = absurd (ground arith)
all_valid ((k, x) ∷ m) h a e found = elim (Bool-cases (Address.eq k a)) [
  | inl here ↦
      let same : x ≡ e = ground arith in subst (λ (y : Entry). Value.IsValid y.value) same h.0
  | inr there ↦ all_valid m h.1 a e (ground arith)
]

pub device-IsValid : Invariant.IsValid device
unfolding entry
device-IsValid a =
    holds_valid (get device.entries a)
      (all_valid device.entries (omega arith, (old_name-IsValid, (omega arith, tt))) a)
