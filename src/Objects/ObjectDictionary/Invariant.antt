-- ===== src/Objects/ObjectDictionary/Invariant.antt =====
-- core/src/object_dictionary.rs: what no access to a dictionary can change.
use canopen_rs.Base.{
  ◌≡◌, inl, inr, subst, false, Option, none, some, if◌then◌else◌, arith, Bool-cases, refl, ◌∙◌,
}
use canopen_rs.Datatypes.DataType.{DataType}
use canopen_rs.Datatypes.Value
use canopen_rs.Datatypes.Value.{Value, data_type}
use canopen_rs.Objects.Address
use canopen_rs.Objects.Address.{Address}
use canopen_rs.Objects.Entry.{Entry, AccessType, is_writable}
use canopen_rs.Objects.ObjectDictionary.{ObjectDictionary, EntryMap, entry, write}
use canopen_rs.Objects.ObjectDictionary.Access.{entry-store, write-cases}

-- What an object keeps for good: its type and its access rights.
abbrev pub shape : Option Entry → Option (DataType × AccessType)
shape none = none
shape (some e) = some (data_type e.value, e.access)

-- An object that is not writable, as a whole.
abbrev pub locked : Option Entry → Option Entry
locked none = none
locked (some e) = if is_writable e.access then none else some e

-- What an address leads to, if anything, is a valid value.
abbrev pub HoldsValid : Option Entry → Type 0
HoldsValid none = Unit
HoldsValid (some e) = Value.IsValid e.value

pub holds_valid :
    (o : Option Entry) → ((e : Entry) → o ≡ some e → Value.IsValid e.value) → HoldsValid o
holds_valid none h = tt
holds_valid (some e) h = h e refl

module _ {M : Type 0} ⦃m : EntryMap M⦄ where
  -- Every object of the dictionary holds a valid value.
  abbrev pub IsValid : ObjectDictionary M → Type 0
  IsValid od = (a : Address) → HoldsValid (entry od a)

  pub entry-IsValid :
      (od : ObjectDictionary M) (a : Address) (e : Entry)
      → IsValid od
      → entry od a ≡ some e
      → Value.IsValid e.value
  entry-IsValid od a e h found = rw found at (h a)

  shape-write :
      (od : ObjectDictionary M) (a j : Address) (v : Value)
      → shape (entry (write od a v).0 j) ≡ shape (entry od j)
  shape-write od a j v = elim (write-cases od a v) [
    | inl (x, e) ↦ rw e
    | inr (e, found, open_, same, done) ↦
        rw (done, entry-store od a j e v found) (ground (arith, Address.eq_iff a j))
  ]

  written-IsValid :
      (od : ObjectDictionary M) (a : Address) (v : Value)
      → IsValid od
      → Value.IsValid v
      → (j : Address) (e : Entry) → entry (write od a v).0 j ≡ some e
      → Value.IsValid e.value
  written-IsValid od a v h hv j e found = elim (write-cases od a v) [
    | inl (x, e') ↦ entry-IsValid od j e h (rw e' at found)
    | inr (e', found', open_, same, done) ↦
        let stored : (if Address.eq a j then some (record e' { value = v }) else entry od j)
            ≡ some e =
          rw (done, entry-store od a j e' v found') at found in
        elim (Bool-cases (Address.eq a j)) [
          | inl here ↦
              let written : v ≡ e.value = ground arith in subst (λ x. Value.IsValid x) written hv
          | inr there ↦ entry-IsValid od j e h (ground arith)
        ]
  ]

  write-IsValid :
      (od : ObjectDictionary M) (a : Address) (v : Value)
      → IsValid od
      → Value.IsValid v
      → IsValid (write od a v).0
  write-IsValid od a v h hv j =
      holds_valid (entry (write od a v).0 j) (λ e. written-IsValid od a v h hv j e)

  -- An object that is not writable is the same after any write.
  pub entry-write_protected :
      (od : ObjectDictionary M) (a j : Address) (v : Value) (e : Entry)
      → entry od j ≡ some e
      → is_writable e.access ≡ false
      → entry (write od a v).0 j ≡ some e
  entry-write_protected od a j v e h w = elim (write-cases od a v) [
    | inl (x, e') ↦ rw e' h
    | inr (e', found', open_, same, done) ↦
        rw (done, entry-store od a j e' v found') (ground (arith, Address.eq_iff a j))
  ]

  locked-write :
      (od : ObjectDictionary M) (a j : Address) (v : Value)
      → locked (entry (write od a v).0 j) ≡ locked (entry od j)
  locked-write od a j v = elim (write-cases od a v) [
    | inl (x, e) ↦ rw e refl
    | inr (e, found, open_, same, done) ↦
        rw (done, entry-store od a j e v found) (ground (arith, Address.eq_iff a j))
  ]

  -- What a server's work on a dictionary keeps: valid values, the objects with their types and
  -- access rights, and all that is in objects which are not writable.
  pub record Follows (od od' : ObjectDictionary M) : Type 0 where
    pub valid : IsValid od'
    pub shapes : (j : Address) → shape (entry od' j) ≡ shape (entry od j)
    pub protected : (j : Address) → locked (entry od' j) ≡ locked (entry od j)

  pub Follows-refl : (od : ObjectDictionary M) → IsValid od → Follows od od
  Follows-refl od h = record { valid = h; shapes = λ j. refl; protected = λ j. refl }

  pub Follows-write :
      (od : ObjectDictionary M) (a : Address) (v : Value)
      → IsValid od
      → Value.IsValid v
      → Follows od (write od a v).0
  Follows-write od a v h hv = record {
    valid = write-IsValid od a v h hv;
    shapes = λ j. shape-write od a j v;
    protected = λ j. locked-write od a j v;
  }

  pub Follows-trans :
      {od od' od'' : ObjectDictionary M} → Follows od od' → Follows od' od'' → Follows od od''
  Follows-trans f g = record {
    valid = g.valid;
    shapes = λ j. g.shapes j ∙ f.shapes j;
    protected = λ j. g.protected j ∙ f.protected j;
  }
