-- ===== src/Objects/ObjectDictionary/Access.antt =====
-- core/src/object_dictionary.rs: when reads, writes and insertions succeed, and what they change.
use canopen_rs.Base.{
  ◌∙◌, ◌≡◌, ◌≢◌, ◌↔◌, ◌⊎◌, inl, inr, refl, sym, true, false, ◌||◌, some, ltb, if◌then◌else◌, arith,
  Option-cases, Bool-cases,
}
use canopen_rs.Heapless.{is_some}
use canopen_rs.Types.{Error, ok, err, object_not_found, dictionary_full, read_only, type_mismatch}
use canopen_rs.Datatypes.DataType
use canopen_rs.Datatypes.DataType.Index
use canopen_rs.Datatypes.Value.{Value, data_type}
use canopen_rs.Objects.Address
use canopen_rs.Objects.Address.{Address}
use canopen_rs.Objects.Entry.{Entry, is_readable, is_writable}
use canopen_rs.Objects.ObjectDictionary.{
  ObjectDictionary, EntryMap, insert, entry, read, write, set, store,
}

module _ {M : Type 0} ⦃m : EntryMap M⦄ where
  pub entry-store :
      (od : ObjectDictionary M) (a j : Address) (e : Entry) (v : Value)
      → entry od a ≡ some e
      → entry (store od a e v) j
        ≡ (if Address.eq a j then some (record e { value = v }) else entry od j)
  unfolding entry
  entry-store od a j e v h = ground (arith, m.get-write od.entries a j (record e { value = v }))

  -- The two ways that a write ends.
  pub write-cases :
      (od : ObjectDictionary M) (a : Address) (v : Value)
      → ((x : Error) × (write od a v ≡ (od, err x)))
        ⊎ ((e : Entry) × (entry od a ≡ some e)
            × (is_writable e.access ≡ true)
            × (data_type e.value ≡ data_type v)
            × (write od a v ≡ (store od a e v, ok tt)))
  unfolding write entry
  write-cases od a v = elim (Option-cases (m.get od.entries a)) [
    | inl missing ↦ inl (object_not_found, ground arith)
    | inr (e, found) ↦ elim (Bool-cases (is_writable e.access)) [
      | inr locked ↦ inl (read_only, ground arith)
      | inl open_ ↦ elim (Bool-cases (DataType.eq (data_type e.value) (data_type v))) [
        | inr other ↦ inl (type_mismatch, ground arith)
        | inl same ↦ inr (e, found, open_, (Index.eq_iff _ _).0 same, ground arith)
      ]
    ]
  ]

  -- A write succeeds exactly when the object is there, is writable and has the value's type.
  pub write-ok_iff :
      (od : ObjectDictionary M) (a : Address) (v : Value)
      → ((write od a v).1 ≡ ok tt) ↔ (
          (e : Entry) × (entry od a ≡ some e)
          × (is_writable e.access ≡ true)
          × (data_type e.value ≡ data_type v))
  unfolding write entry
  write-ok_iff od a v = elim (Option-cases (m.get od.entries a)) [
    | inl missing ↦ (λ r. ground arith, λ w. let (e, found, _, _) = w in ground arith)
    | inr (e, found) ↦ (
      λ r. (
        e,
        found,
        ground (arith, Index.eq_iff (data_type e.value) (data_type v)),
        ground (arith, Index.eq_iff (data_type e.value) (data_type v)),
      ),
      λ w.
          let (e', found', _, _) = w in
          ground (arith, Index.eq_iff (data_type e.value) (data_type v)),
    )
  ]

  -- After a write that succeeds, the object holds the value and every other object is as before.
  pub entry-write :
      (od : ObjectDictionary M) (a j : Address) (v : Value) (e : Entry)
      → entry od a ≡ some e
      → (write od a v).1 ≡ ok tt
      → entry (write od a v).0 j
        ≡ (if Address.eq a j then some (record e { value = v }) else entry od j)
  unfolding write entry
  entry-write od a j v e h r = ground (arith, entry-store od a j e v h)

  -- A write that fails leaves the dictionary as it was.
  pub write_fails :
      (od : ObjectDictionary M) (a : Address) (v : Value)
      → (write od a v).1 ≢ ok tt
      → (write od a v).0 ≡ od
  unfolding write
  write_fails od a v h = ground arith

  -- A read gives a value exactly when the object is there and readable, and gives the one it holds.
  pub read-ok_iff :
      (od : ObjectDictionary M) (a : Address) (v : Value)
      → (read od a ≡ ok v)
        ↔ ((e : Entry) × (entry od a ≡ some e) × (is_readable e.access ≡ true) × (e.value ≡ v))
  unfolding read entry
  read-ok_iff od a v = elim (Option-cases (m.get od.entries a)) [
    | inl missing ↦ (λ r. ground arith, λ w. let (e, found, _, _) = w in ground arith)
    | inr (e, found) ↦ (
      λ r. (e, found, ground arith, ground arith),
      λ w. let (e', found', _, _) = w in ground arith,
    )
  ]

  -- A read of a readable object, after a write to it that succeeds, gives the written value.
  pub read-write :
      (od : ObjectDictionary M) (a : Address) (v : Value) (e : Entry)
      → entry od a ≡ some e
      → is_readable e.access ≡ true
      → (write od a v).1 ≡ ok tt
      → read (write od a v).0 a ≡ ok v
  read-write od a v e h readable r = (read-ok_iff (write od a v).0 a v).1 (
    record e { value = v },
    rw (entry-write od a a v e h r) (rw (Address.eq_refl a)),
    readable,
    refl,
  )

  -- `set` ignores the access rights; otherwise it is `write`.
  pub set-eq-write :
      (od : ObjectDictionary M) (a : Address) (v : Value) (e : Entry)
      → entry od a ≡ some e
      → is_writable e.access ≡ true
      → set od a v ≡ write od a v
  unfolding set write entry
  set-eq-write od a v e h w = ground arith

  -- A `set` that succeeds stores the value, also in an object that is not writable, and leaves
  -- every other object as it was.
  pub entry-set :
      (od : ObjectDictionary M) (a j : Address) (v : Value) (e : Entry)
      → entry od a ≡ some e
      → (set od a v).1 ≡ ok tt
      → entry (set od a v).0 j
        ≡ (if Address.eq a j then some (record e { value = v }) else entry od j)
  unfolding set entry
  entry-set od a j v e h r = ground (arith, entry-store od a j e v h)

  -- An insertion fails exactly when the map is full and has no such object; it then changes
  -- nothing. One that succeeds stores the entry and leaves every other object as it was.
  pub insert_lem :
      (od : ObjectDictionary M) (a j : Address) (e : Entry)
      → ((is_some (entry od a) || ltb (m.len od.entries) m.capacity) ≡ false
          × (insert od a e ≡ (od, err dictionary_full)))
        ⊎ ((is_some (entry od a) || ltb (m.len od.entries) m.capacity) ≡ true
            × ((insert od a e).1 ≡ ok tt)
            × (entry (insert od a e).0 j ≡ (if Address.eq a j then some e else entry od j)))
  unfolding insert entry
  insert_lem od a j e = elim (Option-cases (m.insert od.entries a e)) [
    | inl full ↦ inl (sym (m.insert_fits od.entries a e) ∙ rw full refl, ground arith)
    | inr (m', stored) ↦ inr (
      sym (m.insert_fits od.entries a e) ∙ rw stored refl,
      ground arith,
      ground (arith, m.get-insert od.entries m' a j e stored),
    )
  ]

  -- A write that is allowed stores the value.
  pub write_accepted :
      (od : ObjectDictionary M) (a : Address) (v : Value) (e : Entry)
      → entry od a ≡ some e
      → is_writable e.access ≡ true
      → data_type e.value ≡ data_type v
      → write od a v ≡ (store od a e v, ok tt)
  unfolding write entry
  write_accepted od a v e found w same =
      ground (arith, (Index.eq_iff (data_type e.value) (data_type v)).1 same)
