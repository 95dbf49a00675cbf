-- ===== src/Standard/Populated.antt =====
-- core/src/standard.rs: the dictionary after the standard objects are inserted.
use canopen_rs.Base.{
  ℕ, zero, suc, ◌+◌, ◌≤◌, ◌<◌, ◌≡◌, ◌∙◌, refl, ap, some, List, [], ◌∷◌, ◌++◌, length, length-append,
  ltb, if◌then◌else◌, arith, Bool-cases, Option-cases, inl, inr,
}
use canopen_rs.Heapless.{is_some}
use canopen_rs.Types.{ok}
use canopen_rs.Objects.Address
use canopen_rs.Objects.Address.{Address}
use canopen_rs.Objects.Entry.{Entry}
use canopen_rs.Objects.ObjectDictionary.{ObjectDictionary, EntryMap, insert, entry}
use canopen_rs.Objects.ObjectDictionary.Access.{insert_lem}
use canopen_rs.Standard.{
  StandardObjects, base_objects, name_object, history_from, history_objects, insert_all,
  insert_into,
}
use canopen_rs.Standard.Contents.{standard_object, standard_count, or_else}
use canopen_rs.Standard.Overlay.{overlay, overlay-objects}

length-history_from : (sub left : ℕ) → length (history_from sub left) ≡ left
unfolding history_from
length-history_from sub zero = refl
length-history_from sub (suc left) = ap suc (length-history_from (sub + 1) left)

length-name_object :
    (s : StandardObjects) → length (name_object s) ≡ (if is_some s.device_name then 1 else 0)
unfolding name_object
length-name_object s = elim (Option-cases s.device_name) [
  | inl none_ ↦ rw none_ refl
  | inr (name, some_) ↦ rw some_ refl
]

length-history_objects :
    (s : StandardObjects)
    → length (history_objects s)
      ≡ (if ltb 0 s.error_history_len then s.error_history_len + 1 else 0)
unfolding history_objects
length-history_objects s = elim (Bool-cases (ltb 0 s.error_history_len)) [
  | inl some_ ↦ rw some_ (omega (arith, length-history_from 1 s.error_history_len))
  | inr none_ ↦ rw none_ refl
]

length-objects :
    (s : StandardObjects)
    → length (base_objects s ++ (name_object s ++ history_objects s)) ≡ standard_count s
unfolding base_objects
length-objects s = omega (
  arith,
  length-append (name_object s) (history_objects s),
  length-name_object s,
  length-history_objects s,
)

module _ {M : Type 0} ⦃m : EntryMap M⦄ where
  len-inserted :
      (od : ObjectDictionary M) (a : Address) (e : Entry)
      → m.len (insert od a e).0.entries ≤ m.len od.entries + 1
  unfolding insert
  len-inserted od a e = elim (Option-cases (m.insert od.entries a e)) [
    | inl full ↦ ground arith
    | inr (m', stored) ↦ ground (arith, m.len-insert od.entries m' a e stored)
  ]

  inserted-ok :
      (od : ObjectDictionary M) (a : Address) (e : Entry)
      → m.len od.entries < m.capacity
      → (insert od a e).1 ≡ ok tt
  inserted-ok od a e room = elim (insert_lem od a a e) [
    | inl (full, _) ↦ absurd (ground arith)
    | inr (_, stored, _) ↦ stored
  ]

  entry-inserted :
      (od : ObjectDictionary M) (a j : Address) (e : Entry)
      → m.len od.entries < m.capacity
      → entry (insert od a e).0 j ≡ (if Address.eq a j then some e else entry od j)
  entry-inserted od a j e room = elim (insert_lem od a j e) [
    | inl (full, _) ↦ absurd (ground arith)
    | inr (_, _, there) ↦ there
  ]

  insert_all_lem :
      (objects : List (Address × Entry)) (od : ObjectDictionary M)
      → m.len od.entries + length objects ≤ m.capacity
      → ((insert_all od objects).1 ≡ ok tt)
        × ((j : Address) → entry (insert_all od objects).0 j ≡ overlay objects j (entry od j))
  unfolding insert_all
  insert_all_lem [] od room = (refl, λ j. refl)
  insert_all_lem ((a, e) ∷ objects) od room =
      let stored = inserted-ok od a e (omega arith) in
      let (ends, holds) =
        insert_all_lem objects (insert od a e).0 (omega (arith, len-inserted od a e)) in
      (
        rw (stored, insert_all) ends,
        λ j. rw (stored, insert_all) (holds j ∙ rw (entry-inserted od a j e (omega arith)) refl),
      )

  -- At every address there is the standard object, or else what was there before.
  abbrev pub Populated : StandardObjects → ObjectDictionary M → ObjectDictionary M → Type 0
  Populated s od od' =
      (j : Address) → entry od' j ≡ or_else (standard_object s j.index j.subindex) (entry od j)

  -- The insertion of the standard objects into a dictionary with room for all of them, which are
  -- eight, the device name if there is one, and the error entries with their count if there are
  -- any, succeeds. Afterwards each of the standard objects is there, with its value and access
  -- rights (0x1000, 0x1001, 0x1003, 0x1008, 0x1017 and 0x1018), and every other address leads to
  -- what it led to before.
  pub insert_into-Populated :
      (s : StandardObjects) (od : ObjectDictionary M)
      → m.len od.entries + standard_count s ≤ m.capacity
      → ((insert_into s od).1 ≡ ok tt) × Populated s od (insert_into s od).0
  unfolding insert_into
  insert_into-Populated s od room =
      let (ends, holds) =
        insert_all_lem (base_objects s ++ (name_object s ++ history_objects s)) od
          (omega (arith, room, length-objects s)) in
      (ends, λ j. holds j ∙ overlay-objects s j.index j.subindex (entry od j))
