-- ===== src/Node/Mirror.antt =====
-- core/src/node.rs: the error objects of the dictionary, 0x1001 and 0x1003.
use canopen_rs.Base.{
  ℕ, zero, suc, ◌+◌, ◌-◌, ◌%◌, ◌^◌, ◌≤◌, ◌<◌, ◌≡◌, ◌∙◌, refl, sym, ap, true, false, ◌&&◌, Option,
  none, some, List, [], ◌∷◌, length, ltb, if◌then◌else◌, ◌==◌, arith, Bool-cases, Option-cases, inl,
  inr,
}
use mathlib.Core.Option
use canopen_rs.Heapless.{BoundedVec}
use canopen_rs.Datatypes.DataType
use canopen_rs.Datatypes.Value.{Value, data_type}
use canopen_rs.Objects.Address
use canopen_rs.Objects.Address.{Address}
use canopen_rs.Objects.Entry.{Entry}
use canopen_rs.Objects.ObjectDictionary.{ObjectDictionary, EntryMap, entry, set}
use canopen_rs.Objects.ObjectDictionary.Access.{entry-store}
use canopen_rs.Node.{Node, max_error_history}
use canopen_rs.Node.Errors.{mirror_history, mirror_error_objects}

abbrev pub get_elem? {ℓ} : {A : Type ℓ} → List A → ℕ → Option A
get_elem? [] i = none
get_elem? (x ∷ xs) zero = some x
get_elem? (x ∷ xs) (suc i) = get_elem? xs i

-- An object that is to hold a value: it does if it is there and has the value's type.
abbrev pub updated : Option Entry → Option Value → Option Entry
updated none v = none
updated (some e) none = some e
updated (some e) (some v) =
    if DataType.eq (data_type e.value) (data_type v) then some (record e { value = v }) else some e

-- The codes of the error history from the sub-index after `i` on.
abbrev history_value : ℕ → List ℕ → Address → Option Value
history_value i codes j =
    if j.index == 0x1003 && ltb i j.subindex
    then Option.map Value.unsigned32 (get_elem? codes (j.subindex - suc i))
    else none

-- The value that the errors give an object, by its address: 0x1001 holds the register, and 0x1003
-- the number of codes and, from sub-index 1 on, the codes.
abbrev pub mirrored : ℕ → List ℕ → Address → Option Value
mirrored register codes j =
    if Address.eq (Address.new 0x1001 0) j
    then some (Value.unsigned8 register)
    else if Address.eq (Address.new 0x1003 0) j
    then some (Value.unsigned8 (length codes))
    else history_value 0 codes j

updated-none : (o : Option Entry) → updated o none ≡ o
updated-none none = refl
updated-none (some e) = refl

-- The first code, put at its sub-index before the others.
history_step :
    (o : Option Entry) (i c : ℕ) (cs : List ℕ) (j : Address)
    → i + 1 < 256
    → updated
        (if Address.eq (Address.new 0x1003 ((i + 1) % 2 ^ 8)) j
          then updated o (some (Value.unsigned32 c))
          else o)
        (history_value (suc i) cs j)
      ≡ updated o (history_value i (c ∷ cs) j)
history_step o i c cs j bound =
    let kept : (i + 1) % 2 ^ 8 ≡ i + 1 = omega arith in
    elim (Bool-cases (Address.eq (Address.new 0x1003 (i + 1)) j)) [
      | inl here ↦
          let index : (j.index == 0x1003) ≡ true = ground arith in
          let later : ltb (suc i) j.subindex ≡ false = ground arith in
          let at : ltb i j.subindex ≡ true = ground arith in
          let zeroth : j.subindex - suc i ≡ 0 = ground arith in
          rw (kept, here, index, later, at, zeroth)
            (updated-none (updated o (some (Value.unsigned32 c))))
      | inr there ↦
          rw (kept, there)
            (ap (updated o) (elim (Bool-cases (j.index == 0x1003)) [
              | inr other ↦ rw other refl
              | inl index ↦ elim (Bool-cases (ltb (suc i) j.subindex)) [
                | inl later ↦
                    let at : ltb i j.subindex ≡ true = ground arith in
                    let next : j.subindex - suc i ≡ suc (j.subindex - suc (suc i)) = ground arith in
                    rw (index, later, at, next) refl
                | inr before ↦
                    let at : ltb i j.subindex ≡ false = ground arith in rw (index, before, at) refl
              ]
            ]))
    ]

-- The register and the number of codes, put before the codes.
objects_step :
    (o : Option Entry) (register count : ℕ) (codes : List ℕ) (j : Address)
    → count ≡ length codes
    → (let first =
          if Address.eq (Address.new 0x1001 0) j
          then updated o (some (Value.unsigned8 register))
          else o in
        updated
          (if Address.eq (Address.new 0x1003 0) j
            then updated first (some (Value.unsigned8 count))
            else first)
          (history_value 0 codes j))
      ≡ updated o (mirrored register codes j)
objects_step o register count codes j same =
    elim (Bool-cases (Address.eq (Address.new 0x1001 0) j)) [
      | inl here ↦
          let other : Address.eq (Address.new 0x1003 0) j ≡ false = ground arith in
          let index : (j.index == 0x1003) ≡ false = ground arith in
          rw (here, other, index) (updated-none (updated o (some (Value.unsigned8 register))))
      | inr not_register ↦ elim (Bool-cases (Address.eq (Address.new 0x1003 0) j)) [
        | inl here ↦
            let before : ltb 0 j.subindex ≡ false = ground arith in
            let index : (j.index == 0x1003) ≡ true = ground arith in
            rw (not_register, here, index, before, same)
              (updated-none (updated o (some (Value.unsigned8 (length codes)))))
        | inr not_count ↦ rw (not_register, not_count) refl
      ]
    ]

module _ {M : Type 0} ⦃m : EntryMap M⦄ where
  entry-set_updated :
      (od : ObjectDictionary M) (a j : Address) (v : Value)
      → entry (set od a v).0 j
        ≡ (if Address.eq a j then updated (entry od j) (some v) else entry od j)
  unfolding set entry
  entry-set_updated od a j v = elim (Bool-cases (Address.eq a j)) [
    | inl here ↦
        let same : a ≡ j = (Address.eq_iff a j).0 here in
        elim (Option-cases (entry od a)) [
          | inl missing ↦ ground (arith, same)
          | inr (e, found) ↦ elim (Bool-cases (DataType.eq (data_type e.value) (data_type v))) [
            | inl kept ↦ ground (arith, same, entry-store od a j e v found)
            | inr other ↦ ground (arith, same)
          ]
        ]
    | inr there ↦ elim (Option-cases (entry od a)) [
      | inl missing ↦ ground arith
      | inr (e, found) ↦ ground (arith, entry-store od a j e v found)
    ]
  ]

  entry-mirror_history :
      (codes : List ℕ) (od : ObjectDictionary M) (i : ℕ) (j : Address)
      → i + length codes < 256
      → entry (mirror_history od i codes) j ≡ updated (entry od j) (history_value i codes j)
  unfolding mirror_history
  entry-mirror_history [] od i j bound = elim (Bool-cases (j.index == 0x1003 && ltb i j.subindex)) [
    | inl there ↦ rw there (sym (updated-none (entry od j)))
    | inr other ↦ rw other (sym (updated-none (entry od j)))
  ]
  entry-mirror_history (c ∷ cs) od i j bound =
      let od1 = (set od (Address.new 0x1003 ((i + 1) % 2 ^ 8)) (Value.unsigned32 c)).0 in
      let rest = entry-mirror_history cs od1 (suc i) j (omega arith) in
      let first =
        entry-set_updated od (Address.new 0x1003 ((i + 1) % 2 ^ 8)) j (Value.unsigned32 c) in
      rest
      ∙ ap (λ (o : Option Entry). updated o (history_value (suc i) cs j)) first
      ∙ history_step (entry od j) i c cs j (omega arith)

module _ {M Buf Map R T H : Type 0} ⦃m : EntryMap M⦄ ⦃h : BoundedVec ℕ max_error_history H⦄ where
  pub entry-mirror_error_objects :
      (n : Node M Buf Map R T H) (j : Address)
      → length (h.as_slice n.error_history) ≤ 8
      → entry (mirror_error_objects n).od j
        ≡ updated (entry n.od j) (mirrored n.error_register (h.as_slice n.error_history) j)
  unfolding mirror_error_objects
  entry-mirror_error_objects n j bound =
      let codes = h.as_slice n.error_history in
      let size : length codes % 2 ^ 8 ≡ length codes = omega (arith, bound) in
      let od1 = (set n.od (Address.new 0x1001 0) (Value.unsigned8 n.error_register)).0 in
      let od2 = (set od1 (Address.new 0x1003 0) (Value.unsigned8 (length codes % 2 ^ 8))).0 in
      let first =
        entry-set_updated n.od (Address.new 0x1001 0) j (Value.unsigned8 n.error_register) in
      let count =
        entry-set_updated od1 (Address.new 0x1003 0) j (Value.unsigned8 (length codes % 2 ^ 8)) in
      entry-mirror_history codes od2 0 j (omega (arith, bound))
      ∙ ap (λ (o : Option Entry). updated o (history_value 0 codes j)) (count ∙ rw first refl)
      ∙ objects_step (entry n.od j) n.error_register (length codes % 2 ^ 8) codes j size
