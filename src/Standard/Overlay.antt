-- ===== src/Standard/Overlay.antt =====
-- core/src/standard.rs: a list of objects put over what is at an address.
use canopen_rs.Base.{
  ℕ, zero, suc, ◌+◌, ◌≡◌, ◌≢◌, ◌⊎◌, ◌∙◌, refl, true, false, ◌&&◌, Option, some, List, [], ◌∷◌, ◌++◌,
  ltb, leb, if◌then◌else◌, arith, Bool-cases, Option-cases, inl, inr, ◌==◌,
}
use mathlib.Core.Option
use canopen_rs.Datatypes.Value.{Value}
use canopen_rs.Objects.Address
use canopen_rs.Objects.Address.{Address}
use canopen_rs.Objects.Entry.{Entry, rw_entry, ro_entry, constant}
use canopen_rs.Standard.{StandardObjects, base_objects, name_object, history_from, history_objects}
use canopen_rs.Standard.Contents.{
  identity_object, history_object, single_object, standard_object, or_else,
}

-- What an address leads to when objects are put over what was there: the last one at the address.
abbrev pub overlay : List (Address × Entry) → Address → Option Entry → Option Entry
overlay [] j old = old
overlay ((a, e) ∷ objects) j old = overlay objects j (if Address.eq a j then some e else old)

overlay-append :
    (xs ys : List (Address × Entry)) (j : Address) (old : Option Entry)
    → overlay (xs ++ ys) j old ≡ overlay ys j (overlay xs j old)
overlay-append [] ys j old = refl
overlay-append ((a, e) ∷ xs) ys j old =
    overlay-append xs ys j (if Address.eq a j then some e else old)

overlay-identity :
    (s : StandardObjects) (k : ℕ) (old : Option Entry)
    → overlay (base_objects s) (Address.new 0x1018 k) old
      ≡ or_else (identity_object s.identity k) old
unfolding base_objects
overlay-identity s zero old = refl
overlay-identity s (suc zero) old = refl
overlay-identity s (suc (suc zero)) old = refl
overlay-identity s (suc (suc (suc zero))) old = refl
overlay-identity s (suc (suc (suc (suc zero)))) old = refl
overlay-identity s (suc (suc (suc (suc (suc k))))) old = ground arith

overlay-single :
    (s : StandardObjects) (index k : ℕ) (old : Option Entry)
    → index ≢ 0x1018
    → index ≢ 0x1008
    → overlay (base_objects s) (Address.new index k) old ≡ or_else (single_object s index k) old
unfolding base_objects
overlay-single s index zero old h l = ground arith
overlay-single s index (suc k) old h l = ground arith

overlay-base :
    (s : StandardObjects) (index k : ℕ) (old : Option Entry)
    → index ≢ 0x1003
    → index ≢ 0x1008
    → overlay (base_objects s) (Address.new index k) old ≡ or_else (standard_object s index k) old
unfolding base_objects
overlay-base s index k old h l = elim (Bool-cases (index == 0x1018)) [
  | inl identity ↦ let same : index ≡ 0x1018 = ground arith in rw same (overlay-identity s k old)
  | inr other ↦
      let not_history : (index == 0x1003) ≡ false = ground arith in
      rw (other, not_history) (overlay-single s index k old (ground arith) l)
]

-- At the other two indices there is none of the first eight.
overlay-base_other :
    (s : StandardObjects) (index k : ℕ) (old : Option Entry)
    → (index ≡ 0x1003) ⊎ (index ≡ 0x1008)
    → overlay (base_objects s) (Address.new index k) old ≡ old
unfolding base_objects
overlay-base_other s index k old (inl e) = rw e refl
overlay-base_other s index k old (inr e) = rw e refl

overlay-history_from :
    (sub left index k : ℕ) (old : Option Entry)
    → overlay (history_from sub left) (Address.new index k) old ≡ (
        if index == 0x1003 && (leb sub k && ltb k (sub + left))
        then some (ro_entry (Value.unsigned32 0))
        else old)
unfolding history_from
overlay-history_from sub zero index k old = ground arith
overlay-history_from sub (suc left) index k old =
    overlay-history_from (sub + 1) left index k (
      if Address.eq (Address.new 0x1003 sub) (Address.new index k)
      then some (ro_entry (Value.unsigned32 0))
      else old)
    ∙ ground arith

overlay-name :
    (s : StandardObjects) (index k : ℕ) (old : Option Entry)
    → overlay (name_object s) (Address.new index k) old ≡ (
        if index == 0x1008 && k == 0
        then or_else (Option.map (λ name. constant (Value.visible_string name)) s.device_name) old
        else old)
unfolding name_object
overlay-name s index k old = elim (Option-cases s.device_name) [
  | inl none_ ↦ ground arith
  | inr (name, some_) ↦ ground arith
]

history_split :
    (entries index k : ℕ) (old : Option Entry)
    → ltb 0 entries ≡ true
    → (if index == 0x1003 && (leb 1 k && ltb k (1 + entries))
        then some (ro_entry (Value.unsigned32 0))
        else if Address.eq (Address.new 0x1003 0) (Address.new index k)
        then some (rw_entry (Value.unsigned8 0))
        else old)
      ≡ (if index == 0x1003 then or_else (history_object entries k) old else old)
history_split entries index zero old some_ = ground arith
history_split entries index (suc k) old some_ = ground arith

no_history :
    (entries index k : ℕ) (old : Option Entry)
    → ltb 0 entries ≡ false
    → old ≡ (if index == 0x1003 then or_else (history_object entries k) old else old)
no_history entries index zero old none_ = ground arith
no_history entries index (suc k) old none_ = ground arith

named :
    (s : StandardObjects) (k : ℕ) (old : Option Entry)
    → (if k == 0
        then or_else (Option.map (λ name. constant (Value.visible_string name)) s.device_name) old
        else old)
      ≡ or_else (single_object s 0x1008 k) old
named s zero old = refl
named s (suc k) old = ground arith

overlay-history :
    (s : StandardObjects) (index k : ℕ) (old : Option Entry)
    → overlay (history_objects s) (Address.new index k) old
      ≡ (if index == 0x1003 then or_else (history_object s.error_history_len k) old else old)
unfolding history_objects
overlay-history s index k old =
    let first =
      if Address.eq (Address.new 0x1003 0) (Address.new index k)
      then some (rw_entry (Value.unsigned8 0))
      else old in
    elim (Bool-cases (ltb 0 s.error_history_len)) [
      | inl some_ ↦ rw some_ (
          overlay-history_from 1 s.error_history_len index k first
          ∙ history_split s.error_history_len index k old some_)
      | inr none_ ↦ rw none_ (no_history s.error_history_len index k old none_)
    ]

pub overlay-objects :
    (s : StandardObjects) (index k : ℕ) (old : Option Entry)
    → overlay (base_objects s ++ (name_object s ++ history_objects s)) (Address.new index k) old
      ≡ or_else (standard_object s index k) old
overlay-objects s index k old =
    let j = Address.new index k in
    let base = overlay (base_objects s) j old in
    overlay-append (base_objects s) (name_object s ++ history_objects s) j old
    ∙ overlay-append (name_object s) (history_objects s) j base
    ∙ overlay-history s index k (overlay (name_object s) j base)
    ∙ rw (overlay-name s index k base) (elim (Bool-cases (index == 0x1003)) [
      | inl history ↦
          let e : index ≡ 0x1003 = ground arith in
          rw (overlay-base_other s index k old (inl e)) (rw e refl)
      | inr not_history ↦ elim (Bool-cases (index == 0x1008)) [
        | inl name ↦
            let e : index ≡ 0x1008 = ground arith in
            rw (overlay-base_other s index k old (inr e)) (rw e (named s k old))
        | inr not_name ↦
            rw (not_history, not_name)
              (overlay-base s index k old (ground arith) (ground arith) ∙ rw not_history refl)
      ]
    ])
