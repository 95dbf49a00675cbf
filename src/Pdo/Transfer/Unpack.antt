-- ===== src/Pdo/Transfer/Unpack.antt =====
-- core/src/pdo.rs: the loop of `unpack` over shared objects.
use canopen_rs.Base.{
  ℕ, ◌+◌, ◌≡◌, ◌∙◌, refl, sym, ap, true, some, List, [], ◌∷◌, ◌++◌, append_assoc, length, All,
  length-append, take-append, ◌==◌, arith, Bool-cases, ==_iff, inl, inr,
}
use canopen_rs.Types.{ok}
use canopen_rs.Types.Outcome.{done, ◌>>=◌, checked_slice}
use canopen_rs.Datatypes.DataType
use canopen_rs.Datatypes.Value
use canopen_rs.Datatypes.Value.{Value, data_type, wire_bytes, encode_le, decode_le}
use canopen_rs.Datatypes.Lemmas.{length-wire_bytes, decode_le-wire_bytes}
use canopen_rs.Objects.Address
use canopen_rs.Objects.Address.{Address}
use canopen_rs.Objects.ObjectDictionary.{ObjectDictionary, EntryMap, entry, read, store}
use canopen_rs.Objects.ObjectDictionary.Access.{write_accepted, entry-store}
use canopen_rs.Objects.ObjectDictionary.Invariant
use canopen_rs.Pdo.{MappingEntry}
use canopen_rs.Pdo.Frame.{unpack_entries}
use canopen_rs.Pdo.Transfer.Field.{size_pos, size_fixed, byte_width_lem, field_lem}
use canopen_rs.Pdo.Transfer.Spec.{IsShared, Carries, Copies, take_value, is_mapped, value-IsValid}

All-map {ℓ} :
    {A : Type ℓ} {P Q : A → Type 0} (f : (x : A) → P x → Q x) (xs : List A) → All P xs → All Q xs
All-map f [] h = tt
All-map f (x ∷ xs) h = (f x h.0, All-map f xs h.1)

module _ {M : Type 0} ⦃m : EntryMap M⦄ where
  module _ (od : ObjectDictionary M) (valid : Invariant.IsValid od) where
    -- One step of the loop of `unpack`.
    unpack_step :
        (od' : ObjectDictionary M) (e : MappingEntry) (es : List MappingEntry) (pre rest : List ℕ)
        (s : IsShared od od' e)
        → unpack_entries (e ∷ es) od' (pre ++ (wire_bytes s.value ++ rest)) (length pre)
          ≡ unpack_entries es
              (store od' e.address s.target s.value)
              (pre ++ wire_bytes s.value ++ rest)
              (length (pre ++ wire_bytes s.value))
    unfolding unpack_entries
    unpack_step od' e es pre rest s =
        let v = s.value in
        let h = value-IsValid od valid e.address v s.readable in
        let size = length-wire_bytes v h in
        let n : length pre + Value.size v ≡ length (pre ++ wire_bytes v) =
          omega (arith, length-append pre (wire_bytes v), size) in
        let accepted = write_accepted od' e.address v s.target s.found s.writable s.same_type in
        let width : (DataType.size (data_type s.target.value) == Value.size v) ≡ true =
          rw (s.same_type, size_fixed v s.fixed) ((==_iff (Value.size v) (Value.size v)).1 refl) in
        let field : checked_slice (length pre) (Value.size v) (pre ++ (wire_bytes v ++ rest))
            ≡ done (wire_bytes v) =
          field_lem pre (wire_bytes v ++ rest) (Value.size v)
            (omega (arith, length-append (wire_bytes v) rest, size))
          ∙ rw (← size) (rw (take-append (wire_bytes v) rest) refl) in
        rw (byte_width_lem e.bit_length (Value.size v) (size_pos v s.fixed) s.width, unpack_entries)
          (rw s.found (
            rw width (
              rw (field, ◌>>=◌)
                (rw (s.same_type, decode_le-wire_bytes v h)
                  (rw accepted (rw (accepted, n, append_assoc pre (wire_bytes v) rest) refl))))))

    -- The objects stay shared when one of them takes its value.
    store-IsShared :
        (od' : ObjectDictionary M) (e e' : MappingEntry) (s : IsShared od od' e)
        → IsShared od od' e'
        → IsShared od (store od' e.address s.target s.value) e'
    store-IsShared od' e e' s s' = elim (Bool-cases (Address.eq e.address e'.address)) [
      | inl here ↦
          let at : e.address ≡ e'.address = (Address.eq_iff e.address e'.address).0 here in
          let same : s.value ≡ s'.value = ground (arith, s.readable, s'.readable, at) in
          record {
            value = s'.value;
            target = record s.target { value = s.value };
            readable = s'.readable;
            fixed = s'.fixed;
            width = s'.width;
            found = entry-store od' e.address e'.address s.target s.value s.found ∙ rw here refl;
            writable = s.writable;
            same_type = ap data_type same;
          }
      | inr there ↦ record {
        value = s'.value;
        target = s'.target;
        readable = s'.readable;
        fixed = s'.fixed;
        width = s'.width;
        found = entry-store od' e.address e'.address s.target s.value s.found ∙ rw there s'.found;
        writable = s'.writable;
        same_type = s'.same_type;
      }
    ]

    gains_value :
        (od' od'' : ObjectDictionary M) (e : MappingEntry) (es : List MappingEntry)
        (s : IsShared od od' e)
        → Copies od (store od' e.address s.target s.value) es od''
        → Copies od od' (e ∷ es) od''
    gains_value od' od'' e es s h j = elim (Bool-cases (Address.eq e.address j)) [
      | inl here ↦
          let at : e.address ≡ j = (Address.eq_iff e.address j).0 here in
          let found : entry od' j ≡ some s.target = rw (← at) s.found in
          let readable : read od j ≡ ok s.value = rw (← at) s.readable in
          let stored : entry (store od' e.address s.target s.value) j
              ≡ some (record s.target { value = s.value }) =
            entry-store od' e.address j s.target s.value s.found ∙ rw here refl in
          let after : take_value (entry od' j) (read od j)
              ≡ some (record s.target { value = s.value }) =
            rw (found, readable) refl in
          let before : take_value (entry (store od' e.address s.target s.value) j) (read od j)
              ≡ some (record s.target { value = s.value }) =
            rw (stored, readable) refl in
          elim (Bool-cases (is_mapped es j)) [
            | inl more ↦ h j ∙ rw (more, here) (before ∙ sym after)
            | inr last ↦ h j ∙ rw (last, here) (stored ∙ sym after)
          ]
      | inr there ↦
          let stored : entry (store od' e.address s.target s.value) j ≡ entry od' j =
            entry-store od' e.address j s.target s.value s.found ∙ rw there refl in
          h j ∙ rw (there, stored) refl
    ]

    pub unpack_loop :
        (es : List MappingEntry) (od' : ObjectDictionary M) (pre bytes : List ℕ)
        → All (IsShared od od') es
        → Carries od es bytes
        → (od'' : ObjectDictionary M) × (unpack_entries es od' (pre ++ bytes) (length pre)
            ≡ done (od'', ok tt))
          × Copies od od' es od''
    unfolding unpack_entries
    unpack_loop [] od' pre bytes shared carried = (od', refl, λ j. refl)
    unpack_loop (e ∷ es) od' pre bytes (s, shared) (v, rest, r, split, carried) =
        let same : v ≡ s.value = ground (arith, s.readable) in
        let whole : bytes ≡ wire_bytes s.value ++ rest = split ∙ rw same refl in
        let (od'', unpacked, copies) =
          unpack_loop es (store od' e.address s.target s.value) (pre ++ wire_bytes s.value) rest
            (All-map (λ e'. store-IsShared od' e e' s) es shared) carried in
        (
          od'',
          rw whole (unpack_step od' e es pre rest s ∙ unpacked),
          gains_value od' od'' e es s copies,
        )
