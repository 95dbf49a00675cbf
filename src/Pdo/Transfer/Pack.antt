-- ===== src/Pdo/Transfer/Pack.antt =====
-- core/src/pdo.rs: the loop of `pack` over shared objects.
use canopen_rs.Base.{
  ℕ, ◌+◌, ◌*◌, ◌≤◌, ◌≡◌, ◌∙◌, refl, true, false, List, [], ◌∷◌, ◌++◌, append-nil, length, drop, All,
  length-append, length-drop, ◌==◌, arith, ==_iff,
}
use native.Mathlib.Nat.{add-zero}
use canopen_rs.Types.{ok}
use canopen_rs.Types.Outcome.{done, ◌>>=◌}
use canopen_rs.Datatypes.DataType
use canopen_rs.Datatypes.Value
use canopen_rs.Datatypes.Value.{Value, data_type, wire_bytes, encode_le, decode_le}
use canopen_rs.Datatypes.Lemmas.{length-wire_bytes}
use canopen_rs.Objects.ObjectDictionary.{ObjectDictionary, EntryMap, read}
use canopen_rs.Objects.ObjectDictionary.Invariant
use canopen_rs.Pdo.{MappingEntry, sum_bits}
use canopen_rs.Pdo.Frame.{pack_entries}
use canopen_rs.Pdo.Transfer.Field.{
  size_pos, byte_width_lem, write_at_lem, field_lem, encode_field, joined,
}
use canopen_rs.Pdo.Transfer.Spec.{IsShared, Carries, value-IsValid}

module _ {M : Type 0} ⦃m : EntryMap M⦄ where
  -- The frame that `pack` makes.
  abbrev pub Packed : ObjectDictionary M → List MappingEntry → List ℕ → List ℕ → Type 0
  Packed od es pre old =
      (bytes : List ℕ) × (pack_entries od es (pre ++ old) (length pre)
        ≡ done (pre ++ bytes ++ drop (length bytes) old, ok (length pre + length bytes)))
      × (8 * length bytes ≡ sum_bits es)
      × Carries od es bytes

  module _ (od : ObjectDictionary M) (valid : Invariant.IsValid od) where
    -- One step of the loop of `pack`.
    pack_step :
        (e : MappingEntry) (es : List MappingEntry) (v : Value) (pre old : List ℕ)
        → read od e.address ≡ ok v
        → DataType.is_variable (data_type v) ≡ false
        → 8 * Value.size v ≡ e.bit_length
        → Value.size v ≤ length old
        → pack_entries od (e ∷ es) (pre ++ old) (length pre)
          ≡ pack_entries od es
              (pre ++ wire_bytes v ++ drop (length (wire_bytes v)) old)
              (length (pre ++ wire_bytes v))
    unfolding pack_entries
    pack_step e es v pre old r fixed width room =
        let h = value-IsValid od valid e.address v r in
        let n : length pre + Value.size v ≡ length (pre ++ wire_bytes v) =
          omega (arith, length-append pre (wire_bytes v), length-wire_bytes v h) in
        let same : (Value.size v == Value.size v) ≡ true =
          (==_iff (Value.size v) (Value.size v)).1 refl in
        rw (byte_width_lem e.bit_length (Value.size v) (size_pos v fixed) width, pack_entries)
          (rw r (
            rw (fixed, same)
              (rw (field_lem pre old (Value.size v) room, ◌>>=◌)
                (rw (encode_field v old h room)
                  (rw (write_at_lem pre old (wire_bytes v), n) refl)))))

    pub pack_loop :
        (od' : ObjectDictionary M) (es : List MappingEntry) (pre old : List ℕ)
        → All (IsShared od od') es
        → sum_bits es ≤ 8 * length old
        → Packed od es pre old
    unfolding pack_entries
    pack_loop od' [] pre old shared room =
        ([], rw (append-nil pre, add-zero (length pre)) refl, omega arith, refl)
    pack_loop od' (e ∷ es) pre old (s, shared) room =
        let v = s.value in
        let size = length-wire_bytes v (value-IsValid od valid e.address v s.readable) in
        let pre' = pre ++ wire_bytes v in
        let (rest, packed, total, carried) =
          pack_loop od' es pre' (drop (length (wire_bytes v)) old) shared
            (omega (arith, s.width, size, length-drop (length (wire_bytes v)) old, room)) in
        (
          wire_bytes v ++ rest,
          pack_step e es v pre old s.readable s.fixed s.width (omega (arith, s.width, room))
              ∙ packed
              ∙ joined pre (wire_bytes v) rest old,
          omega (arith, total, size, s.width, length-append (wire_bytes v) rest),
          (v, rest, s.readable, refl, carried),
        )
