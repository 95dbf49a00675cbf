-- ===== src/Pdo/Frame.antt =====
-- core/src/pdo.rs: packing objects into a frame, and unpacking a frame into objects.
use canopen_rs.Base.{
  ℕ, ◌+◌, not, ◌||◌, none, some, List, [], ◌∷◌, ◌++◌, length, take, drop, overwrite, ltb, ◌==◌,
  if◌then◌else◌,
}
use canopen_rs.Heapless.{BoundedVec}
use canopen_rs.Types.{Result, ok, err, bad_length, object_not_found, type_mismatch}
use canopen_rs.Types.Outcome.{Outcome, done, checked_slice, ◌>>=◌}
use canopen_rs.Datatypes.DataType
use canopen_rs.Datatypes.Value
use canopen_rs.Datatypes.Value.{Value, data_type, encode_le, decode_le}
use canopen_rs.Objects.ObjectDictionary.{ObjectDictionary, EntryMap, entry, read, write}
use canopen_rs.Pdo.{MappingEntry, PdoMapping, entries, total_bytes, byte_width}

-- A write through `&mut buf[offset..]`.
abbrev pub write_at : ℕ → List ℕ → List ℕ → List ℕ
write_at offset bytes buf = take offset buf ++ overwrite (drop offset buf) bytes

module _ {M : Type 0} ⦃m : EntryMap M⦄ where
  -- The loop of `pack`, with the buffer as it is at the end, also after an error.
  unfoldable pub pack_entries :
      ObjectDictionary M → List MappingEntry → List ℕ → ℕ → Outcome (List ℕ × Result ℕ)
  pack_entries od [] buf offset = done (buf, ok offset)
  pack_entries od (e ∷ es) buf offset = elim (byte_width e.bit_length) [
    | err x ↦ done (buf, err x)
    | ok width ↦ elim (read od e.address) [
      | err x ↦ done (buf, err x)
      | ok value ↦
          if DataType.is_variable (data_type value) || not (Value.size value == width)
          then done (buf, err type_mismatch)
          else do
            field ← checked_slice offset width buf
            elim (encode_le value field) [
              | err x ↦ done (buf, err x)
              | ok (out, n) ↦ pack_entries od es (write_at offset out buf) (offset + width)
            ]
    ]
  ]

  -- The loop of `unpack`, with the dictionary as it is at the end, also after an error.
  unfoldable pub unpack_entries :
      List MappingEntry
      → ObjectDictionary M
      → List ℕ
      → ℕ
      → Outcome (ObjectDictionary M × Result (Unit {0}))
  unpack_entries [] od bytes offset = done (od, ok tt)
  unpack_entries (e ∷ es) od bytes offset = elim (byte_width e.bit_length) [
    | err x ↦ done (od, err x)
    | ok width ↦ elim (entry od e.address) [
      | none ↦ done (od, err object_not_found)
      | some target ↦
          if not (DataType.size (data_type target.value) == width)
          then done (od, err type_mismatch)
          else do
            field ← checked_slice offset width bytes
            elim (decode_le (data_type target.value) field) [
              | err x ↦ done (od, err x)
              | ok value ↦
                  let (od', r) = write od e.address value in
                  elim r [
                    | err x ↦ done (od', err x)
                    | ok _ ↦ unpack_entries es od' bytes (offset + width)
                  ]
            ]
    ]
  ]

  module _ {N : ℕ} {V : Type 0} ⦃b : BoundedVec MappingEntry N V⦄ where
    unfoldable pub pack : PdoMapping N V → ObjectDictionary M → List ℕ → Outcome (List ℕ × Result ℕ)
    unfolding pack_entries
    pack mapping od buf =
        if ltb (length buf) (total_bytes mapping)
        then done (buf, err bad_length)
        else pack_entries od (entries mapping) buf 0

    unfoldable pub unpack :
        PdoMapping N V
        → ObjectDictionary M
        → List ℕ
        → Outcome (ObjectDictionary M × Result (Unit {0}))
    unfolding unpack_entries
    unpack mapping od bytes =
        if ltb (length bytes) (total_bytes mapping)
        then done (od, err bad_length)
        else unpack_entries (entries mapping) od bytes 0
