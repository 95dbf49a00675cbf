-- ===== src/Node/Pdos.antt =====
-- core/src/pdo.rs: a mapping that fits the frame is packed and unpacked without a panic.
use canopen_rs.Base.{
  ℕ, zero, suc, ◌||◌, ◌+◌, ◌*◌, ◌≤◌, ◌≡◌, refl, not, List, [], ◌∷◌, length, take, drop, slice, All,
  All-take, overwrite, length-append, length-take, length-drop, arith, Bool-cases, Option-cases,
  inl, inr, ltb, ◌==◌,
}
use canopen_rs.Base.Bytes.{IsByte}
use canopen_rs.Heapless.{BoundedVec}
use canopen_rs.Types.{Error, Result, ok, err, Result-cases}
use canopen_rs.Types.Outcome.{Outcome, done, checked_slice_fits, ◌>>=◌}
use canopen_rs.Datatypes.DataType
use canopen_rs.Datatypes.Value
use canopen_rs.Datatypes.Value.{Value, data_type, encode_le, decode_le}
use canopen_rs.Datatypes.Decode.{decode_le-IsValid}
use canopen_rs.Objects.ObjectDictionary.{ObjectDictionary, EntryMap, entry, read, write}
use canopen_rs.Objects.ObjectDictionary.Invariant
use canopen_rs.Objects.ObjectDictionary.Invariant.{
  Follows, Follows-refl, Follows-write, Follows-trans,
}
use canopen_rs.Pdo.{
  MappingEntry, PdoMapping, sum_bits, entries, total_bytes, total_bits, byte_width,
}
use canopen_rs.Pdo.Frame.{pack_entries, unpack_entries, pack, unpack, write_at}

byte_width_ok : (b w : ℕ) → byte_width b ≡ ok w → 8 * w ≡ b
unfolding byte_width
byte_width_ok b w e = ground arith

All-drop {ℓ} : {A : Type ℓ} (P : A → Type 0) (n : ℕ) (xs : List A) → All P xs → All P (drop n xs)
All-drop P zero xs h = h
All-drop P (suc n) [] h = tt
All-drop P (suc n) (x ∷ xs) h = All-drop P n xs h.1

-- A write into the buffer does not shorten it.
length-write_at : (offset : ℕ) (out buf : List ℕ) → length buf ≤ length (write_at offset out buf)
length-write_at offset out buf = omega (
  arith,
  length-append (take offset buf) (overwrite (drop offset buf) out),
  length-append out (drop (length out) (drop offset buf)),
  length-take offset buf,
  length-drop (length out) (drop offset buf),
  length-drop offset buf,
)

module _ {M : Type 0} ⦃m : EntryMap M⦄ where
  -- The loop ended, and the dictionary has changed only as it may.
  abbrev pub Ends : ObjectDictionary M → Outcome (ObjectDictionary M × Result (Unit {0})) → Type 0
  Ends od outcome =
      (od' : ObjectDictionary M) × (result : Result (Unit {0})) × (outcome ≡ done (od', result))
      × Follows od od'

  stopped-Ends :
      (od : ObjectDictionary M) (x : Error) → Invariant.IsValid od → Ends od (done (od, err x))
  stopped-Ends od x valid = (od, err x, refl, Follows-refl od valid)

  after-Ends :
      (od od1 : ObjectDictionary M) (o : Outcome (ObjectDictionary M × Result (Unit {0})))
      → Follows od od1
      → Ends od1 o
      → Ends od o
  after-Ends od od1 o first (od', result, ends, follows) =
      (od', result, ends, Follows-trans first follows)

  unpack_entries-Ends :
      (es : List MappingEntry) (od : ObjectDictionary M) (bytes : List ℕ) (offset : ℕ)
      → Invariant.IsValid od
      → All IsByte bytes
      → 8 * offset + sum_bits es ≤ 8 * length bytes
      → Ends od (unpack_entries es od bytes offset)
  unfolding unpack_entries
  unpack_entries-Ends [] od bytes offset valid h fits = (od, ok tt, refl, Follows-refl od valid)
  unpack_entries-Ends (e ∷ es) od bytes offset valid h fits =
      elim (Result-cases (byte_width e.bit_length)) [
        | inr (x, odd) ↦ rw (odd, unpack_entries) (stopped-Ends od x valid)
        | inl (width, even) ↦ elim (Option-cases (entry od e.address)) [
          | inl missing ↦
              rw (even, unpack_entries) (rw missing (stopped-Ends od Error.object_not_found valid))
          | inr (target, found) ↦
              elim (Bool-cases (DataType.size (data_type target.value) == width)) [
                | inr other ↦
                    rw (even, unpack_entries)
                      (rw found (rw other (stopped-Ends od Error.type_mismatch valid)))
                | inl same ↦
                    let field = slice offset width bytes in
                    let eight = byte_width_ok e.bit_length width even in
                    let cut = checked_slice_fits offset width bytes (omega (arith, eight, fits)) in
                    let bytes-h =
                      All-take IsByte width (drop offset bytes) (All-drop IsByte offset bytes h) in
                    rw (even, unpack_entries)
                      (rw found (
                        rw same (
                          rw (cut, ◌>>=◌)
                            (elim (Result-cases (decode_le (data_type target.value) field)) [
                              | inr (x, bad) ↦ rw bad (stopped-Ends od x valid)
                              | inl (v, good) ↦
                                  let v-valid =
                                    (decode_le-IsValid (data_type target.value) field v bytes-h
                                      good).0 in
                                  let wrote = Follows-write od e.address v valid v-valid in
                                  elim (Result-cases (write od e.address v).1) [
                                    | inr (x, refused) ↦
                                        rw (good, refused)
                                          ((write od e.address v).0, err x, refl, wrote)
                                    | inl (u, took) ↦
                                        rw (good, took)
                                          (after-Ends od (write od e.address v).0
                                            (unpack_entries es (write od e.address v).0 bytes
                                              (offset + width))
                                            wrote
                                            (unpack_entries-Ends es (write od e.address v).0 bytes
                                              (offset + width) wrote.valid h
                                              (omega (arith, eight, fits))))
                                  ]
                            ]))))
              ]
        ]
      ]

  pack_entries-ends :
      (od : ObjectDictionary M) (es : List MappingEntry) (buf : List ℕ) (offset : ℕ)
      → 8 * offset + sum_bits es ≤ 8 * length buf
      → (buf' : List ℕ) × (result : Result ℕ) × (pack_entries od es buf offset
          ≡ done (buf', result))
  unfolding pack_entries
  pack_entries-ends od [] buf offset fits = (buf, ok offset, refl)
  pack_entries-ends od (e ∷ es) buf offset fits = elim (Result-cases (byte_width e.bit_length)) [
    | inr (x, odd) ↦ (buf, err x, rw (odd, pack_entries) refl)
    | inl (width, even) ↦ elim (Result-cases (read od e.address)) [
      | inr (x, missing) ↦ (buf, err x, rw (even, pack_entries) (rw missing refl))
      | inl (v, found) ↦
          elim (Bool-cases (DataType.is_variable (data_type v) || not (Value.size v == width))) [
            | inl other ↦
                (buf, err Error.type_mismatch, rw (even, pack_entries) (rw found (rw other refl)))
            | inr same ↦
                let field = slice offset width buf in
                let eight = byte_width_ok e.bit_length width even in
                let cut = checked_slice_fits offset width buf (omega (arith, eight, fits)) in
                elim (Result-cases (encode_le v field)) [
                  | inr (x, bad) ↦ (
                    buf,
                    err x,
                    rw (even, pack_entries) (rw found (rw same (rw (cut, ◌>>=◌) (rw bad refl)))),
                  )
                  | inl ((out, n), good) ↦
                      let (buf', result, ends) =
                        pack_entries-ends od es (write_at offset out buf) (offset + width)
                          (omega (arith, eight, fits, length-write_at offset out buf)) in
                      (
                        buf',
                        result,
                        rw (even, pack_entries)
                            (rw found (rw same (rw (cut, ◌>>=◌) (rw good ends)))),
                      )
                ]
          ]
    ]
  ]

  module _ {Map : Type 0} ⦃map : BoundedVec MappingEntry 8 Map⦄ where
    pub unpack-Ends :
        (mapping : PdoMapping 8 Map) (od : ObjectDictionary M) (bytes : List ℕ)
        → Invariant.IsValid od
        → All IsByte bytes
        → Ends od (unpack mapping od bytes)
    unfolding unpack total_bytes total_bits
    unpack-Ends mapping od bytes valid h =
        elim (Bool-cases (ltb (length bytes) (total_bytes mapping))) [
          | inl short ↦ (od, err Error.bad_length, rw short refl, Follows-refl od valid)
          | inr enough ↦
              let (od', result, ends, follows) =
                unpack_entries-Ends (entries mapping) od bytes 0 valid h (ground arith) in
              (od', result, rw enough ends, follows)
        ]

    pub pack-ends :
        (mapping : PdoMapping 8 Map) (od : ObjectDictionary M) (buf : List ℕ)
        → (buf' : List ℕ) × (result : Result ℕ) × (pack mapping od buf ≡ done (buf', result))
    unfolding pack total_bytes total_bits
    pack-ends mapping od buf = elim (Bool-cases (ltb (length buf) (total_bytes mapping))) [
      | inl short ↦ (buf, err Error.bad_length, rw short refl)
      | inr enough ↦
          let (buf', result, ends) = pack_entries-ends od (entries mapping) buf 0 (ground arith) in
          (buf', result, rw enough ends)
    ]
