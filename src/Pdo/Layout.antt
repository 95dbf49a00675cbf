-- ===== src/Pdo/Layout.antt =====
-- core/src/pdo.rs: what the mapping of a PDO holds.
use canopen_rs.Base.{
  ℕ, ◌+◌, ◌≤◌, ◌<◌, ◌≡◌, ◌⊎◌, inl, inr, List, [], ◌∷◌, ◌++◌, length, ltb, arith, Option-cases,
  Bool-cases,
}
use canopen_rs.Heapless.{BoundedVec}
use canopen_rs.Types.{ok, err, pdo_too_long, mapping_full}
use canopen_rs.Pdo.{MappingEntry, PdoMapping, sum_bits, entries, new, push, total_bits, total_bytes}

pub sum_bits-append : (xs ys : List MappingEntry) → sum_bits (xs ++ ys) ≡ sum_bits xs + sum_bits ys
sum_bits-append [] ys = omega arith
sum_bits-append (x ∷ xs) ys = omega (arith, sum_bits-append xs ys)

module _ {N : ℕ} {V : Type 0} ⦃b : BoundedVec MappingEntry N V⦄ where
  -- A `push` is refused when the entry would take the mapping past 64 bits, or else when the
  -- mapping has `N` entries, and then changes nothing. Otherwise it puts the entry last.
  pub push_lem :
      (mapping : PdoMapping N V) (e : MappingEntry)
      → (64 < total_bits mapping + e.bit_length) × (push mapping e ≡ (mapping, err pdo_too_long))
        ⊎ ((total_bits mapping + e.bit_length ≤ 64)
            × (N ≤ length (entries mapping))
            × (push mapping e ≡ (mapping, err mapping_full)))
        ⊎ ((total_bits mapping + e.bit_length ≤ 64)
            × (length (entries mapping) < N)
            × ((push mapping e).1 ≡ ok tt)
            × (entries (push mapping e).0 ≡ entries mapping ++ e ∷ []))
  unfolding push entries
  push_lem mapping e = elim (Bool-cases (ltb 64 (total_bits mapping + e.bit_length))) [
    | inl long ↦ inl (ground arith, ground arith)
    | inr fits ↦ elim (Option-cases (b.push mapping.entries e)) [
      | inl full ↦
          inr (inl (ground arith, ground (arith, b.as_slice-push mapping.entries e), ground arith))
      | inr (v, stored) ↦ inr (
          inr (
            ground arith,
            ground (arith, b.as_slice-push mapping.entries e),
            ground arith,
            ground (arith, b.as_slice-push mapping.entries e),
          ))
    ]
  ]

  -- The mappings that `new` and then any calls of `push` make.
  unfoldable pub pushed : List MappingEntry → PdoMapping N V → PdoMapping N V
  pushed [] mapping = mapping
  pushed (e ∷ es) mapping = pushed es (push mapping e).0

  fits_after_push :
      (mapping : PdoMapping N V) (e : MappingEntry)
      → total_bits mapping ≤ 64
      → total_bits (push mapping e).0 ≤ 64
  unfolding total_bits
  fits_after_push mapping e h = elim (push_lem mapping e) [
    | inl (long, same) ↦ rw same h
    | inr rest ↦ elim rest [
      | inl (fits, full, same) ↦ rw same h
      | inr (fits, room, done, last) ↦
          rw last (omega (arith, sum_bits-append (entries mapping) (e ∷ []), fits))
    ]
  ]

  fits_after :
      (es : List MappingEntry) (mapping : PdoMapping N V)
      → total_bits mapping ≤ 64
      → total_bits (pushed es mapping) ≤ 64
  unfolding pushed
  fits_after [] mapping h = h
  fits_after (e ∷ es) mapping h = fits_after es (push mapping e).0 (fits_after_push mapping e h)

module _ (N : ℕ) (V : Type 0) ⦃b : BoundedVec MappingEntry N V⦄ where
  -- Whatever is pushed to a new mapping, its data fit in the eight bytes of a frame.
  pub pushed-fits : (es : List MappingEntry) → total_bytes {N = N} {V = V} (pushed es new) ≤ 8
  unfolding total_bytes new total_bits entries
  pushed-fits es =
      omega (arith, fits_after {N = N} {V = V} es new (rw b.as_slice-new (omega arith)))
