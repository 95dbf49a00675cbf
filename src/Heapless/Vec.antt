-- ===== src/Heapless/Vec.antt =====
-- `extend_from_slice` of a vector with and without room.
use canopen_rs.Base.{
  ℕ, ◌+◌, ◌≤◌, ◌<◌, ◌≡◌, inl, inr, none, some, List, [], ◌∷◌, ◌++◌, length, arith, Option-cases,
  leb, Bool-cases,
}
use canopen_rs.Heapless.{BoundedVec}

module _ (n : ℕ) {A V : Type 0} ⦃b : BoundedVec A n V⦄ where
  pub extend_fits :
      (v : V) (xs : List A)
      → length (b.as_slice v) + length xs ≤ n
      → (v' : V) × (b.extend_from_slice v xs ≡ some v') × (b.as_slice v' ≡ b.as_slice v ++ xs)
  extend_fits v xs h = elim (Option-cases (b.extend_from_slice v xs)) [
    | inl full ↦ absurd (ground (arith, b.as_slice-extend v xs))
    | inr (v', e) ↦ (v', e, ground (arith, b.as_slice-extend v xs))
  ]

  pub extend_full :
      (v : V) (xs : List A)
      → n < length (b.as_slice v) + length xs
      → b.extend_from_slice v xs ≡ none
  extend_full v xs h = elim (Option-cases (b.extend_from_slice v xs)) [
    | inl full ↦ full
    | inr (v', e) ↦ absurd (ground (arith, b.as_slice-extend v xs))
  ]

  pub as_slice-extended :
      (v v' : V) (xs : List A)
      → b.extend_from_slice v xs ≡ some v'
      → b.as_slice v' ≡ b.as_slice v ++ xs
  as_slice-extended v v' xs e = elim (Bool-cases (leb (length (b.as_slice v) + length xs) n)) [
    | inl room ↦ ground (arith, b.as_slice-extend v xs)
    | inr full ↦ absurd (ground (arith, b.as_slice-extend v xs))
  ]

  pub push_fits :
      (v : V) (x : A)
      → length (b.as_slice v) < n
      → (v' : V) × (b.push v x ≡ some v') × (b.as_slice v' ≡ b.as_slice v ++ x ∷ [])
  push_fits v x h = elim (Option-cases (b.push v x)) [
    | inl full ↦ absurd (ground (arith, b.as_slice-push v x))
    | inr (v', e) ↦ (v', e, ground (arith, b.as_slice-push v x))
  ]
