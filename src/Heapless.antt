-- ===== src/Heapless.antt =====
-- The two containers of the crate heapless that the stack uses, as interfaces: the operations with
-- what their documentation says. The crate is not part of the repository.
pub mod Vec
use canopen_rs.Base.{
  ℕ, zero, suc, ◌+◌, ◌-◌, ◌≤◌, ◌<◌, ◌≡◌, Bool, true, false, ◌&&◌, ◌||◌, Option, none, some, List,
  [], ◌∷◌, ◌++◌, length, take, set_at, leb, ltb, if◌then◌else◌,
}
use mathlib.Core.Option

-- `heapless::Vec<A, n>`: `V` is the type of the vectors.
pub record BoundedVec (A : Type 0) (n : ℕ) (V : Type 0) : Type 0 where
  -- `Vec::new`
  pub new : V
  -- the slice that the vector dereferences to
  pub as_slice : V → List A
  -- `extend_from_slice`; `none` is the error, which leaves the vector as it was
  pub extend_from_slice : V → List A → Option V
  -- `push`; `none` is the error of a full vector
  pub push : V → A → Option V
  -- `truncate`, of no effect on a vector that is not longer
  pub truncate : V → ℕ → V
  -- `pop`: the vector without its last element
  pub pop : V → V
  pub clear : V → V
  -- a write through `v[i]`, which panics unless `i` is below the length
  pub set : V → ℕ → A → V
  pub as_slice-new : as_slice new ≡ []
  pub as_slice-truncate : (v : V) (len : ℕ) → as_slice (truncate v len) ≡ take len (as_slice v)
  pub as_slice-pop : (v : V) → as_slice (pop v) ≡ take (length (as_slice v) - 1) (as_slice v)
  pub as_slice-clear : (v : V) → as_slice (clear v) ≡ []
  pub as_slice-set :
      (v : V) (i : ℕ) (x : A)
      → i < length (as_slice v)
      → as_slice (set v i x) ≡ set_at (as_slice v) i x
  pub as_slice-extend :
      (v : V) (xs : List A)
      → Option.map as_slice (extend_from_slice v xs)
        ≡ (if leb (length (as_slice v) + length xs) n then some (as_slice v ++ xs) else none)
  pub as_slice-push :
      (v : V) (x : A)
      → Option.map as_slice (push v x)
        ≡ (if ltb (length (as_slice v)) n then some (as_slice v ++ x ∷ []) else none)

-- Whether a lookup found something.
abbrev pub is_some {ℓ} : {A : Type ℓ} → Option A → Bool
is_some none = false
is_some (some _) = true

-- `heapless::LinearMap<K, V, N>` over the key equality `same`: `M` is the type of the maps.
pub record LinearMap (K V : Type 0) (same : K → K → Bool) (M : Type 0) : Type 0 where
  -- the const generic `N`
  pub capacity : ℕ
  pub new : M
  pub len : M → ℕ
  pub get : M → K → Option V
  -- `insert`; `none` is the error of a full map
  pub insert : M → K → V → Option M
  -- a write through the reference of `get_mut`; of no effect where there is no such key
  pub write : M → K → V → M
  pub len-new : len new ≡ 0
  pub get-new : (k : K) → get new k ≡ none
  pub len-le : (m : M) → len m ≤ capacity
  pub insert_fits :
      (m : M) (k : K) (v : V) → is_some (insert m k v) ≡ is_some (get m k) || ltb (len m) capacity
  pub get-insert :
      (m m' : M) (k j : K) (v : V)
      → insert m k v ≡ some m'
      → get m' j ≡ (if same k j then some v else get m j)
  pub len-insert :
      (m m' : M) (k : K) (v : V)
      → insert m k v ≡ some m'
      → len m' ≡ (if is_some (get m k) then len m else len m + 1)
  pub get-write :
      (m : M) (k j : K) (v : V)
      → get (write m k v) j ≡ (if same k j && is_some (get m k) then some v else get m j)
  pub len-write : (m : M) (k : K) (v : V) → len (write m k v) ≡ len m
