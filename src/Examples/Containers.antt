-- ===== src/Examples/Containers.antt =====
-- Concrete containers in the place of heapless's: a list of at most eight entries as a map, and
-- lists of bounded length as vectors.
use canopen_rs.Base.{
  ℕ, ◌+◌, ◌<◌, ◌≡◌, refl, true, false, ◌&&◌, ◌||◌, Option, none, some, List, [], ◌∷◌, ◌++◌, length,
  take, leb, ltb, if◌then◌else◌, min, arith, Bool-cases, inl, inr, ◌⊎◌, ◌-◌, set_at,
}
use mathlib.Core.Option
use canopen_rs.Heapless.{BoundedVec, is_some}
use canopen_rs.Datatypes.ByteString.{max_string_len}
use canopen_rs.Pdo.{MappingEntry}
use canopen_rs.Objects.Address
use canopen_rs.Objects.Address.{Address}
use canopen_rs.Objects.Entry.{Entry}
use canopen_rs.Objects.ObjectDictionary.{EntryMap}

abbrev pub Items : Type 0
Items = List (Address × Entry)

abbrev capacity : ℕ
capacity = 16

-- A list beyond the capacity counts as full.
abbrev len : Items → ℕ
len m = min (length m) capacity

abbrev pub get : Items → Address → Option Entry
get [] j = none
get ((k, e) ∷ m) j = if Address.eq k j then some e else get m j

abbrev write : Items → Address → Entry → Items
write [] j v = []
write ((k, e) ∷ m) j v = if Address.eq k j then (k, v) ∷ m else (k, e) ∷ write m j v

abbrev insert : Items → Address → Entry → Option Items
insert m j v =
    if is_some (get m j)
    then some (write m j v)
    else if ltb (len m) capacity
    then some ((j, v) ∷ m)
    else none

pub get-write :
    (m : Items) (k j : Address) (v : Entry)
    → get (write m k v) j ≡ (if Address.eq k j && is_some (get m k) then some v else get m j)
get-write [] k j v = ground arith
get-write ((i, e) ∷ m) k j v = ground (arith, get-write m k j v)

pub length-write : (m : Items) (k : Address) (v : Entry) → length (write m k v) ≡ length m
length-write [] k v = refl
length-write ((i, e) ∷ m) k v = ground (arith, length-write m k v)

pub insert_fits :
    (m : Items) (k : Address) (v : Entry)
    → is_some (insert m k v) ≡ is_some (get m k) || ltb (len m) capacity
insert_fits m k v = elim (Bool-cases (is_some (get m k))) [
  | inl found ↦ rw found refl
  | inr new ↦ elim (Bool-cases (ltb (len m) capacity)) [
    | inl room ↦ rw (new, room) refl
    | inr full ↦ rw (new, full) refl
  ]
]

-- What `insert` makes of a list.
inserted :
    (m m' : Items) (k : Address) (v : Entry)
    → insert m k v ≡ some m'
    → ((is_some (get m k) ≡ true) × (m' ≡ write m k v))
      ⊎ ((is_some (get m k) ≡ false) × (length m < capacity) × (m' ≡ (k, v) ∷ m))
inserted m m' k v h = elim (Bool-cases (is_some (get m k))) [
  | inl found ↦ inl (found, (ground arith))
  | inr new ↦ elim (Bool-cases (ltb (len m) capacity)) [
    | inl room ↦ inr (new, (ground arith), (ground arith))
    | inr full ↦ absurd (ground arith)
  ]
]

pub get-insert :
    (m m' : Items) (k j : Address) (v : Entry)
    → insert m k v ≡ some m'
    → get m' j ≡ (if Address.eq k j then some v else get m j)
get-insert m m' k j v h = elim (inserted m m' k v h) [
  | inl (found, e) ↦ rw e (ground (arith, get-write m k j v))
  | inr (new, room, e) ↦ rw e refl
]

pub len-insert :
    (m m' : Items) (k : Address) (v : Entry)
    → insert m k v ≡ some m'
    → len m' ≡ (if is_some (get m k) then len m else len m + 1)
len-insert m m' k v h = elim (inserted m m' k v h) [
  | inl (found, e) ↦ rw (e, found) (ground (arith, length-write m k v))
  | inr (new, room, e) ↦ rw (e, new) (omega (arith, room))
]

instance abbrev pub items_map : EntryMap Items
items_map = record {
  capacity = capacity;
  new = [];
  len = len;
  get = get;
  insert = insert;
  write = write;
  len-new = refl;
  get-new = λ k. refl;
  len-le = λ m. omega arith;
  insert_fits = insert_fits;
  get-insert = get-insert;
  len-insert = len-insert;
  get-write = get-write;
  len-write = λ m k v. rw (length-write m k v) refl;
}

-- A list of at most so many elements, as a vector.
module _ (A : Type 0) (bound : ℕ) where
  abbrev extend : List A → List A → Option (List A)
  extend v xs = if leb (length v + length xs) bound then some (v ++ xs) else none

  abbrev append : List A → A → Option (List A)
  append v x = if ltb (length v) bound then some (v ++ x ∷ []) else none

  pub as_slice-extend :
      (v xs : List A)
      → Option.map (λ (s : List A). s) (extend v xs)
        ≡ (if leb (length v + length xs) bound then some (v ++ xs) else none)
  as_slice-extend v xs = elim (Bool-cases (leb (length v + length xs) bound)) [
    | inl room ↦ rw room refl
    | inr full ↦ rw full refl
  ]

  pub as_slice-push :
      (v : List A) (x : A)
      → Option.map (λ (s : List A). s) (append v x)
        ≡ (if ltb (length v) bound then some (v ++ x ∷ []) else none)
  as_slice-push v x = elim (Bool-cases (ltb (length v) bound)) [
    | inl room ↦ rw room refl
    | inr full ↦ rw full refl
  ]

  abbrev pub list_vec : BoundedVec A bound (List A)
  list_vec = record {
    new = [];
    as_slice = λ v. v;
    extend_from_slice = extend;
    push = append;
    truncate = λ v len. take len v;
    as_slice-truncate = λ v len. refl;
    pop = λ v. take (length v - 1) v;
    clear = λ v. [];
    set = set_at;
    as_slice-new = refl;
    as_slice-pop = λ v. refl;
    as_slice-clear = λ v. refl;
    as_slice-set = λ v i x h. refl;
    as_slice-extend = as_slice-extend;
    as_slice-push = as_slice-push;
  }

instance abbrev pub bytes_vec : BoundedVec ℕ max_string_len (List ℕ)
bytes_vec = list_vec ℕ max_string_len

instance abbrev pub mapping_vec : BoundedVec MappingEntry 8 (List MappingEntry)
mapping_vec = list_vec MappingEntry 8
