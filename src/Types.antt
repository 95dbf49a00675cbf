-- ===== src/Types.antt =====
-- core/src/types.rs: the error type and the results of fallible functions.
pub mod NodeId
pub mod Outcome
use canopen_rs.Base.{◌≡◌, ◌⊎◌, inl, inr, refl, arith}

pub data Error : Type 0 where
  bad_length overflow object_not_found invalid_node_id read_only write_only : Error
  type_mismatch dictionary_full unsupported_transfer unexpected_command : Error
  unknown_state pdo_too_long mapping_full invalid_sync_counter : Error
  toggle_mismatch crc_mismatch : Error

pub data Result {ℓ} (A : Type ℓ) : Type ℓ where
  ok : A → Result A
  err : Error → Result A

pub Result-cases {ℓ} :
    {A : Type ℓ} (r : Result A) → ((a : A) × (r ≡ ok a)) ⊎ ((e : Error) × (r ≡ err e))
Result-cases (ok a) = inl (a, refl)
Result-cases (err e) = inr (e, refl)

infixl 5 ◌>>=◌ ◌>>◌
abbrev pub ◌>>=◌ {ℓ κ} : {A : Type ℓ} {B : Type κ} → Result A → (A → Result B) → Result B
ok a >>= f = f a
err e >>= f = err e

abbrev pub ◌>>◌ {ℓ κ} : {A : Type ℓ} {B : Type κ} → Result A → Result B → Result B
m >> k = m >>= λ _. k

-- A chain succeeds only where both parts do.
pub bind_ok {ℓ κ} :
    {A : Type ℓ} {B : Type κ} (r : Result A) (f : A → Result B) (b : B)
    → r >>= f ≡ ok b
    → (a : A) × (r ≡ ok a) × (f a ≡ ok b)
bind_ok (ok a) f b h = (a, refl, h)
bind_ok (err e) f b h = absurd (ground arith)
