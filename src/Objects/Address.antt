-- ===== src/Objects/Address.antt =====
-- core/src/object_dictionary.rs: the address of an object.
use canopen_rs.Base.{ℕ, ◌≡◌, ◌<◌, ◌^◌, Bool, true, ◌&&◌, ◌==◌, ◌↔◌, arith}

pub record Address : Type 0 where
  pub index : ℕ
  pub subindex : ℕ

abbrev pub new : ℕ → ℕ → Address
new i s = record { index = i; subindex = s }

-- The derived equality.
abbrev pub eq : Address → Address → Bool
eq a b = a.index == b.index && a.subindex == b.subindex

-- The ranges of the two fields.
pub record IsValid (a : Address) : Type 0 where
  pub index_lt : a.index < 2 ^ 16
  pub subindex_lt : a.subindex < 2 ^ 8

pub eq_iff : (a b : Address) → (eq a b ≡ true) ↔ (a ≡ b)
eq_iff a b = ground arith

pub eq_refl : (a : Address) → eq a a ≡ true
eq_refl a = ground arith
