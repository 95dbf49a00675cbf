-- ===== src/Sync/Cycle.antt =====
-- core/src/sync.rs: the counts that a producer transmits, one advance after the other.
use canopen_rs.Base.{
  ℕ, zero, suc, ◌+◌, ◌%◌, ◌≤◌, ◌≡◌, ◌⊎◌, inl, inr, refl, ap, ◌∙◌, some, leb, if◌then◌else◌, arith,
  Bool-cases,
}
use native.Mathlib.Nat.{suc-mod, mod-lt, mod_self, mod-eq_of_lt}
use canopen_rs.Types.{ok}
use canopen_rs.Sync.{SyncCounter, new, advance, next_value, is_counting, is_valid_counter_overflow}

-- The counter after so many advances.
unfoldable pub advanced : ℕ → SyncCounter → SyncCounter
advanced zero c = c
advanced (suc n) c = (advance (advanced n c)).0

suc_in_cycle : (n m : ℕ) → 2 ≤ m → suc n % m ≡ (if leb m (n % m + 1) then 0 else n % m + 1)
suc_in_cycle n m h = elim (Bool-cases (leb m (n % m + 1))) [
  | inl full ↦
      let last : suc (n % m) ≡ m = ground (arith, mod-lt n {m = m} (omega arith)) in
      rw full (suc-mod n m ∙ ap (λ (t : ℕ). t % m) last ∙ mod_self m)
  | inr room ↦ rw room (suc-mod n m ∙ mod-eq_of_lt (ground arith) ∙ omega arith)
]

-- One advance of a counter that counts, which does not wrap the byte.
advance_counts :
    (overflow v : ℕ)
    → 2 ≤ overflow
    → overflow ≤ 240
    → let v' = if leb overflow v then 1 else v + 1 in
      advance (record { overflow = overflow; value = v })
      ≡ (record { overflow = overflow; value = v' }, some v')
unfolding advance next_value is_counting
advance_counts overflow v low high = ground arith

-- The counter that is at the count after `n % overflow + 1`.
advance_from :
    (overflow n : ℕ)
    → 2 ≤ overflow
    → overflow ≤ 240
    → advance (record { overflow = overflow; value = n % overflow + 1 })
      ≡ (record { overflow = overflow; value = suc n % overflow + 1 }, some (suc n % overflow + 1))
advance_from overflow n low high =
    advance_counts overflow (n % overflow + 1) low high
    ∙ rw (suc_in_cycle n overflow low) (ground arith)

advanced_suc :
    (overflow n : ℕ)
    → 2 ≤ overflow
    → overflow ≤ 240
    → advance (advanced n (record { overflow = overflow; value = 0 }))
      ≡ (record { overflow = overflow; value = n % overflow + 1 }, some (n % overflow + 1))
unfolding advanced
advanced_suc overflow zero low high =
    advance_counts overflow 0 low high
    ∙ ground (arith, mod-eq_of_lt {n = 0} {m = overflow} (omega arith))
advanced_suc overflow (suc n) low high =
    rw (advanced_suc overflow n low high, advanced) (advance_from overflow n low high)

made_of :
    (overflow : ℕ) (c : SyncCounter)
    → new overflow ≡ ok c
    → (c ≡ record { overflow = overflow; value = 0 })
      × ((overflow ≡ 0) ⊎ ((2 ≤ overflow) × (overflow ≤ 240)))
unfolding new is_valid_counter_overflow
made_of overflow c made = (ground arith, ground arith)

-- A counter that `new` makes for an overflow of 2 or more transmits 1, 2, and so on up to the
-- overflow, and then starts again at 1: after `n` advances it transmits `n % overflow + 1`.
pub advance-cycle :
    (overflow n : ℕ) (c : SyncCounter)
    → new overflow ≡ ok c
    → 2 ≤ overflow
    → (advance (advanced n c)).1 ≡ some (n % overflow + 1)
advance-cycle overflow n c made low =
    let (e, range) = made_of overflow c made in
    rw (e, advanced_suc overflow n low (omega arith)) refl
