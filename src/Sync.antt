-- ===== src/Sync.antt =====
-- core/src/sync.rs: the synchronisation object and the counter of its producer.
pub mod Cycle
use canopen_rs.Base.{
  ℕ, ◌+◌, ◌%◌, ◌^◌, Bool, not, ◌&&◌, ◌||◌, Option, none, some, List, [], ◌∷◌, leb, ◌==◌,
  if◌then◌else◌,
}
use canopen_rs.Types.{Result, ok, err, bad_length, invalid_sync_counter}

abbrev pub sync_cob_id : ℕ
sync_cob_id = 0x080

unfoldable pub is_valid_counter_overflow : ℕ → Bool
is_valid_counter_overflow overflow = overflow == 0 || (leb 2 overflow && leb overflow 240)

unfoldable pub decode : List ℕ → Result (Option ℕ)
decode [] = ok none
decode (count ∷ []) = ok (some count)
decode (_ ∷ _ ∷ _) = err bad_length

unfoldable pub encode_counter : ℕ → List ℕ
encode_counter count = count ∷ []

pub record SyncCounter : Type 0 where
  pub overflow : ℕ
  pub value : ℕ

unfoldable pub new : ℕ → Result SyncCounter
unfolding is_valid_counter_overflow
new overflow =
    if not (is_valid_counter_overflow overflow)
    then err invalid_sync_counter
    else ok (record { overflow = overflow; value = 0 })

unfoldable pub is_counting : SyncCounter → Bool
is_counting c = leb 2 c.overflow

-- `self.value + 1` on a `u8`.
unfoldable pub next_value : SyncCounter → ℕ
next_value c = if leb c.overflow c.value then 1 else (c.value + 1) % 2 ^ 8

-- The counter after the call, and the count to transmit.
unfoldable pub advance : SyncCounter → SyncCounter × Option ℕ
unfolding is_counting next_value
advance c =
    if not (is_counting c)
    then (c, none)
    else (record c { value = next_value c }, some (next_value c))
