-- ===== src/Lss/Fastscan/Scan.antt =====
-- core/src/lss.rs: the exchanges that scan one value, and all of them.
use canopen_rs.Base.{
  ℕ, zero, suc, ◌+◌, ◌^◌, ◌<◌, ◌≡◌, inl, inr, refl, ◌∙◌, Option, some, none, arith, Bool-cases,
}
use native.Mathlib.Nat.{div-mul-le_self}
use canopen_rs.Base.Int.{ℤ, pos, negsuc}
use canopen_rs.Heapless.{is_some}
use canopen_rs.Types.Outcome.{done, ◌>>=◌}
use canopen_rs.Lss.{LssFrame, LssAddress, IsValid, waiting, encode_fastscan}
use canopen_rs.Lss.Slave.{LssSlave, identity, agrees, handle}
use canopen_rs.Lss.Master.{FastscanMaster, next_request, one_less, on_response, discover}
use canopen_rs.Lss.Fastscan.Step.{known, agrees-encode_fastscan, identity-lt, bit_clear, bit_set}
use canopen_rs.Lss.Fastscan.Exchange.{
  unscanned, identified, scanner, handle-bit, next_request-bit, on_response-clear, on_response-set,
}

pub discover-step :
    (fuel : ℕ) (m m' : FastscanMaster) (sl sl' : LssSlave) (req : LssFrame)
    (answer : Option LssFrame)
    → next_request m ≡ some req
    → handle sl req ≡ (sl', answer)
    → on_response m (is_some answer) ≡ done m'
    → discover (suc fuel) m sl ≡ discover fuel m' sl'
unfolding discover
discover-step fuel m m' sl sl' req answer asks answers hears =
    rw (asks, answers, hears, discover, ◌>>=◌) refl

sum_zero : (n : ℕ) → suc zero + n ≡ suc n
sum_zero n = omega arith

sum_suc : (k n : ℕ) → suc (suc k) + n ≡ suc (suc k + n)
sum_suc k n = omega arith

known-zero : (w : ℕ) → known w 0 ≡ w
known-zero w = omega arith

module _ (a : LssAddress) (pending selective : ℕ) (valid : IsValid a) (s : ℕ) (s-lt : s < 4) where
  abbrev slave : LssSlave
  slave = unscanned a pending selective waiting s

  known-lt : (k : ℕ) → known (identity a s) k < 2 ^ 32
  known-lt k = omega (arith, identity-lt a s valid, div-mul-le_self (identity a s) (2 ^ k))

  exchange-bit :
      (fuel k : ℕ) (b : ℤ)
      → k < 32
      → one_less (pos k) ≡ done b
      → discover (suc fuel) (scanner a s (known (identity a s) (suc k)) (pos k)) slave
        ≡ discover fuel (scanner a s (known (identity a s) k) b) slave
  exchange-bit fuel k b h e =
      let w = identity a s in
      let v = known w (suc k) in
      let req = encode_fastscan v k s s in
      let same = agrees-encode_fastscan slave v k s s valid (known-lt (suc k)) h in
      let asks = next_request-bit a s s-lt v k in
      let answers = handle-bit a pending selective v k s h in
      elim (Bool-cases (agrees slave req)) [
        | inl clear ↦
            discover-step fuel (scanner a s v (pos k)) (scanner a s (known w k) b) slave slave req
              (identified a pending selective) asks (answers ∙ rw clear refl)
              (on_response-clear a s s-lt v k b e ∙ rw (bit_clear w k (same.0 clear)) refl)
        | inr differs ↦
            discover-step fuel (scanner a s v (pos k)) (scanner a s (known w k) b) slave slave req
              none asks (answers ∙ rw differs refl)
              (on_response-set a s s-lt v k b h e
                ∙ rw (bit_set w k (λ q. absurd (ground (arith, same.1 q)))) refl)
      ]

  pub discover-bits :
      (k fuel : ℕ)
      → k < 32
      → discover (suc k + fuel) (scanner a s (known (identity a s) (suc k)) (pos k)) slave
        ≡ discover fuel (scanner a s (identity a s) (negsuc 0)) slave
  discover-bits zero fuel h =
      rw (sum_zero fuel)
        (exchange-bit fuel 0 (negsuc 0) h refl ∙ rw (known-zero (identity a s)) refl)
  discover-bits (suc k) fuel h =
      rw (sum_suc k fuel)
        (exchange-bit (suc k + fuel) (suc k) (pos k) h refl ∙ discover-bits k fuel (omega arith))
