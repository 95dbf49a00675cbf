-- ===== src/Lss/Fastscan/Values.antt =====
-- core/src/lss.rs: the requests of a scan that find the four identity values.
use canopen_rs.Base.{
  ℕ, zero, suc, ◌+◌, ◌%◌, ◌<◌, ◌≡◌, refl, ◌∙◌, subst, true, some, none, if◌then◌else◌, leb, leb_no,
  arith,
}
use canopen_rs.Base.Int.{pos, negsuc}
use canopen_rs.Types.Outcome.{done}
use canopen_rs.Lss.{LssAddress, IsValid, waiting, configuration, encode_fastscan}
use canopen_rs.Lss.Slave.{LssSlave, identity, agrees}
use canopen_rs.Lss.Master.{FastscanMaster, next_request, discover}
use canopen_rs.Lss.Fastscan.Step.{known, agrees-encode_fastscan, identity-lt}
use canopen_rs.Lss.Fastscan.Exchange.{
  unscanned, identified, scanner, known_ids, handle-confirm, next_request-confirm,
  on_response-confirm,
}
use canopen_rs.Lss.Fastscan.Scan.{discover-step, discover-bits}

confirmed-known_ids :
    (a : LssAddress) (s : ℕ) → s < 3 → known_ids a s (identity a s) ≡ known_ids a (s + 1) 0
unfolding identity
confirmed-known_ids a zero h = refl
confirmed-known_ids a (suc zero) h = refl
confirmed-known_ids a (suc (suc zero)) h = refl
confirmed-known_ids a (suc (suc (suc s))) h = absurd (omega arith)

-- The loop ends when there is no request.
pub discover_complete :
    (fuel : ℕ) (m : FastscanMaster) (sl : LssSlave)
    → next_request m ≡ none
    → discover (suc fuel) m sl ≡ done (some (m, sl))
unfolding discover
discover_complete fuel m sl e = rw (e, discover) refl

module _ (a : LssAddress) (pending selective : ℕ) (valid : IsValid a) where
  -- A slave that is asked to confirm what it is agrees.
  agrees-confirm :
      (s n : ℕ)
      → agrees (unscanned a pending selective waiting s) (encode_fastscan (identity a s) 0 s n)
        ≡ true
  agrees-confirm s n =
      (agrees-encode_fastscan (unscanned a pending selective waiting s) (identity a s) 0 s n valid
          (identity-lt a s valid) (omega arith)).1
        refl

  -- The exchange that confirms a value.
  discover-confirm :
      (s fuel : ℕ)
      → s < 4
      → discover
          (suc fuel)
          (scanner a s (identity a s) (negsuc 0))
          (unscanned a pending selective waiting s)
        ≡ discover fuel
            (record (scanner a s (identity a s) (pos 31)) { sub = s + 1 })
            (if leb 3 s
              then unscanned a pending selective configuration s
              else unscanned a pending selective waiting ((s + 1) % 4))
  discover-confirm s fuel h =
      discover-step fuel (scanner a s (identity a s) (negsuc 0))
        (record (scanner a s (identity a s) (pos 31)) { sub = s + 1 })
        (unscanned a pending selective waiting s)
        (if leb 3 s
          then unscanned a pending selective configuration s
          else unscanned a pending selective waiting ((s + 1) % 4))
        (encode_fastscan (identity a s) 0 s ((s + 1) % 4)) (identified a pending selective)
        (next_request-confirm a s (identity a s) h)
        (handle-confirm a pending selective (identity a s) s ((s + 1) % 4) (λ e. omega arith)
          (agrees-confirm s ((s + 1) % 4)))
        (on_response-confirm a s (identity a s) true h)

  -- The 33 exchanges of a value.
  discover-value :
      (s fuel : ℕ)
      → s < 4
      → discover (33 + fuel) (scanner a s 0 (pos 31)) (unscanned a pending selective waiting s)
        ≡ discover fuel
            (record (scanner a s (identity a s) (pos 31)) { sub = s + 1 })
            (if leb 3 s
              then unscanned a pending selective configuration s
              else unscanned a pending selective waiting ((s + 1) % 4))
  discover-value s fuel h =
      let start : known (identity a s) 32 ≡ 0 = omega (arith, identity-lt a s valid) in
      let bits = discover-bits a pending selective valid s h 31 (suc fuel) (omega arith) in
      let total : 33 + fuel ≡ 32 + suc fuel = omega arith in
      let from_zero =
        subst
          (λ (t : ℕ).
            discover (32 + suc fuel) (scanner a s t (pos 31))
              (unscanned a pending selective waiting s)
            ≡ discover (suc fuel) (scanner a s (identity a s) (negsuc 0))
                (unscanned a pending selective waiting s))
          start bits in
      rw total (from_zero ∙ discover-confirm s fuel h)

  discover-inner :
      (s fuel : ℕ)
      → s < 3
      → discover (33 + fuel) (scanner a s 0 (pos 31)) (unscanned a pending selective waiting s)
        ≡ discover fuel
            (scanner a (s + 1) 0 (pos 31))
            (unscanned a pending selective waiting (s + 1))
  discover-inner s fuel h =
      let small : (s + 1) % 4 ≡ s + 1 = omega arith in
      discover-value s fuel (omega arith) ∙ rw (leb_no 3 s h, small, confirmed-known_ids a s h) refl

  -- The master after the scan.
  abbrev pub finished : FastscanMaster
  finished = record { id = known_ids a 3 a.serial_number; sub = 4; bit = pos 31; found = true }

  finished_complete : next_request finished ≡ none
  unfolding next_request
  finished_complete = refl

  pub discover-values :
      discover 133 (scanner a 0 0 (pos 31)) (unscanned a pending selective waiting 0)
      ≡ done (some (finished, unscanned a pending selective configuration 3))
  unfolding identity
  discover-values =
      discover-inner 0 100 (omega arith)
      ∙ discover-inner 1 67 (omega arith)
      ∙ discover-inner 2 34 (omega arith)
      ∙ discover-value 3 1 (omega arith)
      ∙ discover_complete 0 finished (unscanned a pending selective configuration 3)
          finished_complete
