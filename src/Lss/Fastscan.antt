-- ===== src/Lss/Fastscan.antt =====
-- core/src/lss.rs: what a scan finds.
mod Step
mod Exchange
mod Scan
mod Values
use canopen_rs.Base.{
  ℕ, zero, suc, ◌+◌, ◌-◌, ◌*◌, ◌/◌, ◌%◌, ◌^◌, ◌≤◌, ◌<◌, ◌≡◌, ◌≢◌, ◌↔◌, ◌⊎◌, inl, inr, refl, sym, ap,
  ◌∙◌, subst, Bool, true, false, not, ◌&&◌, Option, some, none, List, [], ◌∷◌, get_or, replicate,
  bit_and, bit_or, bit_xor, if◌then◌else◌, ◌==◌, ==_iff, ltb_lem, leb, leb_lem, leb_no, ltb, arith,
  Bool-cases,
}
use canopen_rs.Base.Int.{ℤ, pos, negsuc}
use canopen_rs.Heapless.{is_some}
use canopen_rs.Types.Outcome.{Outcome, done, panicked, ◌>>=◌}
use canopen_rs.Lss.{
  LssFrame, LssAddress, IsValid, LssState, waiting, configuration, frame, frame_u32, u32_at,
  cs_identify_slave, unconfigured_node_id, encode_fastscan, fastscan_init,
}
use canopen_rs.Lss.Slave.{LssSlave, identity, agrees, confirm, handle_fastscan, handle}
use canopen_rs.Lss.Master
use canopen_rs.Lss.Master.{
  FastscanMaster, next_request, request, advance, set_bit, one_less, on_response, is_complete,
  address, discover,
}
use canopen_rs.Lss.Fastscan.Step.{known, agrees-encode_fastscan, identity-lt}
use canopen_rs.Lss.Fastscan.Exchange.{
  unscanned, identified, scanner, known_ids, handle-confirm, handle-init, next_request-confirm,
  on_response-confirm,
}
use canopen_rs.Lss.Fastscan.Scan.{discover-step, discover-bits}
use canopen_rs.Lss.Fastscan.Values.{discover_complete, finished, discover-values}

first_request : next_request Master.new ≡ some (encode_fastscan 0 fastscan_init 0 0)
unfolding next_request request Master.new
first_request = refl

first_answered : (a : LssAddress) → on_response Master.new true ≡ done (scanner a 0 0 (pos 31))
unfolding on_response advance Master.new
first_answered a = refl

module _ (a : LssAddress) (pending selective : ℕ) (valid : IsValid a) where
  discover-scan :
      (s : ℕ)
      → discover 134 Master.new (unscanned a pending selective waiting s)
        ≡ done (
            some
              (finished a pending selective valid, unscanned a pending selective configuration 3))
  discover-scan s =
      discover-step 133 Master.new (scanner a 0 0 (pos 31))
        (unscanned a pending selective waiting s) (unscanned a pending selective waiting 0)
        (encode_fastscan 0 fastscan_init 0 0) (identified a pending selective) first_request
        (handle-init a pending selective s) (first_answered a)
      ∙ discover-values a pending selective valid

-- The slave that takes part in a scan is one that has no node-id and waits.
waits :
    (sl : LssSlave)
    → sl.node_id ≡ unconfigured_node_id
    → sl.state ≡ waiting
    → unscanned sl.address sl.pending_node_id sl.selective waiting sl.fs_sub ≡ sl
waits sl no_id state i = record sl { node_id = sym no_id i; state = sym state i }

-- A scan of a slave that has no node-id and waits, whatever its four 32-bit identity values are and
-- whatever scan it was in before, ends within 134 rounds of the loop: the master has found a node
-- and is complete with exactly the slave's address, and the slave is in the configuration state.
pub discover-unconfigured :
    (sl : LssSlave)
    → sl.node_id ≡ unconfigured_node_id
    → sl.state ≡ waiting
    → IsValid sl.address
    → (m : FastscanMaster) × (discover 134 Master.new sl
        ≡ done (some (m, record sl { state = configuration; fs_sub = 3 })))
      × (m.found ≡ true)
      × (is_complete m ≡ true)
      × (address m ≡ sl.address)
unfolding is_complete address
discover-unconfigured sl no_id state valid = (
  finished sl.address sl.pending_node_id sl.selective valid,
  (ap (discover 134 Master.new) (sym (waits sl no_id state))
      ∙ discover-scan sl.address sl.pending_node_id sl.selective valid sl.fs_sub
      ∙ (λ i. done (
          some (
            finished sl.address sl.pending_node_id sl.selective valid,
            record sl { node_id = sym no_id i; state = configuration; fs_sub = 3 },
          )))),
  refl,
  refl,
  refl,
)

-- The master that has heard nothing.
abbrev unanswered : FastscanMaster
unanswered = record { id = replicate 4 0; sub = 4; bit = negsuc 1; found = false }

first_unanswered : on_response Master.new false ≡ done unanswered
unfolding on_response advance Master.new
first_unanswered = refl

unanswered_complete : next_request unanswered ≡ none
unfolding next_request
unanswered_complete = refl

handle-refused :
    (sl : LssSlave)
    → (sl.node_id ≢ unconfigured_node_id) ⊎ (sl.state ≡ configuration)
    → handle sl (encode_fastscan 0 fastscan_init 0 0) ≡ (sl, none)
unfolding handle handle_fastscan encode_fastscan frame_u32
handle-refused sl (inl other) = ground arith
handle-refused sl (inr state) = ground arith

-- A scan of a slave that has a node-id or is in the configuration state makes one request: two
-- rounds of the loop, of which the second sees that there is no further request, or any more,
-- return a master that is complete and has found no node, and the slave as before.
pub discover-configured :
    (sl : LssSlave) (fuel : ℕ)
    → (sl.node_id ≢ unconfigured_node_id) ⊎ (sl.state ≡ configuration)
    → (m : FastscanMaster) × (discover (suc (suc fuel)) Master.new sl ≡ done (some (m, sl)))
      × (m.found ≡ false)
      × (is_complete m ≡ true)
unfolding is_complete
discover-configured sl fuel h = (
  unanswered,
  (discover-step (suc fuel) Master.new unanswered sl sl (encode_fastscan 0 fastscan_init 0 0) none
        first_request (handle-refused sl h) first_unanswered
      ∙ discover_complete fuel unanswered sl unanswered_complete),
  refl,
  refl,
)
