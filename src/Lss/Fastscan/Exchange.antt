-- ===== src/Lss/Fastscan/Exchange.antt =====
-- core/src/lss.rs: one request of a scan, its answer, and what the master makes of it.
use canopen_rs.Base.{
  ℕ, zero, suc, ◌+◌, ◌%◌, ◌^◌, ◌<◌, ◌≡◌, ◌≢◌, refl, Bool, true, false, Option, some, none, List, [],
  ◌∷◌, get_or, set_at, bit_or, if◌then◌else◌, ltb_lem, ltb_no, leb_no, leb, arith,
}
use canopen_rs.Base.Bits.{and_0x03}
use canopen_rs.Base.Int.{ℤ, pos, negsuc}
use canopen_rs.Types.Outcome.{done, ◌>>=◌}
use canopen_rs.Lss.{
  LssFrame, LssAddress, LssState, waiting, configuration, frame, frame_u32, cs_identify_slave,
  unconfigured_node_id, encode_fastscan, fastscan_init,
}
use canopen_rs.Lss.Slave.{LssSlave, agrees, confirm, handle_fastscan, handle}
use canopen_rs.Lss.Master.{
  FastscanMaster, next_request, request, advance, set_bit, one_less, on_response,
}

-- A slave with the address `a` that takes part in a scan, at the value `s`.
module _ (a : LssAddress) (pending selective : ℕ) where
  abbrev pub unscanned : LssState → ℕ → LssSlave
  unscanned state s = record {
    address = a;
    node_id = unconfigured_node_id;
    pending_node_id = pending;
    state = state;
    selective = selective;
    fs_sub = s;
  }

  abbrev pub identified : Option LssFrame
  identified = some (frame cs_identify_slave)

  pub handle-init :
      (s : ℕ)
      → handle (unscanned waiting s) (encode_fastscan 0 fastscan_init 0 0)
        ≡ (unscanned waiting 0, identified)
  unfolding handle handle_fastscan encode_fastscan frame_u32
  handle-init s = refl

  -- The answer to the test of a bit.
  pub handle-bit :
      (id b s : ℕ)
      → b < 32
      → handle (unscanned waiting s) (encode_fastscan id b s s) ≡ (
        unscanned waiting s,
        if agrees (unscanned waiting s) (encode_fastscan id b s s) then identified else none,
      )
  unfolding handle handle_fastscan encode_fastscan frame_u32 confirm
  handle-bit id b s h = ground arith

  pub handle-confirm :
      (id s n : ℕ)
      → n ≢ s
      → agrees (unscanned waiting s) (encode_fastscan id 0 s n) ≡ true
      → handle (unscanned waiting s) (encode_fastscan id 0 s n)
        ≡ (if leb 3 s then unscanned configuration s else unscanned waiting n, identified)
  unfolding handle handle_fastscan encode_fastscan frame_u32 confirm
  handle-confirm id s n differs e = ground arith

-- The four values of a master that knows those of `a` below `s`, and `v` at `s`.
abbrev pub known_ids : LssAddress → ℕ → ℕ → List ℕ
known_ids a zero v = v ∷ 0 ∷ 0 ∷ 0 ∷ []
known_ids a (suc zero) v = a.vendor_id ∷ v ∷ 0 ∷ 0 ∷ []
known_ids a (suc (suc zero)) v = a.vendor_id ∷ a.product_code ∷ v ∷ 0 ∷ []
known_ids a (suc (suc (suc _))) v = a.vendor_id ∷ a.product_code ∷ a.revision_number ∷ v ∷ []

abbrev pub scanner : LssAddress → ℕ → ℕ → ℤ → FastscanMaster
scanner a s v b = record { id = known_ids a s v; sub = s; bit = b; found = true }

get-known_ids : (a : LssAddress) (s v : ℕ) → s < 4 → get_or (known_ids a s v) s 0 ≡ v
get-known_ids a zero v h = refl
get-known_ids a (suc zero) v h = refl
get-known_ids a (suc (suc zero)) v h = refl
get-known_ids a (suc (suc (suc zero))) v h = refl
get-known_ids a (suc (suc (suc (suc s)))) v h = absurd (omega arith)

set-known_ids :
    (a : LssAddress) (s v w : ℕ) → s < 4 → set_at (known_ids a s v) s w ≡ known_ids a s w
set-known_ids a zero v w h = refl
set-known_ids a (suc zero) v w h = refl
set-known_ids a (suc (suc zero)) v w h = refl
set-known_ids a (suc (suc (suc zero))) v w h = refl
set-known_ids a (suc (suc (suc (suc s)))) v w h = absurd (omega arith)

module _ (a : LssAddress) (s : ℕ) (s-lt : s < 4) where
  pub next_request-bit :
      (v k : ℕ) → next_request (scanner a s v (pos k)) ≡ some (encode_fastscan v k s s)
  unfolding next_request request
  next_request-bit v k = rw (ltb_no 3 s (omega arith), get-known_ids a s v s-lt) refl

  pub on_response-clear :
      (v k : ℕ) (b : ℤ)
      → one_less (pos k) ≡ done b
      → on_response (scanner a s v (pos k)) true ≡ done (scanner a s v b)
  unfolding on_response advance
  on_response-clear v k b e = rw (e, ◌>>=◌) refl

  pub on_response-set :
      (v k : ℕ) (b : ℤ)
      → k < 32
      → one_less (pos k) ≡ done b
      → on_response (scanner a s v (pos k)) false ≡ done (scanner a s (bit_or v (2 ^ k)) b)
  unfolding on_response advance set_bit
  on_response-set v k b h e =
      rw
        (
          ltb_lem k 32 h,
          ltb_lem s 4 s-lt,
          get-known_ids a s v s-lt,
          set-known_ids a s v (bit_or v (2 ^ k)) s-lt,
          e,
          ◌>>=◌,
        )
        refl

module _ (a : LssAddress) where
  pub next_request-confirm :
      (s v : ℕ)
      → s < 4
      → next_request (scanner a s v (negsuc 0)) ≡ some (encode_fastscan v 0 s ((s + 1) % 4))
  unfolding next_request request
  next_request-confirm s v h =
      let wrap : (s + 1) % 2 ^ 8 % 4 ≡ (s + 1) % 4 = omega arith in
      rw (ltb_no 3 s (omega arith), get-known_ids a s v h, and_0x03, wrap) refl

  pub on_response-confirm :
      (s v : ℕ) (responded : Bool)
      → s < 4
      → on_response (scanner a s v (negsuc 0)) responded
        ≡ done (record (scanner a s v (pos 31)) { sub = s + 1 })
  unfolding on_response advance
  on_response-confirm s v responded h = rw (leb_no 255 s (omega arith)) refl
