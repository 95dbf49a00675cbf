-- ===== src/Lss/Selective.antt =====
-- core/src/lss.rs: the selective switch of a slave by its address.
use canopen_rs.Base.{
  ℕ, suc, ◌^◌, ◌<◌, ◌≡◌, ◌≢◌, ap, true, false, ◌&&◌, Option, some, none, List, [], ◌∷◌,
  if◌then◌else◌, ◌==◌, arith, Bool,
}
use canopen_rs.Base.Bytes.{from-to_le_bytes}
use canopen_rs.Lss.{
  LssFrame, LssAddress, IsValid, configuration, frame, frame_u32, u32_at, encode_switch_selective,
  cs_switch_selective_vendor, cs_switch_selective_product, cs_switch_selective_revision,
  cs_switch_selective_serial, cs_switch_selective_response,
}
use canopen_rs.Lss.Slave.{LssSlave, handle, match_next, on_switch_serial}

-- A slave that gets frames one after the other, and its answers.
abbrev pub handle_all : LssSlave → List LssFrame → LssSlave × List (Option LssFrame)
handle_all sl [] = (sl, [])
handle_all sl (f ∷ fs) =
    let (sl1, answer) = handle sl f in
    let (sl2, answers) = handle_all sl1 fs in (sl2, answer ∷ answers)

u32_at-frame_u32 : (cs v : ℕ) → v < 2 ^ 32 → u32_at (frame_u32 cs v) ≡ v
unfolding u32_at frame_u32
u32_at-frame_u32 cs v h = from-to_le_bytes 4 v h

handle-vendor :
    (sl : LssSlave) (v : ℕ)
    → v < 2 ^ 32
    → handle sl (frame_u32 cs_switch_selective_vendor v)
      ≡ (record sl { selective = if v == sl.address.vendor_id then 1 else 0 }, none)
unfolding handle frame_u32
handle-vendor sl v h =
    ap (λ (t : ℕ). (record sl { selective = if t == sl.address.vendor_id then 1 else 0 }, none))
      (u32_at-frame_u32 cs_switch_selective_vendor v h)

module _ (sl : LssSlave) (v : ℕ) (h : v < 2 ^ 32) where
  matched : ℕ → ℕ → LssSlave
  matched level value = record sl {
    selective = if sl.selective == level && v == value then suc level else 0;
  }

  handle-product :
      handle sl (frame_u32 cs_switch_selective_product v)
      ≡ (matched 1 sl.address.product_code, none)
  unfolding handle frame_u32 match_next matched
  handle-product =
      ap
        (λ (t : ℕ). (
          record sl {
            selective = if sl.selective == 1 && t == sl.address.product_code then 2 else 0;
          },
          none,
        ))
        (u32_at-frame_u32 cs_switch_selective_product v h)

  handle-revision :
      handle sl (frame_u32 cs_switch_selective_revision v)
      ≡ (matched 2 sl.address.revision_number, none)
  unfolding handle frame_u32 match_next matched
  handle-revision =
      ap
        (λ (t : ℕ). (
          record sl {
            selective = if sl.selective == 2 && t == sl.address.revision_number then 3 else 0;
          },
          none,
        ))
        (u32_at-frame_u32 cs_switch_selective_revision v h)

  handle-serial : handle sl (frame_u32 cs_switch_selective_serial v) ≡ (
      if sl.selective == 3 && v == sl.address.serial_number
      then (
        record sl { selective = 0; state = configuration },
        some (frame cs_switch_selective_response),
      )
      else (record sl { selective = 0 }, none))
  unfolding handle frame_u32 on_switch_serial
  handle-serial =
      ap
        (λ (t : ℕ).
          (if sl.selective == 3 && t == sl.address.serial_number
            then (
              record sl { selective = 0; state = configuration },
              some (frame cs_switch_selective_response),
            )
            else (record sl { selective = 0 }, none)))
        (u32_at-frame_u32 cs_switch_selective_serial v h)

-- All four values are those of the slave.
abbrev pub same_address : LssAddress → LssAddress → Bool
same_address a b =
    a.vendor_id == b.vendor_id
    && (a.product_code == b.product_code
        && (a.revision_number == b.revision_number && a.serial_number == b.serial_number))

same_address_iff :
    (a b : LssAddress) → (same_address a b ≡ true → a ≡ b) × (same_address a b ≡ false → a ≢ b)
same_address_iff a b = (λ e. ground arith, λ e same. ground arith)

-- The four frames of the selective switch to an address of four 32-bit values put a slave into the
-- configuration state exactly if the address is its own, which only then it confirms, with the
-- answer to the fourth; else the slave keeps its state. A selection begun before is forgotten.
pub handle_all-select :
    (sl : LssSlave) (a : LssAddress)
    → IsValid a
    → handle_all sl (encode_switch_selective a) ≡ (
        if same_address a sl.address
        then (
          record sl { selective = 0; state = configuration },
          none ∷ none ∷ none ∷ some (frame cs_switch_selective_response) ∷ [],
        )
        else (record sl { selective = 0 }, none ∷ none ∷ none ∷ none ∷ []))
unfolding encode_switch_selective matched
handle_all-select sl a v =
    let s1 = record sl { selective = if a.vendor_id == sl.address.vendor_id then 1 else 0 } in
    let s2 = matched s1 a.product_code v.product_lt 1 sl.address.product_code in
    let s3 = matched s2 a.revision_number v.revision_lt 2 sl.address.revision_number in
    rw
      (
        handle-vendor sl a.vendor_id v.vendor_lt,
        handle-product s1 a.product_code v.product_lt,
        handle-revision s2 a.revision_number v.revision_lt,
        handle-serial s3 a.serial_number v.serial_lt,
      )
      (ground arith)
