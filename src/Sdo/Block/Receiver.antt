-- ===== src/Sdo/Block/Receiver.antt =====
-- core/src/sdo/block.rs: `BlockReceiver`, which puts the segments together.
use canopen_rs.Base.{
  ℕ, ◌-◌, Bool, true, false, not, ◌&&◌, none, some, List, length, ltb, ◌==◌, if◌then◌else◌,
}
use canopen_rs.Heapless.{BoundedVec}
use canopen_rs.Types.{Result, ok, err, unexpected_command, overflow, bad_length, crc_mismatch}
use canopen_rs.Sdo.Block.{SubSegment, crc16}

pub record BlockReceiver (N : ℕ) (V : Type 0) : Type 0 where
  pub buf : V
  pub done : Bool

module _ {N : ℕ} {V : Type 0} ⦃b : BoundedVec ℕ N V⦄ where
  unfoldable pub new : BlockReceiver N V
  new = record { buf = b.new; done = false }

  -- The receiver after the call.
  unfoldable pub push : BlockReceiver N V → SubSegment → BlockReceiver N V × Result (Unit {0})
  push r segment =
      if r.done
      then (r, err unexpected_command)
      else elim (b.extend_from_slice r.buf segment.content) [
        | none ↦ (r, err overflow)
        | some buf ↦ (record { buf = buf; done = if segment.last then true else r.done }, ok tt)
      ]

  -- The receiver after the call, and the data.
  unfoldable pub finish : BlockReceiver N V → ℕ → ℕ → Bool → BlockReceiver N V × Result (List ℕ)
  finish r unused crc verify_crc =
      if ltb (length (b.as_slice r.buf)) unused
      then (r, err bad_length)
      else let buf = b.truncate r.buf (length (b.as_slice r.buf) - unused) in
        if verify_crc && not (crc16 (b.as_slice buf) == crc)
        then (record r { buf = buf }, err crc_mismatch)
        else (record r { buf = buf }, ok (b.as_slice buf))
