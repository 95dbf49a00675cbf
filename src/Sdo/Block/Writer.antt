-- ===== src/Sdo/Block/Writer.antt =====
-- core/src/sdo/block.rs: `BlockWriter`, which splits the data into sub-blocks of segments.
use canopen_rs.Base.{
  ℕ, ◌+◌, ◌-◌, ◌%◌, min, Bool, not, ◌&&◌, ◌||◌, Option, none, some, List, length, leb, ltb, ◌==◌,
  if◌then◌else◌,
}
use canopen_rs.Types.Outcome.{Outcome, done, expect, checked_sub, checked_slice, ◌>>=◌}
use canopen_rs.Sdo.Payload.{Payload, segment_data_max}
use canopen_rs.Sdo.Block.{encode_sub_segment, encode_end, crc16}

pub record BlockWriter : Type 0 where
  pub content : List ℕ
  pub pos : ℕ
  pub seqno : ℕ
  pub blksize : ℕ

unfoldable pub new : List ℕ → ℕ → BlockWriter
new content blksize = record { content = content; pos = 0; seqno = 1; blksize = blksize }

unfoldable pub is_done : BlockWriter → Bool
is_done w = leb (length w.content) w.pos

-- The writer after the call, and the segment. `self.seqno + 1` does not wrap its byte, since a
-- number above 127 makes the `expect` before it panic.
unfoldable pub next_segment : BlockWriter → Outcome (BlockWriter × Option Payload)
unfolding is_done
next_segment w = if is_done w || ltb w.blksize w.seqno then done (w, none) else do
  remaining ← checked_sub (length w.content) w.pos
  let len = min remaining segment_data_max
  let last = leb remaining segment_data_max
  bytes ← checked_slice w.pos len w.content
  frame ← expect (encode_sub_segment w.seqno bytes last)
  done (record w { pos = w.pos + len; seqno = w.seqno + 1 }, some frame)

unfoldable pub start_sub_block : BlockWriter → ℕ → BlockWriter
start_sub_block w blksize = record w { seqno = 1; blksize = blksize }

-- The bytes of the last segment.
unfoldable pub last_len : List ℕ → ℕ
last_len content =
    let r = length content % segment_data_max in
    if r == 0 && not (length content == 0) then segment_data_max else r

unfoldable pub end_frame : BlockWriter → Bool → Payload
end_frame w crc_support =
    encode_end (segment_data_max - last_len w.content) (if crc_support then crc16 w.content else 0)
