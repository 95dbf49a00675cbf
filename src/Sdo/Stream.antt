-- ===== src/Sdo/Stream.antt =====
-- core/src/sdo/mod.rs: splitting bytes into segments, and putting segments together.
use canopen_rs.Base.{
  ℕ, ◌+◌, ◌-◌, ◌≤◌, ◌<◌, ◌≡◌, ◌∙◌, refl, min, Bool, false, not, Option, none, some, List, length,
  take, slice, take-slice, length-slice, length-take, ap, leb, leb_no, differ, differ_self,
  if◌then◌else◌, arith,
}
use canopen_rs.Heapless.{BoundedVec}
use canopen_rs.Heapless.Vec.{extend_fits}
use canopen_rs.Types.{Result, ok, err, unexpected_command, toggle_mismatch, overflow}
use canopen_rs.Types.Outcome.{
  Outcome, done, expect, checked_sub, checked_slice, checked_sub_fits, checked_slice_fits, ◌>>=◌,
}
use canopen_rs.Sdo.Payload.{Payload, segment_data_max}
use canopen_rs.Sdo.Segment.{Segment, encode_data_segment, decode_data_segment}
use canopen_rs.Sdo.Segment.RoundTrip.{decode-encode_data_segment}

pub record SegmentWriter : Type 0 where
  pub content : List ℕ
  pub pos : ℕ
  pub toggle : Bool

unfoldable pub is_done : SegmentWriter → Bool
is_done w = leb (length w.content) w.pos

-- The writer after the call, and the next frame.
unfoldable pub next_segment : SegmentWriter → Outcome (SegmentWriter × Option Payload)
unfolding is_done
next_segment w = if is_done w then done (w, none) else do
  remaining ← checked_sub (length w.content) w.pos
  let len = min remaining segment_data_max
  let last = leb remaining segment_data_max
  bytes ← checked_slice w.pos len w.content
  frame ← expect (encode_data_segment bytes w.toggle last)
  done (record w { pos = w.pos + len; toggle = not w.toggle }, some frame)

next_segment_lem :
    (w : SegmentWriter) (p : Payload)
    → w.pos < length w.content
    → encode_data_segment
        (slice w.pos (min (length w.content - w.pos) 7) w.content)
        w.toggle
        (leb (length w.content - w.pos) 7)
      ≡ ok p
    → next_segment w
      ≡ done (
        record w { pos = w.pos + min (length w.content - w.pos) 7; toggle = not w.toggle },
        some p,
      )
unfolding next_segment is_done
next_segment_lem w p left encoded = rw (leb_no (length w.content) w.pos left) (
    rw (checked_sub_fits (length w.content) w.pos (omega (arith, left)), ◌>>=◌)
      (rw
        (
          checked_slice_fits w.pos (min (length w.content - w.pos) 7) w.content
              (omega (arith, left)),
          ◌>>=◌,
        )
        (rw (encoded, ◌>>=◌) refl)))

pub record SegmentReader (N : ℕ) (V : Type 0) : Type 0 where
  pub buf : V
  pub toggle : Bool
  pub complete : Bool

module _ {N : ℕ} {V : Type 0} ⦃b : BoundedVec ℕ N V⦄ where
  -- The reader after the call.
  unfoldable pub push : SegmentReader N V → Segment → SegmentReader N V × Result (Unit {0})
  push r seg =
      if r.complete
      then (r, err unexpected_command)
      else if differ seg.toggle r.toggle
      then (r, err toggle_mismatch)
      else elim (b.extend_from_slice r.buf seg.content) [
        | none ↦ (r, err overflow)
        | some buf ↦ (record { buf = buf; toggle = not r.toggle; complete = seg.last }, ok tt)
      ]

  -- The reader holds what the writer has written, and is complete when the writer is done.
  pub record InStep (w : SegmentWriter) (r : SegmentReader N V) : Type 0 where
    pub within : w.pos ≤ length w.content
    pub held : b.as_slice r.buf ≡ take w.pos w.content
    pub same_toggle : r.toggle ≡ w.toggle

  push_accepts :
      (r : SegmentReader N V) (seg : Segment) (buf : V)
      → r.complete ≡ false
      → r.toggle ≡ seg.toggle
      → b.extend_from_slice r.buf seg.content ≡ some buf
      → push r seg ≡ (record { buf = buf; toggle = not r.toggle; complete = seg.last }, ok tt)
  unfolding push
  push_accepts r seg buf open_ same stored =
      let in_step : differ seg.toggle r.toggle ≡ false = rw same (differ_self seg.toggle) in
      rw open_ (rw in_step (rw stored refl))

  -- While bytes are left and the reader, in step with the writer and not complete, has room for all
  -- of them, `next_segment` gives a frame, which decodes to a segment that `push` accepts; the two
  -- are in step again, further on, and the reader is complete exactly when the writer is done.
  pub push-next_segment :
      (w : SegmentWriter) (r : SegmentReader N V)
      → InStep w r
      → r.complete ≡ false
      → w.pos < length w.content
      → length w.content ≤ N
      → (w' : SegmentWriter) × (p : Payload) × (seg : Segment) × (next_segment w
          ≡ done (w', some p))
        × (decode_data_segment p ≡ ok seg)
        × ((push r seg).1 ≡ ok tt)
        × InStep w' (push r seg).0
        × (w.pos < w'.pos)
        × ((push r seg).0.complete ≡ is_done w')
  unfolding is_done
  push-next_segment w r step open_ left room =
      let n = length w.content - w.pos in
      let k = min n 7 in
      let bytes = slice w.pos k w.content in
      let size : length bytes ≡ k = omega (arith, length-slice w.pos k w.content) in
      let start : length (take w.pos w.content) ≡ w.pos =
        omega (arith, length-take w.pos w.content, left) in
      let (p, encoded, decoded) =
        decode-encode_data_segment bytes w.toggle (leb n 7) (omega (arith, size)) in
      let (buf, stored, content) =
        extend_fits N r.buf bytes (rw step.held (omega (arith, start, size, left, room))) in
      let accepted =
        push_accepts r (record { toggle = w.toggle; last = leb n 7; content = bytes }) buf open_
          (step.same_toggle) stored in
      (
        record w { pos = w.pos + k; toggle = not w.toggle },
        p,
        record { toggle = w.toggle; last = leb n 7; content = bytes },
        next_segment_lem w p left encoded,
        decoded,
        rw accepted refl,
        rw accepted (record {
          within = omega (arith, left);
          held = content ∙ rw step.held (take-slice w.pos k w.content);
          same_toggle = ap not step.same_toggle;
        }),
        omega (arith, left),
        rw accepted (ground arith),
      )
