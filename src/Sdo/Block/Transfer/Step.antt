-- ===== src/Sdo/Block/Transfer/Step.antt =====
-- core/src/sdo/block.rs: one segment of a block transfer.
use canopen_rs.Base.{
  ℕ, suc, ◌+◌, ◌-◌, ◌*◌, ◌≤◌, ◌<◌, ◌≡◌, ◌∙◌, refl, sym, ap, min, Bool, true, false, some, List,
  length, leb, take, slice, replicate, ◌++◌, append_assoc, length-append, length-replicate,
  length-slice, length-take, take-slice, take_all, append-nil, ltb_no, leb_no, if◌then◌else◌, arith,
  inl, inr, Bool-cases,
}
use canopen_rs.Heapless.{BoundedVec}
use canopen_rs.Heapless.Vec.{extend_fits}
use canopen_rs.Types.{ok}
use canopen_rs.Types.Outcome.{done, ◌>>=◌, checked_sub_fits, checked_slice_fits}
use canopen_rs.Sdo.Payload.{Payload}
use canopen_rs.Sdo.Block.{SubSegment, encode_sub_segment, decode_sub_segment}
use canopen_rs.Sdo.Block.RoundTrip.{decode-encode_sub_segment}
use canopen_rs.Sdo.Block.Writer.{BlockWriter, is_done, next_segment}
use canopen_rs.Sdo.Block.Receiver.{BlockReceiver, push}

abbrev writer : List ℕ → ℕ → ℕ → ℕ → BlockWriter
writer content pos seqno blksize = record {
  content = content;
  pos = pos;
  seqno = seqno;
  blksize = blksize;
}

-- The writer of `content` that has made `n` segments, as the number `seqno` of a sub-block is next.
abbrev pub writer_at : List ℕ → ℕ → ℕ → ℕ → BlockWriter
writer_at content n = writer content (min (7 * n) (length content))

next_segment_lem :
    (content : List ℕ) (pos seqno blksize : ℕ) (p : Payload)
    → pos < length content
    → seqno ≤ blksize
    → encode_sub_segment seqno
        (slice pos (min (length content - pos) 7) content)
        (leb (length content - pos) 7)
      ≡ ok p
    → next_segment (writer content pos seqno blksize)
      ≡ done (writer content (pos + min (length content - pos) 7) (seqno + 1) blksize, some p)
unfolding next_segment is_done
next_segment_lem content pos seqno blksize p left within encoded =
    rw (leb_no (length content) pos left, ltb_no blksize seqno within)
      (rw (checked_sub_fits (length content) pos (omega (arith, left)), ◌>>=◌)
        (rw
          (
            checked_slice_fits pos (min (length content - pos) 7) content (omega (arith, left)),
            ◌>>=◌,
          )
          (rw (encoded, ◌>>=◌) refl)))

-- What `n` segments carry: the first bytes, and zeros where they end inside the last segment.
abbrev pub carried : List ℕ → ℕ → List ℕ
carried content n = take (7 * n) content ++ replicate (7 * n - length content) 0

module _ (content : List ℕ) (n seqno blksize : ℕ) (left : 7 * n < length content) (low : 1 ≤ seqno)
    (within : seqno ≤ blksize) (high : blksize ≤ 127) where
  abbrev pub bytes : List ℕ
  bytes = slice (7 * n) (min (length content - 7 * n) 7) content

  size : length bytes ≡ min (length content - 7 * n) 7
  size = omega (arith, length-slice (7 * n) (min (length content - 7 * n) 7) content)

  abbrev pub segment : SubSegment
  segment = record {
    seqno = seqno;
    last = leb (length content - 7 * n) 7;
    content = bytes ++ replicate (7 - length bytes) 0;
  }

  pub next_segment-at :
      (p : Payload) × (next_segment (writer_at content n seqno blksize)
        ≡ done (writer_at content (suc n) (seqno + 1) blksize, some p))
      × (decode_sub_segment p ≡ segment)
  next_segment-at =
      let (p, encoded, decoded) =
        decode-encode_sub_segment seqno bytes (leb (length content - 7 * n) 7) low (omega arith)
          (omega (arith, size)) (omega (arith, size)) in
      let before : min (7 * n) (length content) ≡ 7 * n = omega (arith, left) in
      let after : 7 * n + min (length content - 7 * n) 7 ≡ min (7 * suc n) (length content) =
        omega (arith, left) in
      (
        p,
        ap (λ (t : ℕ). next_segment (writer content t seqno blksize)) before
            ∙ next_segment_lem content (7 * n) seqno blksize p left within encoded
            ∙ ap (λ (t : ℕ). done (writer content t (seqno + 1) blksize, some p)) after,
        decoded,
      )

  take-capped : take (7 * n + min (length content - 7 * n) 7) content ≡ take (7 * suc n) content
  take-capped = elim (Bool-cases (leb 7 (length content - 7 * n))) [
    | inl full ↦ ap (λ (t : ℕ). take t content) (ground arith)
    | inr short ↦
        take_all (7 * n + min (length content - 7 * n) 7) content (ground arith)
        ∙ sym (take_all (7 * suc n) content (ground arith))
  ]

  carried-suc :
      carried content n ++ (bytes ++ replicate (7 - length bytes) 0) ≡ carried content (suc n)
  carried-suc =
      let none_yet : 7 * n - length content ≡ 0 = omega (arith, left) in
      let unused : 7 - length bytes ≡ 7 * suc n - length content = omega (arith, size, left) in
      let k = min (length content - 7 * n) 7 in
      rw (none_yet, unused, append-nil (take (7 * n) content))
        (sym (append_assoc (take (7 * n) content) bytes (replicate (7 * suc n - length content) 0))
          ∙ ap (λ t. t ++ replicate (7 * suc n - length content) 0)
              (take-slice (7 * n) k content ∙ take-capped))

  length-carried : length (carried content n) ≡ 7 * n
  length-carried =
      let none_yet : 7 * n - length content ≡ 0 = omega (arith, left) in
      rw (none_yet, append-nil (take (7 * n) content))
        (omega (arith, length-take (7 * n) content, left))

  length-segment : length (bytes ++ replicate (7 - length bytes) 0) ≡ 7
  length-segment = omega (
    arith,
    length-append bytes (replicate (7 - length bytes) 0),
    length-replicate {A = ℕ} (7 - length bytes) 0,
    size,
  )

module _ {N : ℕ} {V : Type 0} ⦃b : BoundedVec ℕ N V⦄ where
  -- The receiver that holds what `n` segments carry, and is done when they carry all.
  pub record Holds (content : List ℕ) (n : ℕ) (r : BlockReceiver N V) : Type 0 where
    pub held : b.as_slice r.buf ≡ carried content n
    pub ended : r.done ≡ leb (length content) (7 * n)

  push_accepts :
      (v : V) (seg : SubSegment) (v' : V)
      → b.extend_from_slice v seg.content ≡ some v'
      → push {N = N} (record { buf = v; done = false }) seg
        ≡ (record { buf = v'; done = if seg.last then true else false }, ok tt)
  unfolding push
  push_accepts v seg v' stored = rw stored refl

  module _ (content : List ℕ) (n seqno blksize : ℕ) (left : 7 * n < length content)
      (low : 1 ≤ seqno) (within : seqno ≤ blksize) (high : blksize ≤ 127) where
    pub push-segment :
        (r : BlockReceiver N V)
        → Holds content n r
        → 7 * suc n ≤ N
        → (r' : BlockReceiver N V) × (push r (segment content n seqno blksize left low within high)
            ≡ (r', ok tt))
          × Holds content (suc n) r'
    push-segment r h room =
        let bytes' = (segment content n seqno blksize left low within high).content in
        let before = length-carried content n seqno blksize left low within high in
        let added = length-segment content n seqno blksize left low within high in
        let (buf, stored, joined) =
          extend_fits N r.buf bytes' (rw h.held (omega (arith, before, added, room))) in
        let open_ : r.done ≡ false = h.ended ∙ leb_no (length content) (7 * n) left in
        (
          record { buf = buf; done = if leb (length content - 7 * n) 7 then true else false },
          ap
                (λ (d : Bool).
                  push {N = N} (record { buf = r.buf; done = d })
                    (segment content n seqno blksize left low within high))
                open_
              ∙ push_accepts r.buf (segment content n seqno blksize left low within high) buf
                  stored,
          record {
            held = joined ∙ rw h.held (carried-suc content n seqno blksize left low within high);
            ended = ground arith;
          },
        )
