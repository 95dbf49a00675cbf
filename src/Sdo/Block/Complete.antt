-- ===== src/Sdo/Block/Complete.antt =====
-- core/src/sdo/block.rs: the end of a block transfer.
use canopen_rs.Base.{
  ℕ, ◌+◌, ◌-◌, ◌*◌, ◌/◌, ◌^◌, ◌≤◌, ◌<◌, ◌≡◌, ◌≢◌, ◌∙◌, refl, sym, ap, Bool, true, false, not, ◌&&◌,
  some, List, ◌∷◌, ◌++◌, length, replicate, length-append, length-replicate, take-append, take_all,
  leb_lem, leb_no, ltb_no, take, if◌then◌else◌, ◌==◌, arith, inl, inr, Bool-cases, All,
}
use canopen_rs.Base.Bytes.{IsByte}
use canopen_rs.Heapless.{BoundedVec}
use canopen_rs.Types.{ok, err, crc_mismatch}
use canopen_rs.Types.Outcome.{done}
use canopen_rs.Sdo.Block.{crc16, decode_end}
use canopen_rs.Sdo.Block.Crc.{crc16-lt, crc16-differs}
use canopen_rs.Sdo.Block.RoundTrip.{decode-encode_end}
use canopen_rs.Sdo.Block.Writer
use canopen_rs.Sdo.Block.Writer.{BlockWriter, last_len, end_frame}
use canopen_rs.Sdo.Block.Receiver
use canopen_rs.Sdo.Block.Receiver.{BlockReceiver, finish}
use canopen_rs.Sdo.Block.Transfer.{send, send-Sent}
use canopen_rs.Sdo.Block.Transfer.Step.{Holds, carried, writer_at}

-- The checksum that the end frame carries.
abbrev pub checksum : Bool → List ℕ → ℕ
checksum crc_support content = if crc_support then crc16 content else 0

checksum-lt :
    (crc_support : Bool) (content : List ℕ)
    → All IsByte content
    → checksum crc_support content < 2 ^ 16
checksum-lt true content h = crc16-lt content h
checksum-lt false content h = omega arith

-- The bytes of the last of `n` segments that carry none of the content.
last_len-unused :
    (content : List ℕ) (n : ℕ)
    → 1 ≤ length content
    → length content ≤ 7 * n
    → 7 * n < length content + 7
    → 7 - last_len content ≡ 7 * n - length content
unfolding last_len
last_len-unused content n some_ all no_more = ground arith

decode-end_frame :
    (w : BlockWriter) (content : List ℕ) (n : ℕ) (crc_support : Bool)
    → w.content ≡ content
    → All IsByte content
    → 1 ≤ length content
    → length content ≤ 7 * n
    → 7 * n < length content + 7
    → decode_end (end_frame w crc_support)
      ≡ ok (7 * n - length content, checksum crc_support content)
unfolding end_frame
decode-end_frame w content n crc_support same h some_ all no_more =
    rw (same, last_len-unused content n some_ all no_more)
      (decode-encode_end (7 * n - length content) (checksum crc_support content)
        (omega (arith, some_, no_more)) (checksum-lt crc_support content h))

length-carried :
    (content : List ℕ) (n : ℕ) → length content ≤ 7 * n → length (carried content n) ≡ 7 * n
length-carried content n all = rw (take_all (7 * n) content all) (
    omega (
      arith,
      length-append content (replicate (7 * n - length content) 0),
      length-replicate {A = ℕ} (7 * n - length content) 0,
    ))

take-carried :
    (content : List ℕ) (n : ℕ)
    → length content ≤ 7 * n
    → take (length content) (carried content n) ≡ content
take-carried content n all =
    rw (take_all (7 * n) content all) (take-append content (replicate (7 * n - length content) 0))

verified :
    (crc_support : Bool) (content : List ℕ)
    → (if crc_support && not (crc16 content == checksum crc_support content)
        then err crc_mismatch
        else ok content)
      ≡ ok content
verified true content = ground arith
verified false content = refl

different : (a b : ℕ) → a ≢ b → not (a == b) ≡ true
different a b h = ground arith

module _ {N : ℕ} {V : Type 0} ⦃b : BoundedVec ℕ N V⦄ where
  -- The data of a receiver without the unused tail.
  finish_lem :
      (r : BlockReceiver N V) (unused crc : ℕ) (verify : Bool) (content : List ℕ)
      → unused ≤ length (b.as_slice r.buf)
      → take (length (b.as_slice r.buf) - unused) (b.as_slice r.buf) ≡ content
      → (finish r unused crc verify).1
        ≡ (if verify && not (crc16 content == crc) then err crc_mismatch else ok content)
  unfolding finish
  finish_lem r unused crc verify content enough same =
      let kept = b.as_slice-truncate r.buf (length (b.as_slice r.buf) - unused) ∙ same in
      rw (ltb_no (length (b.as_slice r.buf)) unused enough, kept)
        (elim (Bool-cases (verify && not (crc16 content == crc))) [
          | inl wrong ↦ rw wrong refl
          | inr right ↦ rw right refl
        ])

  -- A receiver that is to verify checksums refuses with a checksum error, when the bytes it holds
  -- less the unused ones differ in exactly one byte from those that the checksum was computed of.
  pub finish-detects :
      (r : BlockReceiver N V) (unused : ℕ) (before after : List ℕ) (x y : ℕ)
      → All IsByte before
      → All IsByte after
      → x < 256
      → y < 256
      → x ≢ y
      → unused ≤ length (b.as_slice r.buf)
      → take (length (b.as_slice r.buf) - unused) (b.as_slice r.buf) ≡ before ++ x ∷ after
      → (finish r unused (crc16 (before ++ y ∷ after)) true).1 ≡ err crc_mismatch
  finish-detects r unused before after x y h k l m other enough same =
      let differs = crc16-differs before after x y h k l m other in
      finish_lem r unused (crc16 (before ++ y ∷ after)) true (before ++ x ∷ after) enough same
      ∙ rw (different (crc16 (before ++ x ∷ after)) (crc16 (before ++ y ∷ after)) differs) refl

  new-Holds : (content : List ℕ) → 1 ≤ length content → Holds {N = N} {V = V} content 0 Receiver.new
  unfolding Receiver.new
  new-Holds content some_ = record {
    held =
        b.as_slice-new ∙ (let none_yet : 0 - length content ≡ 0 = omega arith in rw none_yet refl);
    ended = sym (leb_no (length content) 0 some_);
  }

  finish-carried :
      (content : List ℕ) (n : ℕ) (r : BlockReceiver N V) (crc_support : Bool)
      → length content ≤ 7 * n
      → Holds content n r
      → (finish r (7 * n - length content) (checksum crc_support content) crc_support).1
        ≡ ok content
  finish-carried content n r crc_support all h =
      let size = length-carried content n all in
      let enough : 7 * n - length content ≤ length (b.as_slice r.buf) =
        rw h.held (omega (arith, size)) in
      let kept : length (carried content n) - (7 * n - length content) ≡ length content =
        omega (arith, size, all) in
      finish_lem r (7 * n - length content) (checksum crc_support content) crc_support content
        enough (rw (h.held, kept) (take-carried content n all))
      ∙ verified crc_support content

  -- A transfer of one byte or more, with sub-blocks of 1 to 127 segments, to a receiver with room for
  -- all segments, ends within two calls of `next_segment` for each byte and one more: the receiver is
  -- done, and with what the end frame says it finishes with the same bytes, its checksum checked if it is supported.
  pub send-finish :
      (content : List ℕ) (first next : ℕ) (crc_support : Bool)
      → All IsByte content
      → 1 ≤ length content
      → 1 ≤ first
      → first ≤ 127
      → 1 ≤ next
      → next ≤ 127
      → 7 * ((length content + 6) / 7) ≤ N
      → (w : BlockWriter) × (r : BlockReceiver N V) × (unused : ℕ) × (sum : ℕ) × (send
            (2 * length content + 1)
            next
            (Writer.new content first)
            Receiver.new
          ≡ done (some (ok (w, r))))
        × (r.done ≡ true)
        × (decode_end (end_frame w crc_support) ≡ ok (unused, sum))
        × ((finish r unused sum crc_support).1 ≡ ok content)
  unfolding Writer.new
  send-finish content first next crc_support bytes some_ first-low first-high next-low next-high
        room =
      let start : Writer.new content first ≡ writer_at content 0 1 first =
        ap (λ (t : ℕ). record { content = content; pos = t; seqno = 1; blksize = first })
          (omega arith) in
      let sent =
        send-Sent content next next-low next-high room (2 * length content + 1) 0 1 first
          Receiver.new (omega arith) (omega arith) first-low first-high (new-Holds content some_)
          (omega arith) (ground (arith, ltb_no first 1 first-low)) in
      let n = sent.count in
      (
        sent.writer,
        sent.receiver,
        7 * n - length content,
        checksum crc_support content,
        rw start sent.returns,
        sent.holds.ended ∙ leb_lem (length content) (7 * n) sent.all_sent,
        decode-end_frame sent.writer content n crc_support sent.same_content bytes some_
            sent.all_sent sent.no_more,
        finish-carried content n sent.receiver crc_support sent.all_sent sent.holds,
      )
