-- ===== src/Sdo/Block/Transfer.antt =====
-- core/src/sdo/block.rs: a whole transfer, as the documentation of `BlockWriter` runs it.
pub mod Step
use canopen_rs.Base.{
  ℕ, zero, suc, ◌+◌, ◌-◌, ◌*◌, ◌/◌, ◌%◌, ◌≤◌, ◌<◌, ◌≡◌, ◌∙◌, refl, sym, ap, min, Bool, true, false,
  not, ◌&&◌, ◌||◌, Option, none, some, List, length, ltb, leb, leb_lem, leb_no, ltb_lem, ltb_no,
  take, if◌then◌else◌, arith, inl, inr, Bool-cases,
}
use canopen_rs.Heapless.{BoundedVec}
use canopen_rs.Types.{Result, ok, err}
use canopen_rs.Types.Outcome.{Outcome, done, ◌>>=◌}
use canopen_rs.Sdo.Payload.{Payload}
use canopen_rs.Sdo.Block.{decode_sub_segment}
use canopen_rs.Sdo.Block.Writer
use canopen_rs.Sdo.Block.Writer.{BlockWriter, next_segment, start_sub_block}
use canopen_rs.Sdo.Block.Receiver.{BlockReceiver, push, finish}
use canopen_rs.Sdo.Block.Transfer.Step.{
  writer_at, carried, next_segment-at, push-segment, Holds, segment,
}

next_segment-over :
    (content : List ℕ) (n seqno blksize : ℕ)
    → length content ≤ 7 * n
    → next_segment (writer_at content n seqno blksize)
      ≡ done (writer_at content n seqno blksize, none)
unfolding next_segment Writer.is_done
next_segment-over content n seqno blksize h =
    rw (leb_lem (length content) (min (7 * n) (length content)) (omega arith)) refl

next_segment-full :
    (content : List ℕ) (n seqno blksize : ℕ)
    → 7 * n < length content
    → blksize < seqno
    → next_segment (writer_at content n seqno blksize)
      ≡ done (writer_at content n seqno blksize, none)
unfolding next_segment Writer.is_done
next_segment-full content n seqno blksize left h =
    rw
      (
        leb_no (length content) (min (7 * n) (length content)) (omega (arith, left)),
        ltb_lem blksize seqno h,
      )
      refl

is_done-writer_at :
    (content : List ℕ) (n seqno blksize : ℕ)
    → Writer.is_done (writer_at content n seqno blksize) ≡ leb (length content) (7 * n)
unfolding Writer.is_done
is_done-writer_at content n seqno blksize = ground arith

module _ {N : ℕ} {V : Type 0} ⦃b : BoundedVec ℕ N V⦄ where
  -- The sub-blocks of a transfer: each segment goes to the receiver, and each acknowledgement sets
  -- the next sub-block's size. The first argument bounds the calls of `next_segment`; `none` if it
  -- runs out. A segment that the receiver refuses ends the transfer with its error.
  unfoldable pub send :
      ℕ
      → ℕ
      → BlockWriter
      → BlockReceiver N V
      → Outcome (Option (Result (BlockWriter × BlockReceiver N V)))
  send zero blksize w r = done none
  send (suc fuel) blksize w r = next_segment w >>= λ (w', frame). elim frame [
    | none ↦ elim (Writer.is_done w') [
      | true ↦ done (some (ok (w', r)))
      | false ↦ send fuel blksize (start_sub_block w' blksize) r
    ]
    | some p ↦
        let (r', result) = push r (decode_sub_segment p) in
        elim result [ ok _ ↦ send fuel blksize w' r' | err e ↦ done (some (err e)) ]
  ]

  module _ (fuel blksize : ℕ) (w : BlockWriter) (r : BlockReceiver N V) where
    send-over :
        next_segment w ≡ done (w, none)
        → Writer.is_done w ≡ true
        → send (suc fuel) blksize w r ≡ done (some (ok (w, r)))
    unfolding send
    send-over none_left over = rw (none_left, over, ◌>>=◌, send) refl

    send-full :
        next_segment w ≡ done (w, none)
        → Writer.is_done w ≡ false
        → send (suc fuel) blksize w r ≡ send fuel blksize (start_sub_block w blksize) r
    unfolding send
    send-full none_left more = rw (none_left, more, ◌>>=◌, send) refl

    send-segment :
        (w' : BlockWriter) (p : Payload) (r' : BlockReceiver N V)
        → next_segment w ≡ done (w', some p)
        → push r (decode_sub_segment p) ≡ (r', ok tt)
        → send (suc fuel) blksize w r ≡ send fuel blksize w' r'
    unfolding send
    send-segment w' p r' made taken =
        rw
          (
            made,
            ap (λ (t : BlockReceiver N V × Result (Unit {0})). t.1) taken,
            ap (λ (t : BlockReceiver N V × Result (Unit {0})). t.0) taken,
            ◌>>=◌,
            send,
          )
          refl

  -- All segments have been sent, and the receiver holds what they carry.
  pub record Sent (content : List ℕ)
      (result : Outcome (Option (Result (BlockWriter × BlockReceiver N V)))) : Type 0 where
    pub writer : BlockWriter
    pub receiver : BlockReceiver N V
    pub count : ℕ
    pub returns : result ≡ done (some (ok (writer, receiver)))
    pub same_content : writer.content ≡ content
    pub all_sent : length content ≤ 7 * count
    pub no_more : 7 * count < length content + 7
    pub holds : Holds content count receiver

  module _ (content : List ℕ) (next : ℕ) (next-low : 1 ≤ next) (next-high : next ≤ 127)
      (room : 7 * ((length content + 6) / 7) ≤ N) where
    pub send-Sent :
        (fuel n seqno blksize : ℕ) (r : BlockReceiver N V)
        → 1 ≤ seqno
        → seqno ≤ blksize + 1
        → 1 ≤ blksize
        → blksize ≤ 127
        → Holds content n r
        → 7 * n < length content + 7
        → 2 * (length content - 7 * n) + (if ltb blksize seqno then 1 else 0) < fuel
        → Sent content (send fuel next (writer_at content n seqno blksize) r)
    unfolding start_sub_block
    send-Sent zero n seqno blksize r low within some_ high h bound enough = absurd (omega arith)
    send-Sent (suc fuel) n seqno blksize r low within some_ high h bound enough =
        elim (Bool-cases (leb (length content) (7 * n))) [
          | inl over ↦
              let stops =
                send-over fuel next (writer_at content n seqno blksize) r
                  (next_segment-over content n seqno blksize (ground arith))
                  (is_done-writer_at content n seqno blksize ∙ over) in
              record {
                writer = writer_at content n seqno blksize;
                receiver = r;
                count = n;
                returns = stops;
                same_content = refl;
                all_sent = ground arith;
                no_more = bound;
                holds = h;
              }
          | inr more ↦ elim (Bool-cases (ltb blksize seqno)) [
            | inl full ↦
                rw
                  (
                    send-full fuel next (writer_at content n seqno blksize) r
                        (next_segment-full content n seqno blksize (ground arith) (ground arith))
                        (is_done-writer_at content n seqno blksize ∙ more),
                    start_sub_block,
                  )
                  (send-Sent fuel n 1 next r (omega arith) (omega arith) next-low next-high h bound
                    (ground arith))
            | inr open_ ↦
                let left : 7 * n < length content = ground arith in
                let fits : seqno ≤ blksize = ground arith in
                let (p, made, read) = next_segment-at content n seqno blksize left low fits high in
                let (r', taken, h') =
                  push-segment content n seqno blksize left low fits high r h
                    (omega (arith, left, room)) in
                rw
                  (send-segment fuel next (writer_at content n seqno blksize) r
                    (writer_at content (suc n) (seqno + 1) blksize) p r' made
                    (ap (push r) read ∙ taken))
                  (send-Sent fuel (suc n) (seqno + 1) blksize r' (omega arith) (omega arith) some_
                    high h' (omega (arith, left)) (ground arith))
          ]
        ]
