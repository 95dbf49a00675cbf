-- ===== src/Sdo/Block/RoundTrip.antt =====
-- core/src/sdo/block.rs: the frames of block transfer, read back.
use canopen_rs.Base.{
  ℕ, zero, suc, ◌+◌, ◌-◌, ◌*◌, ◌/◌, ◌^◌, ◌≤◌, ◌<◌, ◌≡◌, refl, Bool, true, false, Option, none, some,
  List, [], ◌∷◌, ◌++◌, length, replicate, arith, if◌then◌else◌, bit_or, not, ◌==◌, bit_and,
}
use canopen_rs.Base.Bytes.{from-to_le_bytes, to_le_bytes}
use canopen_rs.Base.Bits.{and_0x07, and_0x03, and_0xe0, and_0x7f, and_0x80, bit_or_low_fields}
use canopen_rs.Types.{ok}
use canopen_rs.Objects.Address
use canopen_rs.Objects.Address.{Address}
use canopen_rs.Sdo.Payload.{Payload, from_1}
use canopen_rs.Sdo.Segment.{segment_frame}
use canopen_rs.Sdo.Codec.RoundTrip.{address_of-addressed}
use canopen_rs.Sdo.Block.{
  decode_download_initiate, encode_download_initiate, decode_upload_initiate_response,
  encode_upload_initiate_response, decode_initiate_with_size, encode_initiate_with_size,
  decode_initiate_with_blksize, encode_initiate_with_blksize, decode_download_initiate_response,
  encode_download_initiate_response, decode_upload_initiate, encode_upload_initiate,
  encode_sub_segment, decode_sub_segment, encode_sub_response, decode_sub_response, encode_end,
  decode_end,
}

abbrev IsSize : Option ℕ → Type 0
IsSize none = Unit
IsSize (some size) = size < 2 ^ 32

module _ (addr : Address) (valid : Address.IsValid addr) where
  -- The initiate frame that carries a size, in both directions, is read back: its address, its size
  -- of at most 32 bits, if any, and whether checksums are supported.
  pub decode-encode_initiate_with_size :
      (size : Option ℕ) (crc : Bool)
      → IsSize size
      → (decode_download_initiate (encode_download_initiate addr size crc)
          ≡ ok (record { address = addr; size = size; crc_support = crc }))
        × (decode_upload_initiate_response (encode_upload_initiate_response addr size crc)
            ≡ ok (record { address = addr; size = size; crc_support = crc }))
  unfolding decode_initiate_with_size encode_initiate_with_size decode_download_initiate
      encode_download_initiate decode_upload_initiate_response encode_upload_initiate_response
  decode-encode_initiate_with_size none true h = (
    ground (arith, address_of-addressed 0xc4 addr [] valid),
    ground (arith, address_of-addressed 0xc4 addr [] valid),
  )
  decode-encode_initiate_with_size none false h = (
    ground (arith, address_of-addressed 0xc0 addr [] valid),
    ground (arith, address_of-addressed 0xc0 addr [] valid),
  )
  decode-encode_initiate_with_size (some size) true h =
      let place = address_of-addressed 0xc6 addr (to_le_bytes 4 size) valid in
      let whole = from-to_le_bytes 4 size h in
      (ground (arith, place, whole), ground (arith, place, whole))
  decode-encode_initiate_with_size (some size) false h =
      let place = address_of-addressed 0xc2 addr (to_le_bytes 4 size) valid in
      let whole = from-to_le_bytes 4 size h in
      (ground (arith, place, whole), ground (arith, place, whole))

  -- The initiate frame that carries a block size, in both directions, is read back: its address, its
  -- block size, and whether checksums are supported.
  pub decode-encode_initiate_with_blksize :
      (blksize : ℕ) (crc : Bool)
      → (decode_download_initiate_response (encode_download_initiate_response addr blksize crc)
          ≡ ok (record { address = addr; blksize = blksize; crc_support = crc }))
        × (decode_upload_initiate (encode_upload_initiate addr blksize crc)
            ≡ ok (record { address = addr; blksize = blksize; crc_support = crc }))
  unfolding decode_initiate_with_blksize encode_initiate_with_blksize
      decode_download_initiate_response encode_download_initiate_response decode_upload_initiate
      encode_upload_initiate
  decode-encode_initiate_with_blksize blksize true = (
    ground (arith, address_of-addressed 0xa4 addr (blksize ∷ []) valid),
    ground (arith, address_of-addressed 0xa4 addr (blksize ∷ []) valid),
  )
  decode-encode_initiate_with_blksize blksize false = (
    ground (arith, address_of-addressed 0xa0 addr (blksize ∷ []) valid),
    ground (arith, address_of-addressed 0xa0 addr (blksize ∷ []) valid),
  )

pad :
    (c : ℕ) (xs : List ℕ)
    → length xs ≤ 7
    → from_1 (segment_frame c xs) ≡ xs ++ replicate (7 - length xs) 0
pad c [] h = refl
pad c (x1 ∷ []) h = refl
pad c (x1 ∷ x2 ∷ []) h = refl
pad c (x1 ∷ x2 ∷ x3 ∷ []) h = refl
pad c (x1 ∷ x2 ∷ x3 ∷ x4 ∷ []) h = refl
pad c (x1 ∷ x2 ∷ x3 ∷ x4 ∷ x5 ∷ []) h = refl
pad c (x1 ∷ x2 ∷ x3 ∷ x4 ∷ x5 ∷ x6 ∷ []) h = refl
pad c (x1 ∷ x2 ∷ x3 ∷ x4 ∷ x5 ∷ x6 ∷ x7 ∷ []) h = refl
pad c (x1 ∷ x2 ∷ x3 ∷ x4 ∷ x5 ∷ x6 ∷ x7 ∷ x8 ∷ xs) h = absurd (omega arith)

-- The number and the last mark of a segment.
seqno_command :
    (seqno : ℕ) (last : Bool)
    → seqno ≤ 127
    → let command = if last then bit_or seqno 0x80 else seqno in
      (bit_and command 0x7f ≡ seqno) × (not (bit_and command 0x80 == 0) ≡ last)
seqno_command seqno true h = (
  ground (arith, bit_or_low_fields 7 1 seqno, and_0x7f (128 + seqno)),
  ground (arith, bit_or_low_fields 7 1 seqno, and_0x80 (128 + seqno)),
)
seqno_command seqno false h = (ground (arith, and_0x7f seqno), ground (arith, and_0x80 seqno))

-- A segment of one to seven bytes with a number from 1 to 127 is read back: its number, its last
-- mark, and its bytes, with zeros up to seven.
pub decode-encode_sub_segment :
    (seqno : ℕ) (xs : List ℕ) (last : Bool)
    → 1 ≤ seqno
    → seqno ≤ 127
    → 1 ≤ length xs
    → length xs ≤ 7
    → (p : Payload) × (encode_sub_segment seqno xs last ≡ ok p)
      × (decode_sub_segment p
          ≡ record { seqno = seqno; last = last; content = xs ++ replicate (7 - length xs) 0 })
unfolding encode_sub_segment decode_sub_segment
decode-encode_sub_segment seqno xs last h k l m = (
  segment_frame (if last then bit_or seqno 0x80 else seqno) xs,
  ground arith,
  let command = seqno_command seqno last k in
      (λ i. record {
        seqno = command.0 i;
        last = command.1 i;
        content = pad (if last then bit_or seqno 0x80 else seqno) xs m i;
      }),
)

end_command :
    (unused : ℕ)
    → unused < 8
    → bit_or (bit_or 0xc0 (bit_and unused 0x07 * 2 ^ 2)) 0x01 ≡ 0xc1 + unused * 4
end_command zero h = refl
end_command (suc zero) h = refl
end_command (suc (suc zero)) h = refl
end_command (suc (suc (suc zero))) h = refl
end_command (suc (suc (suc (suc zero)))) h = refl
end_command (suc (suc (suc (suc (suc zero))))) h = refl
end_command (suc (suc (suc (suc (suc (suc zero)))))) h = refl
end_command (suc (suc (suc (suc (suc (suc (suc zero))))))) h = refl
end_command (suc (suc (suc (suc (suc (suc (suc (suc u)))))))) h = absurd (omega arith)

-- The end frame is read back: how many bytes of the last segment are unused, fewer than eight, and
-- the 16-bit checksum.
pub decode-encode_end :
    (unused crc : ℕ)
    → unused < 8
    → crc < 2 ^ 16
    → decode_end (encode_end unused crc) ≡ ok (unused, crc)
unfolding encode_end decode_end
decode-encode_end unused crc h k = rw (end_command unused h) (
    ground (
      arith,
      from-to_le_bytes 2 crc k,
      and_0xe0 (0xc1 + unused * 4),
      and_0x03 (0xc1 + unused * 4),
      and_0x07 ((0xc1 + unused * 4) / 2 ^ 2),
    ))

-- The acknowledgement of a sub-block is read back.
pub decode-encode_sub_response :
    (ackseq blksize : ℕ)
    → decode_sub_response (encode_sub_response ackseq blksize) ≡ ok (ackseq, blksize)
unfolding encode_sub_response decode_sub_response
decode-encode_sub_response ackseq blksize = refl
