-- ===== src/Examples/Blocks.antt =====
-- A block transfer of nine bytes.
use canopen_rs.Sdo.Block.Remainder.{remainder, message_bits}
use canopen_rs.Sdo.Block.Division.{crc16-remainder}
use canopen_rs.Base.{ℕ, ◌≡◌, ◌≢◌, refl, true, some, List, [], ◌∷◌, arith, ◌++◌, replicate}
use canopen_rs.Types.{ok, err, crc_mismatch}
use canopen_rs.Types.Outcome.{done}
use canopen_rs.Sdo.Payload.{Payload}
use canopen_rs.Sdo.Block.{crc16, decode_end, encode_sub_segment, decode_sub_segment}
use canopen_rs.Sdo.Block.Crc.{crc16-differs}
use canopen_rs.Sdo.Block.RoundTrip.{decode-encode_sub_segment}
use canopen_rs.Sdo.Block.Writer
use canopen_rs.Sdo.Block.Writer.{BlockWriter, end_frame}
use canopen_rs.Sdo.Block.Receiver
use canopen_rs.Sdo.Block.Receiver.{BlockReceiver, finish}
use canopen_rs.Sdo.Block.Transfer.{send}
use canopen_rs.Sdo.Block.Complete.{send-finish, finish-detects}
use canopen_rs.Examples.Containers.{bytes_vec}

abbrev firmware : List ℕ
firmware = 1 ∷ 2 ∷ 3 ∷ 4 ∷ 5 ∷ 6 ∷ 7 ∷ 8 ∷ 9 ∷ []

abbrev Receiver32 : Type 0
Receiver32 = BlockReceiver 32 (List ℕ)

send-finish_example :
    (w : BlockWriter) × (r : Receiver32) × (unused : ℕ) × (sum : ℕ) × (send 19 1
        (Writer.new firmware 127)
        (Receiver.new {N = 32})
      ≡ done (some (ok (w, r))))
    × (r.done ≡ true)
    × (decode_end (end_frame w true) ≡ ok (unused, sum))
    × ((finish {N = 32} r unused sum true).1 ≡ ok firmware)
send-finish_example =
    send-finish firmware 127 1 true (ground arith) (omega arith) (omega arith) (omega arith)
      (omega arith) (omega arith) (omega arith)

abbrev damaged : Receiver32
damaged = record { buf = 1 ∷ 2 ∷ 4 ∷ 0 ∷ 0 ∷ 0 ∷ 0 ∷ []; done = true }

finish-detects_example :
    (finish {N = 32} damaged 4 (crc16 (1 ∷ 2 ∷ 3 ∷ [])) true).1 ≡ err crc_mismatch
finish-detects_example =
    finish-detects {N = 32} damaged 4 (1 ∷ 2 ∷ []) [] 4 3 (ground arith) tt (omega arith)
      (omega arith) (λ e. omega (arith, e)) (omega arith) refl

crc16-remainder_example : crc16 firmware ≡ remainder 0 (message_bits firmware ++ replicate 16 0)
crc16-remainder_example = crc16-remainder firmware (ground arith)

crc16-differs_example : crc16 (1 ∷ 2 ∷ 3 ∷ []) ≢ crc16 (1 ∷ 7 ∷ 3 ∷ [])
crc16-differs_example =
    crc16-differs (1 ∷ []) (3 ∷ []) 2 7 (ground arith) (ground arith) (omega arith) (omega arith)
      (λ e. omega (arith, e))

decode-encode_sub_segment_example :
    (p : Payload) × (encode_sub_segment 2 (8 ∷ 9 ∷ []) true ≡ ok p)
    × (decode_sub_segment p
        ≡ record { seqno = 2; last = true; content = 8 ∷ 9 ∷ 0 ∷ 0 ∷ 0 ∷ 0 ∷ 0 ∷ [] })
decode-encode_sub_segment_example =
    decode-encode_sub_segment 2 (8 ∷ 9 ∷ []) true (omega arith) (omega arith) (omega arith)
      (omega arith)

-- The value that the documentation of `crc16` gives for the text "123456789".
crc16_check : crc16 (49 ∷ 50 ∷ 51 ∷ 52 ∷ 53 ∷ 54 ∷ 55 ∷ 56 ∷ 57 ∷ []) ≡ 0x31c3
unfolding crc16
crc16_check = refl
