-- ===== src/Sdo/Block.antt =====
-- core/src/sdo/block.rs: the frames of block transfer and the checksum of its data.
pub mod Crc
pub mod Remainder
pub mod Linear
pub mod Division
pub mod RoundTrip
pub mod Writer
pub mod Receiver
pub mod Transfer
pub mod Complete
use canopen_rs.Base.{
  ℕ, zero, suc, ◌+◌, ◌*◌, ◌/◌, ◌%◌, ◌^◌, Bool, true, false, not, ◌||◌, Option, none, some, List, [],
  ◌∷◌, length, get_or, ltb, ◌==◌, if◌then◌else◌, bit_and, bit_or, bit_xor,
}
use canopen_rs.Base.Bytes.{to_le_bytes, from_le_bytes}
use canopen_rs.Types.{Result, ok, err, bad_length, unexpected_command}
use canopen_rs.Objects.Address.{Address}
use canopen_rs.Sdo.Payload.{Payload, from_1, from_4, addressed, address_of, segment_data_max}
use canopen_rs.Sdo.Segment.{segment_frame}

abbrev pub cs_6 : ℕ
cs_6 = 0xc0

abbrev pub cs_5 : ℕ
cs_5 = 0xa0

abbrev pub cs_mask : ℕ
cs_mask = 0xe0

abbrev pub crc_supported : ℕ
crc_supported = 0x04

abbrev pub size_indicated : ℕ
size_indicated = 0x02

abbrev pub subcmd_mask : ℕ
subcmd_mask = 0x03

abbrev pub subcmd_initiate : ℕ
subcmd_initiate = 0x00

abbrev pub subcmd_end : ℕ
subcmd_end = 0x01

abbrev pub subcmd_response : ℕ
subcmd_response = 0x02

abbrev pub subcmd_start : ℕ
subcmd_start = 0x03

abbrev pub last_segment : ℕ
last_segment = 0x80

abbrev pub seqno_mask : ℕ
seqno_mask = 0x7f

abbrev pub max_blksize : ℕ
max_blksize = 127

-- One bit of the checksum.
unfoldable pub crc_shift : ℕ → ℕ
crc_shift crc =
    if not (bit_and crc 0x8000 == 0) then bit_xor (crc * 2 % 2 ^ 16) 0x1021 else crc * 2 % 2 ^ 16

unfoldable pub crc_shifts : ℕ → ℕ → ℕ
unfolding crc_shift
crc_shifts zero crc = crc
crc_shifts (suc n) crc = crc_shifts n (crc_shift crc)

-- The checksum of the data so far, with one more byte.
unfoldable pub crc_byte : ℕ → ℕ → ℕ
unfolding crc_shifts
crc_byte crc byte = crc_shifts 8 (bit_xor crc (byte * 2 ^ 8 % 2 ^ 16))

unfoldable pub crc_from : ℕ → List ℕ → ℕ
unfolding crc_byte
crc_from crc [] = crc
crc_from crc (byte ∷ bytes) = crc_from (crc_byte crc byte) bytes

unfoldable pub crc16 : List ℕ → ℕ
unfolding crc_from
crc16 bytes = crc_from 0 bytes

pub record BlockInitiate : Type 0 where
  pub address : Address
  pub size : Option ℕ
  pub crc_support : Bool

pub record BlockNegotiation : Type 0 where
  pub address : Address
  pub blksize : ℕ
  pub crc_support : Bool

pub record SubSegment : Type 0 where
  pub seqno : ℕ
  pub last : Bool
  pub content : List ℕ

-- The command byte of an initiate frame up to the size mark.
abbrev pub initiate_command : ℕ → Bool → ℕ
initiate_command cs crc =
    let command = bit_or cs subcmd_initiate in if crc then bit_or command crc_supported else command

unfoldable pub encode_initiate_with_size : ℕ → Address → Option ℕ → Bool → Payload
encode_initiate_with_size cs addr none crc = addressed (initiate_command cs crc) addr []
encode_initiate_with_size cs addr (some size) crc =
    addressed (bit_or (initiate_command cs crc) size_indicated) addr (to_le_bytes 4 size)

unfoldable pub decode_initiate_with_size : ℕ → Payload → Result BlockInitiate
decode_initiate_with_size cs p =
    if not (bit_and p.b0 cs_mask == cs) || not (bit_and p.b0 subcmd_end == 0)
    then err unexpected_command
    else ok (record {
      address = address_of p;
      size =
          if not (bit_and p.b0 size_indicated == 0) then some (from_le_bytes (from_4 p)) else none;
      crc_support = not (bit_and p.b0 crc_supported == 0);
    })

unfoldable pub encode_initiate_with_blksize : ℕ → Address → ℕ → Bool → Payload
encode_initiate_with_blksize cs addr blksize crc =
    addressed (initiate_command cs crc) addr (blksize ∷ [])

-- `p[0] & CS_MASK != cs || p[0] & SUBCMD_MASK != subcmd`
abbrev pub is_other : ℕ → ℕ → Payload → Bool
is_other cs subcmd p = not (bit_and p.b0 cs_mask == cs) || not (bit_and p.b0 subcmd_mask == subcmd)

unfoldable pub decode_initiate_with_blksize : ℕ → Payload → Result BlockNegotiation
decode_initiate_with_blksize cs p =
    if is_other cs subcmd_initiate p
    then err unexpected_command
    else ok (record {
      address = address_of p;
      blksize = p.b4;
      crc_support = not (bit_and p.b0 crc_supported == 0);
    })

unfoldable pub encode_download_initiate : Address → Option ℕ → Bool → Payload
unfolding encode_initiate_with_size
encode_download_initiate = encode_initiate_with_size cs_6

unfoldable pub decode_download_initiate : Payload → Result BlockInitiate
unfolding decode_initiate_with_size
decode_download_initiate = decode_initiate_with_size cs_6

unfoldable pub encode_download_initiate_response : Address → ℕ → Bool → Payload
unfolding encode_initiate_with_blksize
encode_download_initiate_response = encode_initiate_with_blksize cs_5

unfoldable pub decode_download_initiate_response : Payload → Result BlockNegotiation
unfolding decode_initiate_with_blksize
decode_download_initiate_response = decode_initiate_with_blksize cs_5

unfoldable pub encode_upload_initiate : Address → ℕ → Bool → Payload
unfolding encode_initiate_with_blksize
encode_upload_initiate = encode_initiate_with_blksize cs_5

unfoldable pub decode_upload_initiate : Payload → Result BlockNegotiation
unfolding decode_initiate_with_blksize
decode_upload_initiate = decode_initiate_with_blksize cs_5

unfoldable pub encode_upload_initiate_response : Address → Option ℕ → Bool → Payload
unfolding encode_initiate_with_size
encode_upload_initiate_response = encode_initiate_with_size cs_6

unfoldable pub decode_upload_initiate_response : Payload → Result BlockInitiate
unfolding decode_initiate_with_size
decode_upload_initiate_response = decode_initiate_with_size cs_6

unfoldable pub encode_upload_start : Payload
encode_upload_start = segment_frame (bit_or cs_5 subcmd_start) []

-- The decoders of the frames that carry a command only.
abbrev pub decode_command : ℕ → ℕ → Payload → Result (Unit {0})
decode_command cs subcmd p = if is_other cs subcmd p then err unexpected_command else ok tt

unfoldable pub decode_upload_start : Payload → Result (Unit {0})
decode_upload_start = decode_command cs_5 subcmd_start

unfoldable pub encode_sub_segment : ℕ → List ℕ → Bool → Result Payload
encode_sub_segment seqno content last =
    if seqno == 0
      || ltb max_blksize seqno
      || length content == 0
      || ltb segment_data_max (length content)
    then err bad_length
    else ok (segment_frame (if last then bit_or seqno last_segment else seqno) content)

unfoldable pub decode_sub_segment : Payload → SubSegment
decode_sub_segment p = record {
  seqno = bit_and p.b0 seqno_mask;
  last = not (bit_and p.b0 last_segment == 0);
  content = from_1 p;
}

unfoldable pub encode_sub_response : ℕ → ℕ → Payload
encode_sub_response ackseq blksize =
    segment_frame (bit_or cs_5 subcmd_response) (ackseq ∷ blksize ∷ [])

unfoldable pub decode_sub_response : Payload → Result (ℕ × ℕ)
decode_sub_response p =
    if is_other cs_5 subcmd_response p then err unexpected_command else ok (p.b1, p.b2)

unfoldable pub encode_end : ℕ → ℕ → Payload
encode_end unused crc =
    segment_frame (bit_or (bit_or cs_6 (bit_and unused 0x07 * 2 ^ 2)) subcmd_end)
      (to_le_bytes 2 crc)

unfoldable pub decode_end : Payload → Result (ℕ × ℕ)
decode_end p =
    if is_other cs_6 subcmd_end p
    then err unexpected_command
    else ok (bit_and (p.b0 / 2 ^ 2) 0x07, from_le_bytes (p.b1 ∷ p.b2 ∷ []))

unfoldable pub encode_end_response : Payload
encode_end_response = segment_frame (bit_or cs_5 subcmd_end) []

unfoldable pub decode_end_response : Payload → Result (Unit {0})
decode_end_response = decode_command cs_5 subcmd_end
