-- ===== src/Sdo/Codec.antt =====
-- core/src/sdo/mod.rs: the frame codecs of expedited and segmented transfer.
pub mod RoundTrip
use canopen_rs.Base.{
  ℕ, ◌-◌, ◌*◌, ◌/◌, ◌^◌, Bool, true, false, not, ◌&&◌, ◌||◌, Option, none, some, List, [], ltb,
  ◌==◌, if◌then◌else◌, take, replicate, bit_and, bit_or,
}
use canopen_rs.Base.Bytes.{to_le_bytes, from_le_bytes}
use canopen_rs.Types.{
  Result, ok, err, unsupported_transfer, unexpected_command, type_mismatch, ◌>>=◌,
}
use canopen_rs.Datatypes.DataType.{DataType, fixed_size}
use canopen_rs.Datatypes.Value
use canopen_rs.Datatypes.Value.{Value, encode_le, decode_le}
use canopen_rs.Objects.Address.{Address}
use canopen_rs.Sdo.Payload.{
  Payload, from_4, ccs_download_initiate, ccs_upload_initiate, scs_upload_initiate,
  scs_download_initiate, cs_abort, cs_mask, expedited, size_indicated, expedited_sized, addressed,
  address_of,
}

pub data SdoAbortCode : Type 0 where
  toggle_bit_not_alternated protocol_timed_out command_invalid unsupported_access : SdoAbortCode
  read_of_write_only write_of_read_only object_does_not_exist : SdoAbortCode
  data_type_mismatch_length_high data_type_mismatch_length_low : SdoAbortCode
  sub_index_does_not_exist general : SdoAbortCode

-- `code as u32`
unfoldable pub code_number : SdoAbortCode → ℕ
code_number toggle_bit_not_alternated = 0x0503_0000
code_number protocol_timed_out = 0x0504_0000
code_number command_invalid = 0x0504_0001
code_number unsupported_access = 0x0601_0000
code_number read_of_write_only = 0x0601_0001
code_number write_of_read_only = 0x0601_0002
code_number object_does_not_exist = 0x0602_0000
code_number data_type_mismatch_length_high = 0x0607_0012
code_number data_type_mismatch_length_low = 0x0607_0013
code_number sub_index_does_not_exist = 0x0609_0011
code_number general = 0x0800_0000

-- The command byte of an expedited initiate frame with `len` data bytes.
abbrev pub expedited_command : ℕ → ℕ → ℕ
expedited_command cs len = bit_or (bit_or cs ((4 - len) * 2 ^ 2)) expedited_sized

-- The body that both expedited encoders share, with their command specifier.
unfoldable pub encode_expedited : ℕ → Address → Value → Result Payload
encode_expedited cs addr value =
    let len = Value.size value in
    if len == 0 || ltb 4 len then err unsupported_transfer else do
      (content, _) ← encode_le value (replicate len 0)
      ok (addressed (expedited_command cs len) addr content)

unfoldable pub encode_download_expedited : Address → Value → Result Payload
unfolding encode_expedited
encode_download_expedited = encode_expedited ccs_download_initiate

unfoldable pub encode_download_response : Address → Payload
encode_download_response addr = addressed scs_download_initiate addr []

unfoldable pub decode_download_response : Payload → Result Address
decode_download_response p =
    if not (p.b0 == scs_download_initiate) then err unexpected_command else ok (address_of p)

unfoldable pub encode_upload_request : Address → Payload
encode_upload_request addr = addressed ccs_upload_initiate addr []

unfoldable pub encode_upload_expedited_response : Address → Value → Result Payload
unfolding encode_expedited
encode_upload_expedited_response = encode_expedited scs_upload_initiate

-- A fixed-size type must match exactly.
abbrev pub differs_from_fixed : DataType → ℕ → Bool
unfolding fixed_size
differs_from_fixed t len = elim (fixed_size t) [ some fixed ↦ not (len == fixed) | none ↦ false ]

unfoldable pub decode_upload_expedited_response : Payload → DataType → Result (Address × Value)
decode_upload_expedited_response p t =
    if not (bit_and p.b0 0xe0 == scs_upload_initiate)
      || not (bit_and p.b0 expedited_sized == expedited_sized)
    then err unexpected_command
    else let len = 4 - bit_and (p.b0 / 2 ^ 2) 0x03 in
      if differs_from_fixed t len
      then err type_mismatch
      else do value ← decode_le t (take len (from_4 p)); ok (address_of p, value)

unfoldable pub encode_abort : Address → SdoAbortCode → Payload
unfolding code_number
encode_abort addr code = addressed cs_abort addr (to_le_bytes 4 (code_number code))

unfoldable pub decode_abort : Payload → Result (Address × ℕ)
decode_abort p =
    if not (p.b0 == cs_abort)
    then err unexpected_command
    else ok (address_of p, from_le_bytes (from_4 p))

unfoldable pub encode_download_initiate_segmented : Address → ℕ → Payload
encode_download_initiate_segmented addr size =
    addressed (bit_or ccs_download_initiate size_indicated) addr (to_le_bytes 4 size)

-- The body that both segmented initiate decoders share, with their command specifier.
unfoldable pub decode_initiate_segmented : ℕ → Payload → Result (Address × ℕ)
decode_initiate_segmented cs p =
    if not (bit_and p.b0 cs_mask == cs)
      || not (bit_and p.b0 expedited == 0)
      || bit_and p.b0 size_indicated == 0
    then err unexpected_command
    else ok (address_of p, from_le_bytes (from_4 p))

unfoldable pub decode_download_initiate_segmented : Payload → Result (Address × ℕ)
unfolding decode_initiate_segmented
decode_download_initiate_segmented = decode_initiate_segmented ccs_download_initiate

unfoldable pub encode_upload_initiate_segmented_response : Address → ℕ → Payload
encode_upload_initiate_segmented_response addr size =
    addressed (bit_or scs_upload_initiate size_indicated) addr (to_le_bytes 4 size)

unfoldable pub decode_upload_initiate_segmented_response : Payload → Result (Address × ℕ)
unfolding decode_initiate_segmented
decode_upload_initiate_segmented_response = decode_initiate_segmented scs_upload_initiate
