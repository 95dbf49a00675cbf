-- ===== src/Sdo/Server.antt =====
-- core/src/sdo/server.rs: the SDO server as a function of its state, the dictionary and a request.
-- A handler returns the new server, the new dictionary and the reply, if there is one.
pub mod Branches
pub mod Safe
pub mod SafeDownload
pub mod SafeUpload
pub mod Safety
use canopen_rs.Base.{
  ℕ, zero, ◌+◌, ◌-◌, ◌/◌, ◌^◌, min, Bool, true, false, not, ◌&&◌, Option, none, some, List, [],
  ◌++◌, drop, ltb, leb, ◌==◌, differ, if◌then◌else◌, length, replicate, bit_and,
}
use canopen_rs.Heapless.{BoundedVec, is_some}
use canopen_rs.Types.{
  Result, Error, ok, err, object_not_found, write_only, read_only, type_mismatch,
}
use canopen_rs.Types.NodeId.{NodeId}
use canopen_rs.Types.Outcome.{Outcome, done, expect, checked_sub, checked_slice, ◌>>=◌}
use canopen_rs.Datatypes.ByteString.{max_string_len, zeros}
use canopen_rs.Datatypes.DataType.{DataType, fixed_size}
use canopen_rs.Datatypes.Value
use canopen_rs.Datatypes.Value.{Value, data_type, encode_le, decode_le}
use canopen_rs.Objects.Address.{Address}
use canopen_rs.Objects.Entry.{is_writable}
use canopen_rs.Objects.ObjectDictionary.{ObjectDictionary, EntryMap, entry, read, write}
use canopen_rs.Sdo.Payload.{
  Payload, from_4, address_of, ccs_download_initiate, ccs_upload_initiate, ccs_download_segment,
  ccs_upload_segment, cs_abort, cs_mask, expedited, size_indicated, toggle_bit, segment_data_max,
}
use canopen_rs.Sdo.Payload
use canopen_rs.Sdo.Codec.{
  SdoAbortCode, encode_abort, encode_download_response, encode_upload_expedited_response,
  encode_upload_initiate_segmented_response, decode_download_initiate_segmented, differs_from_fixed,
}
use canopen_rs.Sdo.Codec.SdoAbortCode.{
  toggle_bit_not_alternated, command_invalid, write_of_read_only, read_of_write_only,
  object_does_not_exist, data_type_mismatch_length_high, data_type_mismatch_length_low, general,
}
use canopen_rs.Sdo.Segment.{
  Segment, encode_data_segment, decode_data_segment, encode_download_segment_response,
}

-- The state of a segmented transfer between two frames.
pub data Transfer (Buf : Type 0) : Type 0 where
  upload : (addr : Address) (buffer : List ℕ) (len pos : ℕ) (toggle : Bool) → Transfer Buf
  download :
      (addr : Address) (type : DataType) (buf : Buf) (declared : ℕ) (toggle : Bool) → Transfer Buf

pub record SdoServer (Buf : Type 0) : Type 0 where
  pub node : NodeId
  pub transfer : Option (Transfer Buf)
  pub last_write : Option Address

unfoldable pub new : {Buf : Type 0} → NodeId → SdoServer Buf
new node = record { node = node; transfer = none; last_write = none }

unfoldable pub is_busy : {Buf : Type 0} → SdoServer Buf → Bool
is_busy s = is_some s.transfer

unfoldable pub take_write : {Buf : Type 0} → SdoServer Buf → SdoServer Buf × Option Address
take_write s = (record s { last_write = none }, s.last_write)

-- `abort`
abbrev pub abort : Address → SdoAbortCode → Option Payload
abort addr code = some (encode_abort addr code)

-- Whether the size that a segmented download declares suits the object's type.
abbrev pub size_suits : DataType → ℕ → Bool
unfolding fixed_size
size_suits t size = elim (fixed_size t) [
  | some fixed ↦ size == fixed
  | none ↦ leb size max_string_len
]

-- The count of data bytes in an expedited download.
abbrev pub expedited_len : Payload → DataType → ℕ
unfolding fixed_size
expedited_len req t =
    if not (bit_and req.b0 size_indicated == 0)
    then 4 - bit_and (req.b0 / 2 ^ 2) 0x03
    else elim (fixed_size t) [ some fixed ↦ fixed | none ↦ 0 ]

-- How the write of an expedited download answers.
abbrev pub write_reply : Address → Result (Unit {0}) → Option Payload
write_reply addr (ok _) = some (encode_download_response addr)
write_reply addr (err read_only) = abort addr write_of_read_only
write_reply addr (err type_mismatch) = abort addr data_type_mismatch_length_high
write_reply addr (err _) = abort addr general

-- How the write at the end of a segmented download answers; `ack` acknowledges the segment.
abbrev pub segment_write_reply : Address → Payload → Result (Unit {0}) → Option Payload
segment_write_reply addr ack (ok _) = some ack
segment_write_reply addr ack (err read_only) = abort addr write_of_read_only
segment_write_reply addr ack (err _) = abort addr general

-- `last_write` is set by a write that succeeds only.
abbrev pub written : Option Address → Address → Result (Unit {0}) → Option Address
written last addr (ok _) = some addr
written last addr (err _) = last

-- How an error of `read` is reported.
abbrev pub read_abort : Error → SdoAbortCode
read_abort object_not_found = object_does_not_exist
read_abort write_only = read_of_write_only
read_abort _ = general

abbrev pub address_0 : Address
address_0 = record { index = 0; subindex = 0 }

-- The new server, the new dictionary and the reply.
abbrev pub Reply : Type 0 → Type 0 → Type 0
Reply M Buf = SdoServer Buf × ObjectDictionary M × Option Payload

module _ {M Buf : Type 0} ⦃m : EntryMap M⦄ ⦃b : BoundedVec ℕ max_string_len Buf⦄ where
  -- `write_value`
  unfoldable pub write_value : SdoServer Buf → ObjectDictionary M → Address → Value → Reply M Buf
  write_value s od addr value =
      let (od', result) = write od addr value in
      (record s { last_write = written s.last_write addr result }, od', write_reply addr result)

  -- The match on the decoded value of an expedited download.
  unfoldable pub write_decoded :
      SdoServer Buf → ObjectDictionary M → Address → Result Value → Reply M Buf
  unfolding write_value
  write_decoded s od addr (err _) = (s, od, abort addr general)
  write_decoded s od addr (ok value) = write_value s od addr value

  -- The expedited branch of `on_download_initiate`.
  unfoldable pub download_expedited :
      SdoServer Buf → ObjectDictionary M → Payload → Address → DataType → Outcome (Reply M Buf)
  unfolding write_decoded
  download_expedited s od req addr t =
      let len = expedited_len req t in
      if ltb 4 len
      then done (s, od, abort addr data_type_mismatch_length_high)
      else if differs_from_fixed t len
      then done (s, od, abort addr data_type_mismatch_length_high)
      else do
        content ← checked_slice 0 len (from_4 req)
        done (write_decoded s od addr (decode_le t content))

  -- The segmented branch of `on_download_initiate`.
  unfoldable pub download_segmented :
      SdoServer Buf → ObjectDictionary M → Payload → Address → DataType → Reply M Buf
  download_segmented s od req addr t = elim (decode_download_initiate_segmented req) [
    | err _ ↦ (s, od, abort addr command_invalid)
    | ok (_, size) ↦
        if not (size_suits t size) then (s, od, abort addr data_type_mismatch_length_high) else (
          record s { transfer = some (download addr t b.new size false) },
          od,
          some (encode_download_response addr),
        )
  ]

  unfoldable pub on_download_initiate :
      SdoServer Buf → ObjectDictionary M → Payload → Outcome (Reply M Buf)
  unfolding download_expedited download_segmented
  on_download_initiate s od req =
      let addr = address_of req in
      elim (entry od addr) [
        | none ↦ done (s, od, abort addr object_does_not_exist)
        | some e ↦
            if not (is_writable e.access)
            then done (s, od, abort addr write_of_read_only)
            else if not (bit_and req.b0 expedited == 0)
            then download_expedited s od req addr (data_type e.value)
            else done (download_segmented s od req addr (data_type e.value))
      ]

  -- `on_upload_initiate`, once the value is read.
  unfoldable pub upload_value :
      SdoServer Buf → ObjectDictionary M → Address → Value → Outcome (Reply M Buf)
  upload_value s od addr value =
      let size = Value.size value in
      if leb 1 size && leb size 4
      then (do
        frame ← expect (encode_upload_expedited_response addr value)
        done (s, od, some frame))
      else (do
        front ← checked_slice 0 size zeros
        (content, _) ← expect (encode_le value front)
        done (
          record s { transfer = some (upload addr (content ++ drop size zeros) size 0 false) },
          od,
          some (encode_upload_initiate_segmented_response addr size),
        ))

  unfoldable pub on_upload_initiate :
      SdoServer Buf → ObjectDictionary M → Payload → Outcome (Reply M Buf)
  unfolding upload_value
  on_upload_initiate s od req =
      let addr = address_of req in
      elim (read od addr) [
        | err e ↦ done (s, od, abort addr (read_abort e))
        | ok value ↦ upload_value s od addr value
      ]

  -- `on_upload_segment`, with an upload in progress.
  unfoldable pub send_segment :
      SdoServer Buf
      → ObjectDictionary M
      → Payload
      → Address
      → List ℕ
      → ℕ
      → ℕ
      → Bool
      → Outcome (Reply M Buf)
  send_segment s od req addr buffer len pos toggle =
      let s = record s { transfer = none } in
      if differ (not (bit_and req.b0 toggle_bit == 0)) toggle
      then done (s, od, abort addr toggle_bit_not_alternated)
      else do
        remaining ← checked_sub len pos
        let n = min remaining segment_data_max
        let last = leb remaining segment_data_max
        content ← checked_slice pos n buffer
        seg ← expect (encode_data_segment content toggle last)
        done (
          (if last
              then s
              else record s { transfer = some (upload addr buffer len (pos + n) (not toggle)) }),
          od,
          some seg,
        )

  unfoldable pub on_upload_segment :
      SdoServer Buf → ObjectDictionary M → Payload → Outcome (Reply M Buf)
  unfolding send_segment
  on_upload_segment s od req = elim s.transfer [
    | some (upload addr buffer len pos toggle) ↦ send_segment s od req addr buffer len pos toggle
    | _ ↦ done (record s { transfer = none }, od, abort address_0 command_invalid)
  ]

  -- The match on the decoded value of a segmented download.
  unfoldable pub finish_decoded :
      SdoServer Buf → ObjectDictionary M → Payload → Address → Result Value → Reply M Buf
  finish_decoded s od ack addr (err _) = (s, od, abort addr general)
  finish_decoded s od ack addr (ok value) =
      let (od', result) = write od addr value in
      (
        record s { last_write = written s.last_write addr result },
        od',
        segment_write_reply addr ack result,
      )

  -- The end of `on_download_segment`: the last segment is in `buf`.
  unfoldable pub finish_download :
      SdoServer Buf → ObjectDictionary M → Payload → Address → DataType → Buf → ℕ → Reply M Buf
  unfolding finish_decoded
  finish_download s od ack addr t buf declared =
      if not (length (b.as_slice buf) == declared)
      then (s, od, abort addr data_type_mismatch_length_low)
      else finish_decoded s od ack addr (decode_le t (b.as_slice buf))

  -- `on_download_segment`, with a download in progress.
  unfoldable pub receive_segment :
      SdoServer Buf
      → ObjectDictionary M
      → Segment
      → Address
      → DataType
      → Buf
      → ℕ
      → Bool
      → Reply M Buf
  unfolding finish_download
  receive_segment s od seg addr t buf declared toggle =
      let s = record s { transfer = none } in
      if differ seg.toggle toggle
      then (s, od, abort addr toggle_bit_not_alternated)
      else elim (b.extend_from_slice buf seg.content) [
        | none ↦ (s, od, abort addr data_type_mismatch_length_high)
        | some buf' ↦
            let ack = encode_download_segment_response seg.toggle in
            if seg.last then finish_download s od ack addr t buf' declared else (
              record s { transfer = some (download addr t buf' declared (not toggle)) },
              od,
              some ack,
            )
      ]

  unfoldable pub on_download_segment : SdoServer Buf → ObjectDictionary M → Payload → Reply M Buf
  unfolding receive_segment
  on_download_segment s od req = elim (decode_data_segment req) [
    | err _ ↦ (s, od, abort address_0 command_invalid)
    | ok seg ↦ elim s.transfer [
      | some (download addr t buf declared toggle) ↦
          receive_segment s od seg addr t buf declared toggle
      | _ ↦ (record s { transfer = none }, od, abort address_0 command_invalid)
    ]
  ]

  -- The match on the command specifier, in the order of the source.
  unfoldable pub handle : SdoServer Buf → ObjectDictionary M → Payload → Outcome (Reply M Buf)
  handle s od req =
      let cs = bit_and req.b0 cs_mask in
      if cs == ccs_download_initiate
      then on_download_initiate s od req
      else if cs == ccs_upload_initiate
      then on_upload_initiate s od req
      else if cs == ccs_download_segment
      then done (on_download_segment s od req)
      else if cs == ccs_upload_segment
      then on_upload_segment s od req
      else if cs == cs_abort
      then done (record s { transfer = none }, od, none)
      else done (s, od, abort (address_of req) command_invalid)
