-- ===== src/Sdo/Client.antt =====
-- core/src/sdo/client.rs: the SDO client as a function of its state and a response.
use canopen_rs.Base.{
  ℕ, ◌+◌, min, Bool, true, false, not, ◌&&◌, Option, none, some, List, ◌++◌, drop, leb, differ,
  if◌then◌else◌,
}
use canopen_rs.Heapless.{BoundedVec}
use canopen_rs.Types.{ok, err}
use canopen_rs.Types.NodeId.{NodeId}
use canopen_rs.Types.Outcome.{Outcome, done, expect, checked_sub, checked_slice, ◌>>=◌}
use canopen_rs.Datatypes.ByteString.{max_string_len, zeros}
use canopen_rs.Datatypes.DataType.{DataType}
use canopen_rs.Datatypes.Value
use canopen_rs.Datatypes.Value.{Value, encode_le, decode_le}
use canopen_rs.Objects.Address.{Address}
use canopen_rs.Sdo.Payload.{Payload, segment_data_max}
use canopen_rs.Sdo.Codec.{
  decode_abort, decode_download_response, decode_upload_expedited_response,
  decode_upload_initiate_segmented_response, encode_download_expedited,
  encode_download_initiate_segmented, encode_upload_request,
}
use canopen_rs.Sdo.Segment.{
  encode_data_segment, decode_data_segment, decode_download_segment_response,
  encode_upload_segment_request,
}

abbrev pub abort_toggle : ℕ
abort_toggle = 0x0503_0000

abbrev pub abort_general : ℕ
abort_general = 0x0800_0000

-- What the caller has to do next.
pub data SdoEvent : Type 0 where
  send : Payload → SdoEvent
  complete : Option Value → SdoEvent
  aborted : ℕ → SdoEvent

pub data State (Buf : Type 0) : Type 0 where
  idle download_expedited : State Buf
  download_init : (buffer : List ℕ) (len : ℕ) → State Buf
  download_seg : (buffer : List ℕ) (len pos : ℕ) (last_toggle : Bool) → State Buf
  upload_init : (type : DataType) → State Buf
  upload_seg : (type : DataType) (buf : Buf) (toggle : Bool) → State Buf

pub record SdoClient (Buf : Type 0) : Type 0 where
  pub node : NodeId
  pub state : State Buf

unfoldable pub new : {Buf : Type 0} → NodeId → SdoClient Buf
new node = record { node = node; state = idle }

unfoldable pub is_busy : {Buf : Type 0} → SdoClient Buf → Bool
is_busy c = elim c.state [ idle ↦ false | _ ↦ true ]

unfoldable pub read : {Buf : Type 0} → SdoClient Buf → Address → DataType → SdoClient Buf × Payload
read c addr t = (record c { state = upload_init t }, encode_upload_request addr)

unfoldable pub write :
    {Buf : Type 0} → SdoClient Buf → Address → Value → Outcome (SdoClient Buf × Payload)
write c addr value =
    let size = Value.size value in
    if leb 1 size && leb size 4
    then (do
      frame ← expect (encode_download_expedited addr value)
      done (record c { state = download_expedited }, frame))
    else (do
      front ← checked_slice 0 size zeros
      (content, _) ← expect (encode_le value front)
      done (
        record c { state = download_init (content ++ drop size zeros) size },
        encode_download_initiate_segmented addr size,
      ))

module _ {Buf : Type 0} ⦃b : BoundedVec ℕ max_string_len Buf⦄ where
  -- `on_response` leaves the state idle unless a handler sets another.
  abbrev pub to_idle : SdoClient Buf → SdoClient Buf
  to_idle c = record c { state = idle }

  unfoldable pub on_download_expedited : SdoClient Buf → Payload → SdoClient Buf × SdoEvent
  on_download_expedited c resp = elim (decode_download_response resp) [
    | ok _ ↦ (c, complete none)
    | err _ ↦ (c, aborted abort_general)
  ]

  unfoldable pub send_download_segment :
      SdoClient Buf → List ℕ → ℕ → ℕ → Bool → Outcome (SdoClient Buf × SdoEvent)
  send_download_segment c buffer len pos toggle = do
    remaining ← checked_sub len pos
    let n = min remaining segment_data_max
    let last = leb remaining segment_data_max
    content ← checked_slice pos n buffer
    frame ← expect (encode_data_segment content toggle last)
    done (record c { state = download_seg buffer len (pos + n) toggle }, send frame)

  unfoldable pub on_download_init :
      SdoClient Buf → Payload → List ℕ → ℕ → Outcome (SdoClient Buf × SdoEvent)
  unfolding send_download_segment
  on_download_init c resp buffer len = elim (decode_download_response resp) [
    | err _ ↦ done (c, aborted abort_general)
    | ok _ ↦ send_download_segment c buffer len 0 false
  ]

  unfoldable pub on_download_seg :
      SdoClient Buf → Payload → List ℕ → ℕ → ℕ → Bool → Outcome (SdoClient Buf × SdoEvent)
  unfolding send_download_segment
  on_download_seg c resp buffer len pos last_toggle = elim (decode_download_segment_response resp) [
    | err _ ↦ done (c, aborted abort_general)
    | ok t ↦
        if differ t last_toggle
        then done (c, aborted abort_toggle)
        else if leb len pos
        then done (c, complete none)
        else send_download_segment c buffer len pos (not last_toggle)
  ]

  unfoldable pub on_upload_init : SdoClient Buf → Payload → DataType → SdoClient Buf × SdoEvent
  on_upload_init c resp t = elim (decode_upload_expedited_response resp t) [
    | ok (_, value) ↦ (c, complete (some value))
    | err _ ↦ elim (decode_upload_initiate_segmented_response resp) [
      | ok _ ↦ (
        record c { state = upload_seg t b.new false },
        send (encode_upload_segment_request false),
      )
      | err _ ↦ (c, aborted abort_general)
    ]
  ]

  unfoldable pub on_upload_seg :
      SdoClient Buf → Payload → DataType → Buf → Bool → SdoClient Buf × SdoEvent
  on_upload_seg c resp t buf toggle = elim (decode_data_segment resp) [
    | err _ ↦ (c, aborted abort_general)
    | ok seg ↦
        if differ seg.toggle toggle
        then (c, aborted abort_toggle)
        else elim (b.extend_from_slice buf seg.content) [
          | none ↦ (c, aborted abort_general)
          | some buf' ↦
              if seg.last
              then elim (decode_le t (b.as_slice buf')) [
                | ok value ↦ (c, complete (some value))
                | err _ ↦ (c, aborted abort_general)
              ]
              else (
                record c { state = upload_seg t buf' (not toggle) },
                send (encode_upload_segment_request (not toggle)),
              )
        ]
  ]

  -- The match on the state that the response finds.
  unfoldable pub dispatch : SdoClient Buf → Payload → State Buf → Outcome (SdoClient Buf × SdoEvent)
  unfolding on_download_expedited on_download_init on_download_seg on_upload_init on_upload_seg
  dispatch c resp idle = done (c, aborted abort_general)
  dispatch c resp download_expedited = done (on_download_expedited c resp)
  dispatch c resp (download_init buffer len) = on_download_init c resp buffer len
  dispatch c resp (download_seg buffer len pos last_toggle) =
      on_download_seg c resp buffer len pos last_toggle
  dispatch c resp (upload_init t) = done (on_upload_init c resp t)
  dispatch c resp (upload_seg t buf toggle) = done (on_upload_seg c resp t buf toggle)

  unfoldable pub on_response : SdoClient Buf → Payload → Outcome (SdoClient Buf × SdoEvent)
  unfolding dispatch
  on_response c resp = elim (decode_abort resp) [
    | ok (_, code) ↦ done (to_idle c, aborted code)
    | err _ ↦ dispatch (to_idle c) resp c.state
  ]
