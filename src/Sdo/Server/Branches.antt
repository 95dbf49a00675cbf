-- ===== src/Sdo/Server/Branches.antt =====
-- core/src/sdo/server.rs: one equation for each way that a request takes through the server.
use canopen_rs.Datatypes.Sizes.{size-le, encode_front, transfer_buffer}
use canopen_rs.Sdo.Codec.RoundTrip.{encode_expedited_fits}
use canopen_rs.Base.{
  ltb_no, differ_self, ==_iff, ℕ, ◌+◌, ◌-◌, ◌≤◌, ◌≡◌, min, Bool, true, false, not, ◌&&◌, none, some,
  List, ◌==◌, length, slice, arith, leb, if◌then◌else◌, bit_and, length-slice,
}
use canopen_rs.Heapless.{BoundedVec}
use canopen_rs.Types.{ok}
use canopen_rs.Types.Outcome.{done, checked_slice_fits, checked_sub_fits}
use canopen_rs.Datatypes.ByteString.{max_string_len, zeros}
use canopen_rs.Datatypes.DataType.{DataType}
use canopen_rs.Datatypes.Value
use canopen_rs.Datatypes.Value.{Value, data_type, decode_le, wire_bytes}
use canopen_rs.Objects.Address.{Address}
use canopen_rs.Objects.Entry.{Entry, is_writable}
use canopen_rs.Objects.ObjectDictionary.{ObjectDictionary, EntryMap, entry, read, write}
use canopen_rs.Sdo.Payload.{
  Payload, from_4, address_of, cs_mask, expedited, toggle_bit, addressed, scs_upload_initiate,
}
use canopen_rs.Sdo.Codec.{
  differs_from_fixed, encode_download_response, decode_download_initiate_segmented,
  encode_upload_expedited_response, encode_upload_initiate_segmented_response, expedited_command,
}
use canopen_rs.Sdo.Segment.{
  segment_frame, segment_command, encode_download_segment_response, decode_data_segment,
}
use canopen_rs.Sdo.Segment.RoundTrip.{encode_data_segment_fits}
use canopen_rs.Sdo.Server.{
  SdoServer, upload, download, handle, on_download_initiate, on_upload_initiate,
  on_download_segment, on_upload_segment, download_expedited, download_segmented, write_value,
  upload_value, send_segment, receive_segment, finish_download, expedited_len, size_suits,
}

module _ {M Buf : Type 0} ⦃m : EntryMap M⦄ ⦃b : BoundedVec ℕ max_string_len Buf⦄ (s : SdoServer Buf)
    (od : ObjectDictionary M) (req : Payload) where
  pub handle_download :
      bit_and req.b0 cs_mask ≡ 0x20 → handle s od req ≡ on_download_initiate s od req
  unfolding handle
  handle_download h = rw (h, handle)

  pub handle_upload : bit_and req.b0 cs_mask ≡ 0x40 → handle s od req ≡ on_upload_initiate s od req
  unfolding handle
  handle_upload h = rw (h, handle)

  pub handle_download_segment :
      bit_and req.b0 cs_mask ≡ 0 → handle s od req ≡ done (on_download_segment s od req)
  unfolding handle
  handle_download_segment h = rw (h, handle)

  pub handle_upload_segment :
      bit_and req.b0 cs_mask ≡ 0x60 → handle s od req ≡ on_upload_segment s od req
  unfolding handle
  handle_upload_segment h = rw (h, handle)

  -- A download of a writable object, by its two branches.
  module _ (e : Entry) (found : entry od (address_of req) ≡ some e)
      (writable : is_writable e.access ≡ true) where
    pub initiate_expedited :
        (bit_and req.b0 expedited == 0) ≡ false
        → on_download_initiate s od req
          ≡ download_expedited s od req (address_of req) (data_type e.value)
    unfolding on_download_initiate
    initiate_expedited x = rw (found, on_download_initiate) (rw (writable) (rw x))

    pub initiate_segmented :
        (bit_and req.b0 expedited == 0) ≡ true
        → on_download_initiate s od req
          ≡ done (download_segmented s od req (address_of req) (data_type e.value))
    unfolding on_download_initiate
    initiate_segmented x = rw (found, on_download_initiate) (rw (writable) (rw x))

  pub download_expedited_writes :
      (addr : Address) (t : DataType) (v : Value)
      → expedited_len req t ≤ 4
      → differs_from_fixed t (expedited_len req t) ≡ false
      → decode_le t (slice 0 (expedited_len req t) (from_4 req)) ≡ ok v
      → download_expedited s od req addr t ≡ done (write_value s od addr v)
  unfolding download_expedited
  download_expedited_writes addr t v fits same decoded = ground (
    arith,
    ltb_no 4 (expedited_len req t) fits,
    checked_slice_fits 0 (expedited_len req t) (from_4 req) (omega arith),
  )

  pub write_value_stores :
      (addr : Address) (v : Value) {od' : ObjectDictionary M}
      → write od addr v ≡ (od', ok tt)
      → write_value s od addr v
        ≡ (record s { last_write = some addr }, od', some (encode_download_response addr))
  unfolding write_value
  write_value_stores addr v h = rw (h, write_value)

  pub download_segmented_starts :
      (addr a : Address) (t : DataType) (size : ℕ)
      → decode_download_initiate_segmented req ≡ ok (a, size)
      → size_suits t size ≡ true
      → download_segmented s od req addr t ≡ (
        record s { transfer = some (download addr t b.new size false) },
        od,
        some (encode_download_response addr),
      )
  unfolding download_segmented
  download_segmented_starts addr a t size decoded suits =
      rw (decoded, download_segmented) (rw suits)

  -- A segment of a download in progress.
  module _ (addr : Address) (t : DataType) (buf : Buf) (declared : ℕ) (toggle last : Bool)
      (content : List ℕ) (busy : s.transfer ≡ some (download addr t buf declared toggle))
      (decoded : decode_data_segment req
        ≡ ok (record { toggle = toggle; last = last; content = content }))
      (buf' : Buf) (room : b.extend_from_slice buf content ≡ some buf') where
    pub segment_kept :
        last ≡ false
        → on_download_segment s od req ≡ (
          record s { transfer = some (download addr t buf' declared (not toggle)) },
          od,
          some (encode_download_segment_response toggle),
        )
    unfolding on_download_segment receive_segment
    segment_kept more =
        rw (decoded, on_download_segment) (rw (busy) (rw (differ_self toggle) (rw room (rw more))))

    pub segment_written :
        (v : Value) {od' : ObjectDictionary M}
        → last ≡ true
        → length (b.as_slice buf') ≡ declared
        → decode_le t (b.as_slice buf') ≡ ok v
        → write od addr v ≡ (od', ok tt)
        → on_download_segment s od req ≡ (
          record s { transfer = none; last_write = some addr },
          od',
          some (encode_download_segment_response toggle),
        )
    unfolding on_download_segment receive_segment finish_download
    segment_written v end full value stored =
        rw (decoded, on_download_segment)
          (rw (busy) (
            rw (differ_self toggle)
              (rw room (rw end (rw ((==_iff _ _).1 full) (rw value (rw stored)))))))

-- The upload side.
module _ {M Buf : Type 0} ⦃m : EntryMap M⦄ ⦃b : BoundedVec ℕ max_string_len Buf⦄ (s : SdoServer Buf)
    (od : ObjectDictionary M) (req : Payload) where
  pub initiate_upload :
      {v : Value}
      → read od (address_of req) ≡ ok v
      → on_upload_initiate s od req ≡ upload_value s od (address_of req) v
  unfolding on_upload_initiate
  initiate_upload h = rw (h, on_upload_initiate)

  -- The next chunk of an upload in progress.
  pub segment_sent :
      (addr : Address) (buffer : List ℕ) (len pos : ℕ) (toggle : Bool)
      → s.transfer ≡ some (upload addr buffer len pos toggle)
      → not (bit_and req.b0 toggle_bit == 0) ≡ toggle
      → length buffer ≡ 32
      → len ≤ 32
      → pos ≤ len
      → let n = min (len - pos) 7 in
        let last = leb (len - pos) 7 in
        let content = slice pos n buffer in
        on_upload_segment s od req
        ≡ done (
          (if last
              then record s { transfer = none }
              else record s { transfer = some (upload addr buffer len (pos + n) (not toggle)) }),
          od,
          some (segment_frame (segment_command (length content) toggle last) content),
        )
  unfolding on_upload_segment send_segment
  segment_sent addr buffer len pos toggle busy turn full le at =
      let n = min (len - pos) 7 in
      rw (busy, on_upload_segment)
        (rw turn (
          rw (differ_self toggle) (
            rw (checked_sub_fits len pos at) (
              rw (checked_slice_fits pos n buffer (omega arith)) (
                rw (
                  encode_data_segment_fits (slice pos n buffer) toggle (leb (len - pos) 7)
                    (omega (arith, length-slice pos n buffer))))))))

module _ {M Buf : Type 0} ⦃m : EntryMap M⦄ ⦃b : BoundedVec ℕ max_string_len Buf⦄ (s : SdoServer Buf)
    (od : ObjectDictionary M) (addr : Address) (v : Value) (valid : Value.IsValid v) where
  -- A value of one to four bytes is answered at once; any other starts a segmented upload.
  pub upload_value_small :
      1 ≤ Value.size v
      → Value.size v ≤ 4
      → upload_value s od addr v
        ≡ done (
          s,
          od,
          some (
              addressed (expedited_command scs_upload_initiate (Value.size v)) addr (wire_bytes v)),
        )
  unfolding upload_value encode_upload_expedited_response
  upload_value_small low high =
      ground (arith, encode_expedited_fits scs_upload_initiate addr v valid low high)

  pub upload_value_large :
      (leb 1 (Value.size v) && leb (Value.size v) 4) ≡ false
      → upload_value s od addr v
        ≡ done (
          record s { transfer = some (upload addr (transfer_buffer v) (Value.size v) 0 false) },
          od,
          some (encode_upload_initiate_segmented_response addr (Value.size v)),
        )
  unfolding upload_value
  upload_value_large large = rw large (
      rw (checked_slice_fits 0 (Value.size v) zeros (omega (arith, size-le v valid)))
        (rw (encode_front v valid)))
