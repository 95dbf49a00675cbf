-- ===== src/Sdo/Session/Read.antt =====
-- core/src/sdo: a client's read from a server, for every value.
use canopen_rs.Base.{
  ℕ, ◌≤◌, ◌≡◌, ◌∙◌, refl, false, ◌&&◌, none, some, arith, leb, Bool-cases, inl, inr, [],
}
use canopen_rs.Heapless.{BoundedVec}
use canopen_rs.Types.{ok}
use canopen_rs.Types.Outcome.{done}
use canopen_rs.Datatypes.ByteString.{max_string_len}
use canopen_rs.Datatypes.Value
use canopen_rs.Datatypes.Value.{Value, data_type, wire_bytes, decode_le}
use canopen_rs.Datatypes.Lemmas.{decode_le-wire_bytes}
use canopen_rs.Datatypes.Sizes.{
  size-le, transfer_buffer, length-transfer_buffer, take-transfer_buffer,
}
use canopen_rs.Objects.Address
use canopen_rs.Objects.Address.{Address}
use canopen_rs.Objects.ObjectDictionary.{ObjectDictionary, EntryMap, read}
use canopen_rs.Sdo.Payload.{addressed, address_of, scs_upload_initiate}
use canopen_rs.Sdo.Codec.{
  expedited_command, encode_upload_request, encode_upload_initiate_segmented_response,
}
use canopen_rs.Sdo.Codec.RoundTrip.{
  address_of-addressed, decode_expedited_frame, decode-encode_upload_initiate_segmented_response,
}
use canopen_rs.Sdo.Segment.{encode_upload_segment_request}
use canopen_rs.Sdo.Server.{SdoServer, upload, handle, upload_value}
use canopen_rs.Sdo.Server.Branches.{
  handle_upload, initiate_upload, upload_value_small, upload_value_large,
}
use canopen_rs.Sdo.Client
use canopen_rs.Sdo.Client.{SdoClient, complete, send, on_response, dispatch}
use canopen_rs.Sdo.Session.{finished, drive, run_sends, run_completes}
use canopen_rs.Sdo.Session.Frames.{not_abort, expedited_response-ne-abort, not_expedited}
use canopen_rs.Sdo.Session.UploadLoop.{upload_loop}

module _ {Buf : Type 0} ⦃b : BoundedVec ℕ max_string_len Buf⦄ (c : SdoClient Buf) (addr : Address)
    (v : Value) (valid : Value.IsValid v) (valid_addr : Address.IsValid addr)
    (waiting : c.state ≡ Client.upload_init (data_type v)) where
  -- The client's answers to the two replies to its read.
  answered_expedited :
      1 ≤ Value.size v
      → Value.size v ≤ 4
      → on_response c
          (addressed (expedited_command scs_upload_initiate (Value.size v)) addr (wire_bytes v))
        ≡ done (record c { state = Client.idle }, complete (some v))
  unfolding on_response dispatch
  answered_expedited low high =
      let resp =
        addressed (expedited_command scs_upload_initiate (Value.size v)) addr (wire_bytes v) in
      ground (
        arith,
        not_abort resp (expedited_response-ne-abort (Value.size v) low high),
        decode_expedited_frame addr v valid valid_addr low high,
      )

  answered_segmented :
      on_response c (encode_upload_initiate_segmented_response addr (Value.size v))
      ≡ done (
        record c { state = Client.upload_seg (data_type v) b.new false },
        send (encode_upload_segment_request false),
      )
  unfolding on_response dispatch
  answered_segmented =
      let resp = encode_upload_initiate_segmented_response addr (Value.size v) in
      ground (
        arith,
        not_abort resp (unfold encode_upload_initiate_segmented_response in refl),
        not_expedited addr (Value.size v) (data_type v),
        decode-encode_upload_initiate_segmented_response addr (Value.size v) valid_addr
            (omega (arith, size-le v valid)),
      )

module _ {M Buf : Type 0} ⦃m : EntryMap M⦄ ⦃b : BoundedVec ℕ max_string_len Buf⦄ (c : SdoClient Buf)
    (s : SdoServer Buf) (od : ObjectDictionary M) (addr : Address) (v : Value)
    (valid : Value.IsValid v) (valid_addr : Address.IsValid addr)
    (holds : read od addr ≡ ok v) where
  upload_handled : handle s od (encode_upload_request addr) ≡ upload_value s od addr v
  upload_handled =
      handle_upload s od (encode_upload_request addr) (unfold encode_upload_request in refl)
      ∙ initiate_upload s od (encode_upload_request addr) {v = v} (rw here holds)
      ∙ rw here
    where
      here : address_of (encode_upload_request addr) ≡ addr
      here = unfold encode_upload_request in address_of-addressed 0x40 addr [] valid_addr

  -- Whatever the type and size of a valid value, a client that reads it from a readable object, at a
  -- valid address and asking for the value's type, ends after at
  -- most six exchanges with that value; the dictionary has not changed, and no write is reported.
  pub read_session :
      (s' : SdoServer Buf) × (drive 6 (done (Client.read c addr (data_type v))) s od
        ≡ finished (record c { state = Client.idle }) s' od (complete (some v)))
      × (s'.last_write ≡ s.last_write)
  unfolding drive Client.read
  read_session = elim (Bool-cases (leb 1 (Value.size v) && leb (Value.size v) 4)) [
    | inl small ↦ (
      s,
      run_completes 5 (record c { state = Client.upload_init (data_type v) }) s od
          (encode_upload_request addr)
          (upload_handled ∙ upload_value_small s od addr v valid (ground arith) (ground arith))
          (answered_expedited (record c { state = Client.upload_init (data_type v) }) addr v valid
            valid_addr refl (ground arith) (ground arith)),
      refl,
    )
    | inr large ↦
        let n = Value.size v in
        (
          record s { transfer = none },
          run_sends 5 (record c { state = Client.upload_init (data_type v) }) s od
                (encode_upload_request addr)
                (upload_handled ∙ upload_value_large s od addr v valid large)
                (answered_segmented (record c { state = Client.upload_init (data_type v) }) addr v
                  valid valid_addr refl)
              ∙ upload_loop od addr (data_type v) v (transfer_buffer v) n
                  (length-transfer_buffer v valid) (size-le v valid)
                  (rw (take-transfer_buffer v valid) (decode_le-wire_bytes v valid)) 4
                  (record c { state = Client.upload_seg (data_type v) b.new false })
                  (record s { transfer = some (upload addr (transfer_buffer v) n 0 false) }) b.new 0
                  false
                  (record {
                    within = omega arith;
                    sending = refl;
                    held = b.as_slice-new;
                    receiving = refl;
                  })
                  (omega (arith, size-le v valid)),
          refl,
        )
  ]
