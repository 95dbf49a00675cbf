-- ===== src/Sdo/Session/UploadLoop.antt =====
-- core/src/sdo: the segment phase of a client's read from a server.
use canopen_rs.Base.{
  ℕ, zero, suc, ◌+◌, ◌*◌, ◌-◌, ◌≤◌, ◌<◌, ◌≡◌, ◌∙◌, refl, ap, Bool, true, false, not, none, some,
  List, length, take, arith, leb, leb_lem, leb_no, differ_self, Bool-cases, inl, inr,
}
use canopen_rs.Heapless.{BoundedVec}
use canopen_rs.Types.{ok}
use canopen_rs.Types.Outcome.{done}
use canopen_rs.Datatypes.ByteString.{max_string_len}
use canopen_rs.Datatypes.DataType.{DataType}
use canopen_rs.Datatypes.Value.{Value, decode_le}
use canopen_rs.Objects.Address.{Address}
use canopen_rs.Objects.ObjectDictionary.{ObjectDictionary, EntryMap}
use canopen_rs.Sdo.Segment.{encode_upload_segment_request}
use canopen_rs.Sdo.Segment.RoundTrip.{decode_command}
use canopen_rs.Sdo.Server.{SdoServer, upload}
use canopen_rs.Sdo.Server.Branches.{handle_upload_segment, segment_sent}
use canopen_rs.Sdo.Client
use canopen_rs.Sdo.Client.{SdoClient, complete, send, on_response, dispatch}
use canopen_rs.Sdo.Session.{finished, run, run_sends, run_completes}
use canopen_rs.Sdo.Session.Frames.{
  data_frame, data_segment-ne-abort, not_abort, request_specifier, request_toggle,
}
use canopen_rs.Sdo.Session.Chunks.{chunk_size, chunk, length-chunk, extend-chunk}

-- The client's answers to a data segment with the toggle bit that it waits for.
module _ {Buf : Type 0} ⦃b : BoundedVec ℕ max_string_len Buf⦄ (c : SdoClient Buf) (t : DataType)
    (buf buf' : Buf) (toggle last : Bool) (content : List ℕ) (short : length content ≤ 7)
    (waiting : c.state ≡ Client.upload_seg t buf toggle)
    (room : b.extend_from_slice buf content ≡ some buf') where
  received_last :
      {v : Value}
      → last ≡ true
      → decode_le t (b.as_slice buf') ≡ ok v
      → on_response c (data_frame content toggle last)
        ≡ done (record c { state = Client.idle }, complete (some v))
  unfolding on_response dispatch
  received_last end value = ground (
    arith,
    not_abort (data_frame content toggle last)
        (data_segment-ne-abort (length content) toggle last short),
    decode_command content toggle last short,
    differ_self toggle,
  )

  received_more :
      last ≡ false
      → on_response c (data_frame content toggle last)
        ≡ done (
          record c { state = Client.upload_seg t buf' (not toggle) },
          send (encode_upload_segment_request (not toggle)),
        )
  unfolding on_response dispatch
  received_more more = ground (
    arith,
    not_abort (data_frame content toggle last)
        (data_segment-ne-abort (length content) toggle last short),
    decode_command content toggle last short,
    differ_self toggle,
  )

module _ {Buf : Type 0} ⦃b : BoundedVec ℕ max_string_len Buf⦄ (addr : Address) (t : DataType)
    (buffer : List ℕ) (len : ℕ) where
  -- Both ends are at `pos`, with the request for the chunk there on its way.
  pub record IsMidway (c : SdoClient Buf) (s : SdoServer Buf) (buf : Buf) (pos : ℕ) (toggle : Bool)
      : Type 0 where
    pub within : pos ≤ len
    pub sending : s.transfer ≡ some (upload addr buffer len pos toggle)
    pub held : b.as_slice buf ≡ take pos buffer
    pub receiving : c.state ≡ Client.upload_seg t buf toggle

module _ {M Buf : Type 0} ⦃m : EntryMap M⦄ ⦃b : BoundedVec ℕ max_string_len Buf⦄
    (od : ObjectDictionary M) (addr : Address) (t : DataType) (v : Value) (buffer : List ℕ)
    (len : ℕ) (full : length buffer ≡ 32) (le : len ≤ 32)
    (value : decode_le t (take len buffer) ≡ ok v) where
  -- The last chunk ends the transfer, and the client has the value.
  last_chunk :
      (fuel : ℕ) (c : SdoClient Buf) (s : SdoServer Buf) (buf : Buf) (pos : ℕ) (toggle : Bool)
      → IsMidway addr t buffer len c s buf pos toggle
      → len ≤ pos + 7
      → run (suc fuel) c s od (encode_upload_segment_request toggle)
        ≡ finished
            (record c { state = Client.idle })
            (record s { transfer = none })
            od
            (complete (some v))
  last_chunk fuel c s buf pos toggle mid end =
      let content = chunk buffer len pos in
      let short = length-chunk buffer len pos (omega arith) in
      let last = leb_lem (len - pos) 7 (omega arith) in
      let (buf', room, joined) = extend-chunk buf buffer len pos full le mid.within mid.held in
      let all : b.as_slice buf' ≡ take len buffer =
        joined ∙ ap (λ k. take k buffer) (omega arith) in
      let req = encode_upload_segment_request toggle in
      run_completes fuel c s od req
        (handle_upload_segment s od req (request_specifier toggle)
          ∙ segment_sent s od req addr buffer len pos toggle mid.sending (request_toggle toggle)
              full le mid.within
          ∙ rw last)
        (received_last c t buf buf' toggle true content (omega arith) mid.receiving room refl
          (rw all value))

  next_chunk :
      (fuel : ℕ) (c : SdoClient Buf) (s : SdoServer Buf) (buf : Buf) (pos : ℕ) (toggle : Bool)
      → IsMidway addr t buffer len c s buf pos toggle
      → pos + 7 < len
      → (buf' : Buf) × (run (suc fuel) c s od (encode_upload_segment_request toggle)
          ≡ run fuel
              (record c { state = Client.upload_seg t buf' (not toggle) })
              (record s { transfer = some (upload addr buffer len (pos + 7) (not toggle)) })
              od
              (encode_upload_segment_request (not toggle)))
        × (b.as_slice buf' ≡ take (pos + 7) buffer)
  next_chunk fuel c s buf pos toggle mid more =
      let content = chunk buffer len pos in
      let short = length-chunk buffer len pos (omega arith) in
      let step : chunk_size len pos ≡ 7 = omega arith in
      let last = leb_no (len - pos) 7 (omega arith) in
      let (buf', room, joined) = extend-chunk buf buffer len pos full le mid.within mid.held in
      let req = encode_upload_segment_request toggle in
      let moved =
        ap (λ (k : ℕ). record s { transfer = some (upload addr buffer len (pos + k) (not toggle)) })
          step in
      (
        buf',
        run_sends fuel c s od req
            (handle_upload_segment s od req (request_specifier toggle)
              ∙ segment_sent s od req addr buffer len pos toggle mid.sending (request_toggle toggle)
                  full le mid.within
              ∙ rw last (ap (λ s'. done (s', od, some (data_frame content toggle false))) moved))
            (received_more c t buf buf' toggle false content (omega arith) mid.receiving room refl),
        joined ∙ ap (λ (k : ℕ). take (pos + k) buffer) step,
      )

  -- From anywhere in the transfer, a round for each seven bytes that are left is enough.
  pub upload_loop :
      (fuel : ℕ) (c : SdoClient Buf) (s : SdoServer Buf) (buf : Buf) (pos : ℕ) (toggle : Bool)
      → IsMidway addr t buffer len c s buf pos toggle
      → len ≤ pos + 7 + 7 * fuel
      → run (suc fuel) c s od (encode_upload_segment_request toggle)
        ≡ finished
            (record c { state = Client.idle })
            (record s { transfer = none })
            od
            (complete (some v))
  upload_loop zero c s buf pos toggle mid enough =
      last_chunk zero c s buf pos toggle mid (omega arith)
  upload_loop (suc fuel) c s buf pos toggle mid enough = elim (Bool-cases (leb len (pos + 7))) [
    | inl end ↦ last_chunk (suc fuel) c s buf pos toggle mid (ground arith)
    | inr more ↦
        let (buf', step, held) = next_chunk (suc fuel) c s buf pos toggle mid (ground arith) in
        step
        ∙ upload_loop fuel (record c { state = Client.upload_seg t buf' (not toggle) })
            (record s { transfer = some (upload addr buffer len (pos + 7) (not toggle)) }) buf'
            (pos + 7) (not toggle)
            (record { within = ground arith; sending = refl; held = held; receiving = refl })
            (omega arith)
  ]
