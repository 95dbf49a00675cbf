-- ===== src/Sdo/Session/DownloadLoop.antt =====
-- core/src/sdo: the segment phase of a client's write against a server.
use canopen_rs.Base.{
  ℕ, zero, suc, ◌+◌, ◌*◌, ◌-◌, ◌≤◌, ◌<◌, ◌≡◌, ◌∙◌, refl, ap, Bool, not, none, some, List, length,
  take, arith, leb, leb_lem, leb_no, differ_self, Bool-cases, inl, inr, length-take,
}
use canopen_rs.Heapless.{BoundedVec}
use canopen_rs.Types.{ok}
use canopen_rs.Types.Outcome.{done, checked_sub_fits, checked_slice_fits}
use canopen_rs.Datatypes.ByteString.{max_string_len}
use canopen_rs.Datatypes.DataType.{DataType}
use canopen_rs.Datatypes.Value.{Value, decode_le}
use canopen_rs.Objects.Address.{Address}
use canopen_rs.Objects.ObjectDictionary.{ObjectDictionary, EntryMap, write}
use canopen_rs.Sdo.Segment.{encode_download_segment_response}
use canopen_rs.Sdo.Segment.RoundTrip.{
  encode_data_segment_fits, decode_command, decode_download_segment_response_lem,
}
use canopen_rs.Sdo.Server.{SdoServer, download}
use canopen_rs.Sdo.Server.Branches.{handle_download_segment, segment_kept, segment_written}
use canopen_rs.Sdo.Client
use canopen_rs.Sdo.Client.{SdoClient, complete, send, on_response, dispatch, send_download_segment}
use canopen_rs.Sdo.Session.{finished, run, run_sends, run_completes}
use canopen_rs.Sdo.Session.Frames.{data_frame, segment_specifier, not_abort, response-ne-abort}
use canopen_rs.Sdo.Session.Chunks.{chunk_size, chunk, is_last, length-chunk, extend-chunk}

module _ {Buf : Type 0} ⦃b : BoundedVec ℕ max_string_len Buf⦄ (c : SdoClient Buf) (buffer : List ℕ)
    (len pos : ℕ) where
  -- The client sends the chunk at `pos` and waits for its acknowledgement.
  pub send_lem :
      (toggle : Bool)
      → length buffer ≡ 32
      → len ≤ 32
      → pos ≤ len
      → send_download_segment c buffer len pos toggle
        ≡ done (
          record c { state = Client.download_seg buffer len (pos + chunk_size len pos) toggle },
          send (data_frame (chunk buffer len pos) toggle (is_last len pos)),
        )
  unfolding send_download_segment
  send_lem toggle full le at = rw (checked_sub_fits len pos at) (
      rw (checked_slice_fits pos (chunk_size len pos) buffer (omega arith)) (
        rw (
          encode_data_segment_fits (chunk buffer len pos) toggle (is_last len pos)
            (omega (arith, length-chunk buffer len pos)))))

  acked_last :
      (toggle : Bool)
      → c.state ≡ Client.download_seg buffer len pos toggle
      → len ≤ pos
      → on_response c (encode_download_segment_response toggle)
        ≡ done (record c { state = Client.idle }, complete none)
  unfolding on_response dispatch
  acked_last toggle waiting all = ground (
    arith,
    not_abort (encode_download_segment_response toggle) (response-ne-abort toggle),
    decode_download_segment_response_lem toggle,
    differ_self toggle,
    leb_lem len pos all,
  )

  acked_more :
      (toggle : Bool)
      → c.state ≡ Client.download_seg buffer len pos toggle
      → pos < len
      → on_response c (encode_download_segment_response toggle)
        ≡ send_download_segment (record c { state = Client.idle }) buffer len pos (not toggle)
  unfolding on_response dispatch
  acked_more toggle waiting more = ground (
    arith,
    not_abort (encode_download_segment_response toggle) (response-ne-abort toggle),
    decode_download_segment_response_lem toggle,
    differ_self toggle,
    leb_no len pos more,
  )

module _ {Buf : Type 0} ⦃b : BoundedVec ℕ max_string_len Buf⦄ (addr : Address) (t : DataType)
    (buffer : List ℕ) (len : ℕ) where
  -- Both ends are at `pos`, with the chunk there on its way: the server has the bytes before it.
  pub record IsMidway (c : SdoClient Buf) (s : SdoServer Buf) (buf : Buf) (pos : ℕ) (toggle : Bool)
      : Type 0 where
    pub within : pos ≤ len
    pub receiving : s.transfer ≡ some (download addr t buf len toggle)
    pub held : b.as_slice buf ≡ take pos buffer
    pub sending : c.state ≡ Client.download_seg buffer len (pos + chunk_size len pos) toggle

module _ {M Buf : Type 0} ⦃m : EntryMap M⦄ ⦃b : BoundedVec ℕ max_string_len Buf⦄
    (od : ObjectDictionary M) (addr : Address) (t : DataType) (v : Value) (buffer : List ℕ)
    (len : ℕ) (full : length buffer ≡ 32) (le : len ≤ 32)
    (value : decode_le t (take len buffer) ≡ ok v) {od' : ObjectDictionary M}
    (stored : write od addr v ≡ (od', ok tt)) where
  -- The last chunk ends the transfer with the value in the dictionary.
  last_chunk :
      (fuel : ℕ) (c : SdoClient Buf) (s : SdoServer Buf) (buf : Buf) (pos : ℕ) (toggle : Bool)
      → IsMidway addr t buffer len c s buf pos toggle
      → len ≤ pos + 7
      → run (suc fuel) c s od (data_frame (chunk buffer len pos) toggle (is_last len pos))
        ≡ finished
            (record c { state = Client.idle })
            (record s { transfer = none; last_write = some addr })
            od'
            (complete none)
  last_chunk fuel c s buf pos toggle mid end =
      let content = chunk buffer len pos in
      let short = length-chunk buffer len pos (omega arith) in
      let last = leb_lem (len - pos) 7 (omega arith) in
      let (buf', room, joined) = extend-chunk buf buffer len pos full le mid.within mid.held in
      let all : b.as_slice buf' ≡ take len buffer =
        joined ∙ ap (λ k. take k buffer) (omega arith) in
      run_completes fuel c s od (data_frame content toggle (is_last len pos))
        (handle_download_segment s od (data_frame content toggle (is_last len pos))
            (segment_specifier (length content) toggle (is_last len pos) (omega arith))
          ∙ ap done (
              segment_written s od (data_frame content toggle (is_last len pos)) addr t buf len
                toggle (is_last len pos) content mid.receiving
                (decode_command content toggle (is_last len pos) (omega arith)) buf' room v last
                (rw all (omega (arith, length-take len buffer))) (rw all value) stored))
        (acked_last c buffer len (pos + chunk_size len pos) toggle mid.sending (omega arith))

  -- A chunk that is not the last moves both ends on by seven bytes.
  next_chunk :
      (fuel : ℕ) (c : SdoClient Buf) (s : SdoServer Buf) (buf : Buf) (pos : ℕ) (toggle : Bool)
      → IsMidway addr t buffer len c s buf pos toggle
      → pos + 7 < len
      → (buf' : Buf) × (run
            (suc fuel)
            c
            s
            od
            (data_frame (chunk buffer len pos) toggle (is_last len pos))
          ≡ run fuel
              (record c {
                state =
                    Client.download_seg buffer len
                      (pos + 7 + chunk_size len (pos + 7))
                      (not toggle);
              })
              (record s { transfer = some (download addr t buf' len (not toggle)) })
              od
              (data_frame (chunk buffer len (pos + 7)) (not toggle) (is_last len (pos + 7))))
        × (b.as_slice buf' ≡ take (pos + 7) buffer)
  next_chunk fuel c s buf pos toggle mid more =
      let content = chunk buffer len pos in
      let short = length-chunk buffer len pos (omega arith) in
      let step : chunk_size len pos ≡ 7 = omega arith in
      let last = leb_no (len - pos) 7 (omega arith) in
      let (buf', room, joined) = extend-chunk buf buffer len pos full le mid.within mid.held in
      let sending : c.state ≡ Client.download_seg buffer len (pos + 7) toggle =
        mid.sending ∙ ap (λ (k : ℕ). Client.download_seg buffer len (pos + k) toggle) step in
      (
        buf',
        run_sends fuel c s od (data_frame content toggle (is_last len pos))
            (handle_download_segment s od (data_frame content toggle (is_last len pos))
                (segment_specifier (length content) toggle (is_last len pos) (omega arith))
              ∙ ap done (
                  segment_kept s od (data_frame content toggle (is_last len pos)) addr t buf len
                    toggle (is_last len pos) content mid.receiving
                    (decode_command content toggle (is_last len pos) (omega arith)) buf' room last))
            (acked_more c buffer len (pos + 7) toggle sending more
              ∙ send_lem (record c { state = Client.idle }) buffer len (pos + 7) (not toggle) full
                  le (omega arith)),
        joined ∙ ap (λ (k : ℕ). take (pos + k) buffer) step,
      )

  -- From anywhere in the transfer, a round for each seven bytes that are left is enough.
  pub download_loop :
      (fuel : ℕ) (c : SdoClient Buf) (s : SdoServer Buf) (buf : Buf) (pos : ℕ) (toggle : Bool)
      → IsMidway addr t buffer len c s buf pos toggle
      → len ≤ pos + 7 + 7 * fuel
      → run (suc fuel) c s od (data_frame (chunk buffer len pos) toggle (is_last len pos))
        ≡ finished
            (record c { state = Client.idle })
            (record s { transfer = none; last_write = some addr })
            od'
            (complete none)
  download_loop zero c s buf pos toggle mid enough =
      last_chunk zero c s buf pos toggle mid (omega arith)
  download_loop (suc fuel) c s buf pos toggle mid enough = elim (Bool-cases (leb len (pos + 7))) [
    | inl end ↦ last_chunk (suc fuel) c s buf pos toggle mid (ground arith)
    | inr more ↦
        let (buf', step, held) = next_chunk (suc fuel) c s buf pos toggle mid (ground arith) in
        step
        ∙ download_loop fuel
            (record c {
              state =
                  Client.download_seg buffer len (pos + 7 + chunk_size len (pos + 7)) (not toggle);
            })
            (record s { transfer = some (download addr t buf' len (not toggle)) }) buf' (pos + 7)
            (not toggle)
            (record { within = ground arith; receiving = refl; held = held; sending = refl })
            (omega arith)
  ]
