-- ===== src/Sdo/Session/Write.antt =====
-- core/src/sdo: a client's write against a server, for every value.
use canopen_rs.Base.Bytes.{to_le_bytes}
use canopen_rs.Base.{
  ℕ, ◌+◌, ◌≤◌, ◌<◌, ◌≡◌, ◌∙◌, ◌^◌, refl, ap, true, false, ◌&&◌, none, some, take, arith, leb,
  leb_lem, Bool-cases, inl, inr, if◌then◌else◌,
}
use canopen_rs.Heapless.{BoundedVec}
use canopen_rs.Types.{ok}
use canopen_rs.Types.Outcome.{done, checked_slice_fits}
use canopen_rs.Datatypes.ByteString.{max_string_len, zeros}
use canopen_rs.Datatypes.DataType.{fixed_size}
use canopen_rs.Datatypes.Value
use canopen_rs.Datatypes.Value.{Value, data_type, wire_bytes, decode_le}
use canopen_rs.Datatypes.Lemmas.{decode_le-wire_bytes}
use canopen_rs.Datatypes.Sizes.{
  size-le, encode_front, transfer_buffer, length-transfer_buffer, take-transfer_buffer,
}
use canopen_rs.Objects.Address
use canopen_rs.Objects.Address.{Address}
use canopen_rs.Objects.Entry.{Entry, is_writable}
use canopen_rs.Objects.ObjectDictionary.{ObjectDictionary, EntryMap, entry, store}
use canopen_rs.Objects.ObjectDictionary.Access.{write_accepted, entry-store}
use canopen_rs.Sdo.Payload.{addressed, address_of, ccs_download_initiate}
use canopen_rs.Sdo.Codec.{
  expedited_command, encode_download_response, encode_download_initiate_segmented,
  encode_download_expedited,
}
use canopen_rs.Sdo.Codec.RoundTrip.{
  address_of-addressed, encode_expedited_fits, decode-encode_download_initiate_segmented,
}
use canopen_rs.Sdo.Server.{SdoServer, download, handle, size_suits}
use canopen_rs.Sdo.Server.Branches.{handle_download, initiate_segmented, download_segmented_starts}
use canopen_rs.Sdo.Client
use canopen_rs.Sdo.Client.{SdoClient, complete, send, on_response}
use canopen_rs.Sdo.Session.{Ending, finished, drive, run_sends, run_completes}
use canopen_rs.Sdo.Session.Chunks.{chunk_size}
use canopen_rs.Sdo.Session.Download.{confirmed_expedited, confirmed_init, expedited_handled}
use canopen_rs.Sdo.Session.DownloadLoop.{send_lem, download_loop}

-- A value's size suits its own type.
pub size_suits-size : (v : Value) → Value.IsValid v → size_suits (data_type v) (Value.size v) ≡ true
unfolding data_type Value.size fixed_size
size_suits-size (Value.visible_string s) h = leb_lem _ 32 h.bounded
size_suits-size (Value.octet_string s) h = leb_lem _ 32 h.bounded
size_suits-size (Value.domain s) h = leb_lem _ 32 h.bounded
size_suits-size (Value.boolean b) h = refl
size_suits-size _ h = refl

module _ {Buf : Type 0} (c : SdoClient Buf) (addr : Address) (v : Value)
    (valid : Value.IsValid v) where
  -- The first request, by the value's size.
  write_expedited :
      1 ≤ Value.size v
      → Value.size v ≤ 4
      → Client.write c addr v
        ≡ done (
          record c { state = Client.download_expedited },
          addressed (expedited_command ccs_download_initiate (Value.size v)) addr (wire_bytes v),
        )
  unfolding Client.write encode_download_expedited
  write_expedited low high =
      ground (arith, encode_expedited_fits ccs_download_initiate addr v valid low high)

  write_segmented :
      (leb 1 (Value.size v) && leb (Value.size v) 4) ≡ false
      → Client.write c addr v
        ≡ done (
          record c { state = Client.download_init (transfer_buffer v) (Value.size v) },
          encode_download_initiate_segmented addr (Value.size v),
        )
  unfolding Client.write
  write_segmented large = rw large (
      rw (checked_slice_fits 0 (Value.size v) zeros (omega (arith, size-le v valid)))
        (rw (encode_front v valid)))

module _ {M Buf : Type 0} ⦃m : EntryMap M⦄ ⦃b : BoundedVec ℕ max_string_len Buf⦄ (c : SdoClient Buf)
    (s : SdoServer Buf) (od : ObjectDictionary M) (addr : Address) (v : Value) (e : Entry)
    (valid : Value.IsValid v) (valid_addr : Address.IsValid addr) (found : entry od addr ≡ some e)
    (writable : is_writable e.access ≡ true) (same_type : data_type e.value ≡ data_type v) where
  -- The server's answer to the declaration of a segmented download.
  segmented_handled :
      handle s od (encode_download_initiate_segmented addr (Value.size v))
      ≡ done (
        record s { transfer = some (download addr (data_type v) b.new (Value.size v) false) },
        od,
        some (encode_download_response addr),
      )
  segmented_handled =
      let n = Value.size v in
      let req = encode_download_initiate_segmented addr n in
      let small : n < 2 ^ 32 = omega (arith, size-le v valid) in
      let here : address_of req ≡ addr = segmented_address n in
      handle_download s od req (unfold encode_download_initiate_segmented in refl)
      ∙ initiate_segmented s od req e (rw here found) writable
          (unfold encode_download_initiate_segmented in refl)
      ∙ rw (here, same_type)
          (ap done (
            download_segmented_starts s od req addr addr (data_type v) n
              (decode-encode_download_initiate_segmented addr n valid_addr small)
              (size_suits-size v valid)))
    where
      segmented_address : (n : ℕ) → address_of (encode_download_initiate_segmented addr n) ≡ addr
      segmented_address n =
          unfold encode_download_initiate_segmented in
          address_of-addressed 0x21 addr (to_le_bytes 4 n) valid_addr

  -- How the loop ends: the client is idle and the object holds the value.
  abbrev Written : SdoServer Buf → Ending M Buf
  Written s' = finished (record c { state = Client.idle }) s' (store od addr e v) (complete none)

  expedited_session :
      1 ≤ Value.size v
      → Value.size v ≤ 4
      → drive 6 (Client.write c addr v) s od ≡ Written (record s { last_write = some addr })
  unfolding drive
  expedited_session low high = rw (write_expedited c addr v valid low high) (
      run_completes 5 (record c { state = Client.download_expedited }) s od
        (addressed (expedited_command ccs_download_initiate (Value.size v)) addr (wire_bytes v))
        (expedited_handled c s od addr v e valid valid_addr found writable same_type low high)
        (confirmed_expedited (record c { state = Client.download_expedited }) addr valid_addr refl))

  segmented_session :
      (leb 1 (Value.size v) && leb (Value.size v) 4) ≡ false
      → drive 6 (Client.write c addr v) s od
        ≡ Written (record s { transfer = none; last_write = some addr })
  unfolding drive
  segmented_session large =
      let n = Value.size v in
      let le = size-le v valid in
      let full = length-transfer_buffer v valid in
      let value : decode_le (data_type v) (take n (transfer_buffer v)) ≡ ok v =
        rw (take-transfer_buffer v valid) (decode_le-wire_bytes v valid) in
      rw (write_segmented c addr v valid large) (
        run_sends 5 (record c { state = Client.download_init (transfer_buffer v) n }) s od
          (encode_download_initiate_segmented addr n) segmented_handled
          (confirmed_init (record c { state = Client.download_init (transfer_buffer v) n }) addr
              valid_addr (transfer_buffer v) n refl
            ∙ send_lem (record c { state = Client.idle }) (transfer_buffer v) n 0 false full le
                (omega arith))
        ∙ download_loop od addr (data_type v) v (transfer_buffer v) n full le value
            (write_accepted od addr v e found writable same_type) 4
            (record c {
              state = Client.download_seg (transfer_buffer v) n (0 + chunk_size n 0) false;
            })
            (record s { transfer = some (download addr (data_type v) b.new n false) }) b.new 0 false
            (record {
              within = omega arith;
              receiving = refl;
              held = b.as_slice-new;
              sending = refl;
            })
            (omega arith))

  -- Whatever the type and size of a valid value, a client that writes it to a writable object of its
  -- type, at a valid address,
  -- ends after at most six exchanges with a confirmation; then the object holds the value, nothing
  -- else of the dictionary has changed, and the server reports the write of that object.
  pub write_session :
      (s' : SdoServer Buf) × (od' : ObjectDictionary M) × (drive 6 (Client.write c addr v) s od
        ≡ finished (record c { state = Client.idle }) s' od' (complete none))
      × (s'.last_write ≡ some addr)
      × ((j : Address)
          → entry od' j ≡ (if Address.eq addr j then some (record e { value = v }) else entry od j))
  write_session =
      let stored = λ (j : Address). entry-store od addr j e v found in
      elim (Bool-cases (leb 1 (Value.size v) && leb (Value.size v) 4)) [
        | inl small ↦ (
          record s { last_write = some addr },
          store od addr e v,
          expedited_session (ground arith) (ground arith),
          refl,
          stored,
        )
        | inr large ↦ (
          record s { transfer = none; last_write = some addr },
          store od addr e v,
          segmented_session large,
          refl,
          stored,
        )
      ]
