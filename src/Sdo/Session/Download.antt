-- ===== src/Sdo/Session/Download.antt =====
-- core/src/sdo: a client's write against a server, from the first request to the confirmation.
use canopen_rs.Sdo.Server.Branches.{
  handle_download, initiate_expedited, download_expedited_writes, write_value_stores,
}
use canopen_rs.Base.{ℕ, ◌≤◌, ◌≡◌, ◌∙◌, refl, ap, true, false, none, some, List, slice, arith, subst}
use canopen_rs.Heapless.{BoundedVec}
use canopen_rs.Types.Outcome.{done}
use canopen_rs.Datatypes.ByteString.{max_string_len}
use canopen_rs.Datatypes.Value
use canopen_rs.Datatypes.Value.{Value, data_type, wire_bytes, decode_le}
use canopen_rs.Datatypes.Lemmas.{length-wire_bytes, decode_le-wire_bytes}
use canopen_rs.Objects.Address
use canopen_rs.Objects.Address.{Address}
use canopen_rs.Objects.Entry.{Entry, is_writable}
use canopen_rs.Objects.ObjectDictionary.{ObjectDictionary, EntryMap, entry, store}
use canopen_rs.Objects.ObjectDictionary.Access.{write_accepted}
use canopen_rs.Sdo.Payload.{addressed, ccs_download_initiate, from_4}
use canopen_rs.Sdo.Codec.{expedited_command, encode_download_response}
use canopen_rs.Sdo.Codec.RoundTrip.{
  address_of-addressed, differs_from_fixed-size, decode-encode_download_response,
}
use canopen_rs.Sdo.Server.{SdoServer, handle}
use canopen_rs.Sdo.Client
use canopen_rs.Sdo.Client.{SdoClient, SdoEvent, complete, send, on_response, dispatch}
use canopen_rs.Sdo.Session.Frames.{download_command, inline_bytes, not_abort, expedited_len_lem}

-- The client's answers to the server's confirmations.
module _ {Buf : Type 0} ⦃b : BoundedVec ℕ max_string_len Buf⦄ (c : SdoClient Buf) (addr : Address)
    (valid_addr : Address.IsValid addr) where
  pub confirmed_expedited :
      c.state ≡ Client.download_expedited
      → on_response c (encode_download_response addr)
        ≡ done (record c { state = Client.idle }, complete none)
  unfolding on_response dispatch
  confirmed_expedited waiting = ground (
    arith,
    not_abort (encode_download_response addr) (unfold encode_download_response in refl),
    decode-encode_download_response addr valid_addr,
  )

  pub confirmed_init :
      (buffer : List ℕ) (len : ℕ)
      → c.state ≡ Client.download_init buffer len
      → on_response c (encode_download_response addr)
        ≡ Client.send_download_segment (record c { state = Client.idle }) buffer len 0 false
  unfolding on_response dispatch
  confirmed_init buffer len waiting = ground (
    arith,
    not_abort (encode_download_response addr) (unfold encode_download_response in refl),
    decode-encode_download_response addr valid_addr,
  )

module _ {M Buf : Type 0} ⦃m : EntryMap M⦄ ⦃b : BoundedVec ℕ max_string_len Buf⦄ (c : SdoClient Buf)
    (s : SdoServer Buf) (od : ObjectDictionary M) (addr : Address) (v : Value) (e : Entry)
    (valid : Value.IsValid v) (valid_addr : Address.IsValid addr) (found : entry od addr ≡ some e)
    (writable : is_writable e.access ≡ true) (same_type : data_type e.value ≡ data_type v) where
  -- The server's answer to an expedited request with the bytes of the value.
  pub expedited_handled :
      1 ≤ Value.size v
      → Value.size v ≤ 4
      → handle s od
          (addressed (expedited_command ccs_download_initiate (Value.size v)) addr (wire_bytes v))
        ≡ done (
          record s { last_write = some addr },
          store od addr e v,
          some (encode_download_response addr),
        )
  expedited_handled low high =
      let n = Value.size v in
      let c = expedited_command ccs_download_initiate n in
      let req = addressed c addr (wire_bytes v) in
      let command = download_command n low high in
      let here = address_of-addressed c addr (wire_bytes v) valid_addr in
      let len = expedited_len_lem req (data_type v) command in
      let counted = length-wire_bytes v valid in
      let bytes =
        subst (λ k. slice 0 k (from_4 req) ≡ wire_bytes v) counted
          (inline_bytes c addr (wire_bytes v) (omega arith)) in
      handle_download s od req command.specifier
      ∙ initiate_expedited s od req e (rw here found) writable command.is_expedited
      ∙ rw (here, same_type)
          (download_expedited_writes s od req addr (data_type v) v (omega arith)
              (rw len (differs_from_fixed-size v)) (rw (len, bytes) (decode_le-wire_bytes v valid))
            ∙ ap done (
                write_value_stores s od req addr v
                  (write_accepted od addr v e found writable same_type)))
