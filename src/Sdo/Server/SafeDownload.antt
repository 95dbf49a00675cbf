-- ===== src/Sdo/Server/SafeDownload.antt =====
-- core/src/sdo/server.rs: the handlers of downloads are safe.
use canopen_rs.Sdo.Segment.RoundTrip.{decode_data_segment-IsByte}
use canopen_rs.Heapless.Vec.{as_slice-extended}
use canopen_rs.Base.{
  ℕ, ◌≡◌, refl, Bool, true, Option, none, some, ◌==◌, length, slice, arith, ltb, differ, bit_and,
  Bool-cases, Option-cases, inl, inr, All, All-take, All-append,
}
use canopen_rs.Base.Bytes.{IsByte}
use canopen_rs.Heapless.{BoundedVec}
use canopen_rs.Types.{Result, ok, err, Result-cases}
use canopen_rs.Types.Outcome.{done, checked_slice_fits}
use canopen_rs.Datatypes.ByteString.{max_string_len}
use canopen_rs.Datatypes.DataType.{DataType}
use canopen_rs.Datatypes.Value
use canopen_rs.Datatypes.Value.{Value, data_type, decode_le}
use canopen_rs.Datatypes.Decode.{decode_le-IsValid}
use canopen_rs.Objects.Address.{Address}
use canopen_rs.Objects.Entry.{is_writable}
use canopen_rs.Objects.ObjectDictionary.{ObjectDictionary, EntryMap, entry, write}
use canopen_rs.Objects.ObjectDictionary.Invariant
use canopen_rs.Objects.ObjectDictionary.Invariant.{Follows, Follows-refl, Follows-write}
use canopen_rs.Sdo.Payload
use canopen_rs.Sdo.Payload.{Payload, from_4, address_of, cs_mask, cs_abort, expedited, toggle_bit}
use canopen_rs.Sdo.Codec.{
  differs_from_fixed, decode_download_initiate_segmented, encode_abort, SdoAbortCode,
}
use canopen_rs.Sdo.Segment.{Segment, decode_data_segment, encode_download_segment_response}
use canopen_rs.Sdo.Server.{
  SdoServer, Transfer, upload, download, on_download_initiate, on_download_segment,
  download_expedited, download_segmented, write_value, receive_segment, finish_download,
  expedited_len, size_suits, write_decoded, finish_decoded, address_0,
}
use canopen_rs.Sdo.Server.Branches.{initiate_expedited, initiate_segmented}
use canopen_rs.Sdo.Server.Safe.{IsReady, Safe, write_reply-some, segment_write_reply-some}

module _ {M Buf : Type 0} ⦃m : EntryMap M⦄ ⦃b : BoundedVec ℕ max_string_len Buf⦄ where
  module _ (od : ObjectDictionary M) (valid : Invariant.IsValid od) where
    write_value-Safe :
        (s : SdoServer Buf) (a : Address) (v : Value)
        → IsReady s
        → Value.IsValid v
        → Safe od true (done (write_value s od a v))
    unfolding write_value
    write_value-Safe s a v ready hv =
        (ready, Follows-write od a v valid hv, write_reply-some a (write od a v).1)

    write_decoded-Safe :
        (s : SdoServer Buf) (a : Address) (r : Result Value)
        → IsReady s
        → ((v : Value) → r ≡ ok v → Value.IsValid v)
        → Safe od true (done (write_decoded s od a r))
    unfolding write_decoded
    write_decoded-Safe s a (err x) ready h = (ready, Follows-refl od valid, refl)
    write_decoded-Safe s a (ok v) ready h = write_value-Safe s a v ready (h v refl)

    download_expedited-Safe :
        (s : SdoServer Buf) (req : Payload) (a : Address) (t : DataType)
        → IsReady s
        → Payload.IsValid req
        → Safe od true (download_expedited s od req a t)
    unfolding download_expedited
    download_expedited-Safe s req a t ready bytes =
        let n = expedited_len req t in
        let kept = Follows-refl od valid in
        let content = slice 0 n (from_4 req) in
        elim (Bool-cases (ltb 4 n)) [
          | inl long ↦ rw long (ready, kept, refl)
          | inr short ↦ elim (Bool-cases (differs_from_fixed t n)) [
            | inl other ↦ rw short (rw other (ready, kept, refl))
            | inr same ↦ rw short (
                rw same (
                  rw (checked_slice_fits 0 n (from_4 req) (ground arith)) (
                    write_decoded-Safe s a (decode_le t content) ready (λ v decoded.
                      (decode_le-IsValid t content v (All-take IsByte n (from_4 req) bytes.1.1.1.1)
                        decoded).0))))
          ]
        ]

    download_segmented-Safe :
        (s : SdoServer Buf) (req : Payload) (a : Address) (t : DataType)
        → IsReady s
        → Safe od true (done (download_segmented s od req a t))
    unfolding download_segmented
    download_segmented-Safe s req a t ready =
        let empty : All IsByte (b.as_slice b.new) = rw b.as_slice-new tt in
        elim (Result-cases (decode_download_initiate_segmented req)) [
          | inr (x, failed) ↦ rw (failed, download_segmented) (ready, Follows-refl od valid, refl)
          | inl ((a', size), decoded) ↦ elim (Bool-cases (size_suits t size)) [
            | inl suits ↦
                rw (decoded, download_segmented) (rw suits (empty, Follows-refl od valid, refl))
            | inr odd ↦
                rw (decoded, download_segmented) (rw odd (ready, Follows-refl od valid, refl))
          ]
        ]

    pub on_download_initiate-Safe :
        (s : SdoServer Buf) (req : Payload)
        → IsReady s
        → Payload.IsValid req
        → Safe od true (on_download_initiate s od req)
    unfolding on_download_initiate
    on_download_initiate-Safe s req ready bytes = elim (Option-cases (entry od (address_of req))) [
      | inl missing ↦ rw (missing, on_download_initiate) (ready, Follows-refl od valid, refl)
      | inr (e, found) ↦ elim (Bool-cases (is_writable e.access)) [
        | inr locked ↦
            rw (found, on_download_initiate) (rw locked (ready, Follows-refl od valid, refl))
        | inl open_ ↦ elim (Bool-cases (bit_and req.b0 expedited == 0)) [
          | inr inline_ ↦
              rw (initiate_expedited s od req e found open_ inline_)
                (download_expedited-Safe s req (address_of req) (data_type e.value) ready bytes)
          | inl segmented ↦
              rw (initiate_segmented s od req e found open_ segmented)
                (download_segmented-Safe s req (address_of req) (data_type e.value) ready)
        ]
      ]
    ]

    finish_decoded-Safe :
        (s : SdoServer Buf) (ack : Payload) (a : Address) (r : Result Value)
        → IsReady s
        → ((v : Value) → r ≡ ok v → Value.IsValid v)
        → Safe od true (done (finish_decoded s od ack a r))
    unfolding finish_decoded
    finish_decoded-Safe s ack a (err x) ready h = (ready, Follows-refl od valid, refl)
    finish_decoded-Safe s ack a (ok v) ready h = (
      ready,
      Follows-write od a v valid (h v refl),
      segment_write_reply-some a ack (write od a v).1,
    )

    finish_download-Safe :
        (s : SdoServer Buf) (ack : Payload) (a : Address) (t : DataType) (buf : Buf) (declared : ℕ)
        → IsReady s
        → All IsByte (b.as_slice buf)
        → Safe od true (done (finish_download s od ack a t buf declared))
    unfolding finish_download
    finish_download-Safe s ack a t buf declared ready bytes =
        elim (Bool-cases (length (b.as_slice buf) == declared)) [
          | inr short ↦ rw (short, finish_download) (ready, Follows-refl od valid, refl)
          | inl full ↦
              rw (full, finish_download)
                (finish_decoded-Safe s ack a (decode_le t (b.as_slice buf)) ready
                  (λ v decoded. (decode_le-IsValid t (b.as_slice buf) v bytes decoded).0))
        ]

    receive_segment-Safe :
        (s : SdoServer Buf) (seg : Segment) (a : Address) (t : DataType) (buf : Buf) (declared : ℕ)
        (toggle : Bool)
        → All IsByte (b.as_slice buf)
        → All IsByte seg.content
        → Safe od true (done (receive_segment s od seg a t buf declared toggle))
    unfolding receive_segment
    receive_segment-Safe s seg a t buf declared toggle held bytes =
        let kept = Follows-refl od valid in
        elim (Bool-cases (differ seg.toggle toggle)) [
          | inl wrong ↦ rw (wrong, receive_segment) (tt, kept, refl)
          | inr right ↦ elim (Option-cases (b.extend_from_slice buf seg.content)) [
            | inl full ↦ rw (right, receive_segment) (rw full (tt, kept, refl))
            | inr (buf', room) ↦
                let longer : All IsByte (b.as_slice buf') =
                  rw (as_slice-extended max_string_len buf buf' seg.content room)
                    (All-append IsByte (b.as_slice buf) seg.content held bytes) in
                elim (Bool-cases seg.last) [
                  | inl last ↦
                      rw (right, receive_segment)
                        (rw room (
                          rw last (
                            finish_download-Safe (record s { transfer = none })
                              (encode_download_segment_response seg.toggle) a t buf' declared tt
                              longer)))
                  | inr more ↦ rw (right, receive_segment) (rw room (rw more (longer, kept, refl)))
                ]
          ]
        ]

    pub on_download_segment-Safe :
        (s : SdoServer Buf) (req : Payload)
        → IsReady s
        → Payload.IsValid req
        → Safe od true (done (on_download_segment s od req))
    unfolding on_download_segment
    on_download_segment-Safe s req ready bytes = elim (Result-cases (decode_data_segment req)) [
      | inr (x, failed) ↦ rw (failed, on_download_segment) (ready, Follows-refl od valid, refl)
      | inl (seg, decoded) ↦
          rw (decoded, on_download_segment)
            (go seg (decode_data_segment-IsByte req seg bytes decoded) s.transfer refl)
    ]
      where
        go :
            (seg : Segment)
            → All IsByte seg.content
            → (t : Option (Transfer Buf)) → s.transfer ≡ t
            → Safe od true (
                done (elim s.transfer [
                  | some (download addr t buf declared toggle) ↦
                      receive_segment s od seg addr t buf declared toggle
                  | _ ↦ (
                    record s { transfer = none },
                    od,
                    some (encode_abort address_0 SdoAbortCode.command_invalid),
                  )
                ]))
        go seg h none e = rw e (tt, Follows-refl od valid, refl)
        go seg h (some (upload a buffer len pos toggle)) e = rw e (tt, Follows-refl od valid, refl)
        go seg h (some (download a t buf n toggle)) e =
            rw e (receive_segment-Safe s seg a t buf n toggle (rw e at ready) h)
