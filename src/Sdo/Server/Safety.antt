-- ===== src/Sdo/Server/Safety.antt =====
-- core/src/sdo/server.rs: the server on any request whatsoever.
use canopen_rs.Base.{ℕ, refl, not, ◌==◌, bit_and, Bool-cases, inl, inr, ==_iff}
use canopen_rs.Heapless.{BoundedVec}
use canopen_rs.Datatypes.ByteString.{max_string_len}
use canopen_rs.Objects.ObjectDictionary.{ObjectDictionary, EntryMap}
use canopen_rs.Objects.ObjectDictionary.Invariant
use canopen_rs.Objects.ObjectDictionary.Invariant.{Follows, Follows-refl, Follows-write}
use canopen_rs.Sdo.Payload
use canopen_rs.Sdo.Payload.{Payload, from_4, address_of, cs_mask, cs_abort, expedited, toggle_bit}
use canopen_rs.Sdo.Server.{SdoServer, handle}
use canopen_rs.Sdo.Server.Safe.{IsReady, Safe}
use canopen_rs.Sdo.Server.SafeDownload.{on_download_initiate-Safe, on_download_segment-Safe}
use canopen_rs.Sdo.Server.SafeUpload.{on_upload_initiate-Safe, on_upload_segment-Safe}

module _ {M Buf : Type 0} ⦃m : EntryMap M⦄ ⦃b : BoundedVec ℕ max_string_len Buf⦄ where
  module _ (od : ObjectDictionary M) (valid : Invariant.IsValid od) where
    -- On any request of eight bytes, a server that is ready, over a dictionary of valid values, does
    -- not panic and stays ready. It keeps
    -- every value valid, every object with its type and access rights, and all that is in objects
    -- which are not writable. It replies to every request but an abort.
    pub handle-Safe :
        (s : SdoServer Buf) (req : Payload)
        → IsReady s
        → Payload.IsValid req
        → Safe od (not (bit_and req.b0 cs_mask == cs_abort)) (handle s od req)
    unfolding handle
    handle-Safe s req ready bytes =
        let cs = bit_and req.b0 cs_mask in
        let at = λ (n : ℕ). (==_iff cs n).0 in
        elim (Bool-cases (cs == 0x20)) [
          | inl e ↦ rw (at 0x20 e) (on_download_initiate-Safe od valid s req ready bytes)
          | inr e₁ ↦ elim (Bool-cases (cs == 0x40)) [
            | inl e ↦ rw (at 0x40 e) (on_upload_initiate-Safe od valid s req ready)
            | inr e₂ ↦ elim (Bool-cases (cs == 0)) [
              | inl e ↦ rw (at 0 e) (on_download_segment-Safe od valid s req ready bytes)
              | inr e₃ ↦ elim (Bool-cases (cs == 0x60)) [
                | inl e ↦ rw (at 0x60 e) (on_upload_segment-Safe od valid s req ready)
                | inr e₄ ↦ elim (Bool-cases (cs == 0x80)) [
                  | inl e ↦ rw (at 0x80 e) (tt, Follows-refl od valid, refl)
                  | inr e₅ ↦
                      rw e₅ (
                        rw (e₁, handle)
                          (rw e₂ (rw e₃ (rw e₄ (ready, Follows-refl od valid, refl)))))
                ]
              ]
            ]
          ]
        ]
