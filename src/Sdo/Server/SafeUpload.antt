-- ===== src/Sdo/Server/SafeUpload.antt =====
-- core/src/sdo/server.rs: the handlers of uploads are safe.
use canopen_rs.Base.{
  ℕ, ◌-◌, ◌≤◌, ◌≡◌, refl, Bool, true, not, ◌&&◌, Option, none, some, List, ◌==◌, length, arith, leb,
  differ, bit_and, Bool-cases, inl, inr, subst, same_of_differ,
}
use canopen_rs.Heapless.{BoundedVec}
use canopen_rs.Types.{Result-cases}
use canopen_rs.Datatypes.ByteString.{max_string_len}
use canopen_rs.Datatypes.Value
use canopen_rs.Datatypes.Value.{Value, data_type, decode_le}
use canopen_rs.Datatypes.Sizes.{size-le, length-transfer_buffer}
use canopen_rs.Objects.Address.{Address}
use canopen_rs.Objects.ObjectDictionary.{ObjectDictionary, EntryMap, read}
use canopen_rs.Objects.ObjectDictionary.Access.{read-ok_iff}
use canopen_rs.Objects.ObjectDictionary.Invariant
use canopen_rs.Objects.ObjectDictionary.Invariant.{Follows, Follows-refl, Follows-write}
use canopen_rs.Sdo.Payload.{Payload, address_of, toggle_bit}
use canopen_rs.Sdo.Server.{
  SdoServer, Transfer, upload, download, on_upload_initiate, on_upload_segment, upload_value,
  send_segment,
}
use canopen_rs.Sdo.Server.Branches.{upload_value_small, upload_value_large, segment_sent}
use canopen_rs.Sdo.Server.Safe.{IsReady, Safe}

module _ {M Buf : Type 0} ⦃m : EntryMap M⦄ ⦃b : BoundedVec ℕ max_string_len Buf⦄ where
  module _ (od : ObjectDictionary M) (valid : Invariant.IsValid od) where
    upload_value-Safe :
        (s : SdoServer Buf) (a : Address) (v : Value)
        → IsReady s
        → Value.IsValid v
        → Safe od true (upload_value s od a v)
    upload_value-Safe s a v ready hv =
        let kept = Follows-refl od valid in
        elim (Bool-cases (leb 1 (Value.size v) && leb (Value.size v) 4)) [
          | inl small ↦
              rw (upload_value_small s od a v hv (ground arith) (ground arith)) (ready, kept, refl)
          | inr large ↦
              rw (upload_value_large s od a v hv large)
                ((length-transfer_buffer v hv, size-le v hv, omega arith), kept, refl)
        ]

    pub on_upload_initiate-Safe :
        (s : SdoServer Buf) (req : Payload) → IsReady s → Safe od true (on_upload_initiate s od req)
    unfolding on_upload_initiate
    on_upload_initiate-Safe s req ready = elim (Result-cases (read od (address_of req))) [
      | inr (x, failed) ↦ rw (failed, on_upload_initiate) (ready, Follows-refl od valid, refl)
      | inl (v, found) ↦
          let (e, here, readable, holds) = (read-ok_iff od (address_of req) v).0 found in
          rw (found, on_upload_initiate)
            (upload_value-Safe s (address_of req) v ready (
              subst (λ x. Value.IsValid x) holds
                (Invariant.entry-IsValid od (address_of req) e valid here)))
    ]

    send_segment-Safe :
        (s : SdoServer Buf) (req : Payload) (a : Address) (buffer : List ℕ) (len pos : ℕ)
        (toggle : Bool)
        → s.transfer ≡ some (upload a buffer len pos toggle)
        → IsReady s
        → Safe od true (on_upload_segment s od req)
    unfolding on_upload_segment send_segment
    send_segment-Safe s req a buffer len pos toggle busy ready =
        let kept = Follows-refl od valid in
        let (full, le, at) : (length buffer ≡ 32) × (len ≤ 32) × (pos ≤ len) = rw busy at ready in
        elim (Bool-cases (differ (not (bit_and req.b0 toggle_bit == 0)) toggle)) [
          | inl wrong ↦ rw (busy, on_upload_segment) (rw wrong (tt, kept, refl))
          | inr right ↦
              rw
                (segment_sent s od req a buffer len pos toggle busy (same_of_differ _ toggle right)
                  full le at)
                (elim (Bool-cases (leb (len - pos) 7)) [
                  | inl last ↦ rw last (tt, kept, refl)
                  | inr more ↦ rw more ((full, le, omega arith), kept, refl)
                ])
        ]

    pub on_upload_segment-Safe :
        (s : SdoServer Buf) (req : Payload) → IsReady s → Safe od true (on_upload_segment s od req)
    unfolding on_upload_segment
    on_upload_segment-Safe s req ready = go s.transfer refl
      where
        go :
            (t : Option (Transfer Buf)) → s.transfer ≡ t → Safe od true (on_upload_segment s od req)
        go none e = rw (e, on_upload_segment) (tt, Follows-refl od valid, refl)
        go (some (download a t buf n toggle)) e =
            rw (e, on_upload_segment) (tt, Follows-refl od valid, refl)
        go (some (upload a buffer len pos toggle)) e =
            send_segment-Safe s req a buffer len pos toggle e ready
