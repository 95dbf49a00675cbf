-- ===== src/Sdo/Server/Safe.antt =====
-- core/src/sdo/server.rs: what a safe answer of the server is.
use canopen_rs.Base.{ℕ, ◌≤◌, ◌≡◌, refl, Bool, true, Option, none, some, length, All}
use canopen_rs.Base.Bytes.{IsByte}
use canopen_rs.Heapless.{BoundedVec, is_some}
use canopen_rs.Types.{Result, Error, ok, err}
use canopen_rs.Types.Outcome.{Outcome, done, panicked}
use canopen_rs.Datatypes.ByteString.{max_string_len}
use canopen_rs.Objects.Address.{Address}
use canopen_rs.Objects.ObjectDictionary.{ObjectDictionary, EntryMap}
use canopen_rs.Objects.ObjectDictionary.Invariant.{Follows}
use canopen_rs.Sdo.Payload.{Payload}
use canopen_rs.Sdo.Server.{
  SdoServer, Transfer, upload, download, Reply, write_reply, segment_write_reply,
}

module _ {Buf : Type 0} ⦃b : BoundedVec ℕ max_string_len Buf⦄ where
  -- What every transfer in progress satisfies.
  abbrev pub TransferIsReady : Option (Transfer Buf) → Type 0
  TransferIsReady none = Unit
  TransferIsReady (some (download addr t buf declared toggle)) = All IsByte (b.as_slice buf)
  TransferIsReady (some (upload addr buffer len pos toggle)) =
      (length buffer ≡ 32) × (len ≤ 32) × (pos ≤ len)

  abbrev pub IsReady : SdoServer Buf → Type 0
  IsReady s = TransferIsReady s.transfer

pub write_reply-some : (a : Address) (r : Result (Unit {0})) → is_some (write_reply a r) ≡ true
write_reply-some a (ok _) = refl
write_reply-some a (err Error.read_only) = refl
write_reply-some a (err Error.type_mismatch) = refl
write_reply-some a (err _) = refl

pub segment_write_reply-some :
    (a : Address) (p : Payload) (r : Result (Unit {0})) → is_some (segment_write_reply a p r) ≡ true
segment_write_reply-some a p (ok _) = refl
segment_write_reply-some a p (err Error.read_only) = refl
segment_write_reply-some a p (err _) = refl

module _ {M Buf : Type 0} ⦃m : EntryMap M⦄ ⦃b : BoundedVec ℕ max_string_len Buf⦄ where
  -- The call does not panic; it leaves the server ready, changes the dictionary only as it may, and
  -- replies exactly if `answered`.
  abbrev pub Safe : ObjectDictionary M → Bool → Outcome (Reply M Buf) → Type 0
  Safe od answered panicked = ⊥
  Safe od answered (done (s', od', reply)) =
      IsReady s' × Follows od od' × (is_some reply ≡ answered)
