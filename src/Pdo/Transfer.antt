-- ===== src/Pdo/Transfer.antt =====
-- core/src/pdo.rs: a frame that one node packs and another unpacks.
pub mod Spec
mod Field
mod Pack
mod Unpack
use canopen_rs.Base.{
  ℕ, ◌+◌, ◌*◌, ◌/◌, ◌≤◌, ◌<◌, ◌≡◌, ◌∙◌, refl, sym, ap, Bool, true, false, not, ◌||◌, Option, none,
  some, List, [], ◌∷◌, ◌++◌, append-nil, append_assoc, length, take, drop, overwrite, All,
  length-append, length-drop, length-take, take-append, drop-append, drop_all, ltb, ltb_no, ◌==◌,
  if◌then◌else◌, arith, Bool-cases, ==_iff, subst, inl, inr,
}
use native.Mathlib.Nat.{add-zero, zero-add}
use canopen_rs.Heapless.{BoundedVec}
use canopen_rs.Types.{Result, ok, err}
use canopen_rs.Types.Outcome.{Outcome, done, ◌>>=◌, checked_slice, checked_slice_fits}
use canopen_rs.Datatypes.DataType
use canopen_rs.Datatypes.Value
use canopen_rs.Datatypes.Value.{Value, data_type, wire_bytes, encode_le, decode_le}
use canopen_rs.Datatypes.Lemmas.{encode_le_fits, length-wire_bytes, decode_le-wire_bytes}
use canopen_rs.Objects.Address
use canopen_rs.Objects.Address.{Address}
use canopen_rs.Objects.Entry.{Entry, is_writable}
use canopen_rs.Objects.ObjectDictionary.{ObjectDictionary, EntryMap, entry, read, write, store}
use canopen_rs.Objects.ObjectDictionary.Access.{read-ok_iff, write_accepted, entry-store}
use canopen_rs.Objects.ObjectDictionary.Invariant
use canopen_rs.Pdo.{
  MappingEntry, PdoMapping, sum_bits, entries, total_bits, total_bytes, byte_width,
}
use canopen_rs.Pdo.Frame.{pack_entries, unpack_entries, pack, unpack, write_at}
use canopen_rs.Pdo.Transfer.Spec.{IsShared, Carries, Copies, take_value, is_mapped, value-IsValid}
use canopen_rs.Pdo.Transfer.Pack.{pack_loop}
use canopen_rs.Pdo.Transfer.Unpack.{unpack_loop}

module _ {M : Type 0} ⦃m : EntryMap M⦄ where
  module _ (od : ObjectDictionary M) (valid : Invariant.IsValid od) where
    module _ {N : ℕ} {V : Type 0} ⦃b : BoundedVec MappingEntry N V⦄ where
      -- Where the sender's values are valid and it can read every mapped object, and the receiver has it as a writable object
      -- of the same type and size, which is fixed, a frame that the sender packs into a buffer with
      -- room has the mapping's length and holds the values one after the other; when the receiver
      -- unpacks it, its mapped objects take the sender's values and its others stay as they are.
      pub unpack-pack :
          (mapping : PdoMapping N V) (od' : ObjectDictionary M) (buf : List ℕ)
          → All (IsShared od od') (entries mapping)
          → total_bytes mapping ≤ length buf
          → (frame : List ℕ) × (od'' : ObjectDictionary M) × (pack mapping od buf
              ≡ done (frame ++ drop (length frame) buf, ok (length frame)))
            × (length frame ≡ total_bytes mapping)
            × Carries od (entries mapping) frame
            × (unpack mapping od' frame ≡ done (od'', ok tt))
            × Copies od od' (entries mapping) od''
      unfolding pack unpack total_bytes total_bits
      unpack-pack mapping od' buf shared room =
          let (frame, packed, total, carried) =
            pack_loop od valid od' (entries mapping) [] buf shared (omega arith) in
          let (od'', unpacked, copies) =
            unpack_loop od valid (entries mapping) od' [] frame shared carried in
          let n : length frame ≡ (sum_bits (entries mapping) + 7) / 8 = omega (arith, total) in
          (
            frame,
            od'',
            rw (ltb_no (length buf) ((sum_bits (entries mapping) + 7) / 8) room)
                (packed ∙ rw (zero-add (length frame)) refl),
            n,
            carried,
            rw (ltb_no (length frame) ((sum_bits (entries mapping) + 7) / 8) (omega (arith, n)))
                unpacked,
            copies,
          )
