-- ===== src/Sdo/Codec/RoundTrip.antt =====
-- core/src/sdo/mod.rs: the initiate and abort frames, read back.
use canopen_rs.Base.{
  ℕ, ◌^◌, ◌≤◌, ◌<◌, ◌≡◌, ◌∙◌, refl, ap, true, false, ◌||◌, List, [], ◌∷◌, ◌++◌, ◌==◌, length, arith,
  ltb, if◌then◌else◌, replicate, overwrite, append-nil, drop_all, length-replicate,
}
use canopen_rs.Base.Bytes.{to_le_bytes, from_le_bytes, from-to_le_bytes}
use canopen_rs.Types.{ok, err, type_mismatch, unsupported_transfer, ◌>>=◌}
use canopen_rs.Datatypes.DataType.{DataType, fixed_size}
use canopen_rs.Datatypes.Value
use canopen_rs.Datatypes.Value.{Value, data_type, wire_bytes, encode_le, decode_le}
use canopen_rs.Datatypes.Lemmas.{encode_le_fits, length-wire_bytes, decode_le-wire_bytes}
use canopen_rs.Objects.Address
use canopen_rs.Objects.Address.{Address}
use canopen_rs.Sdo.Payload.{Payload, from_4, addressed, address_of, scs_upload_initiate}
use canopen_rs.Sdo.Codec.{
  encode_expedited, expedited_command, differs_from_fixed, encode_upload_expedited_response,
  decode_upload_expedited_response, encode_download_initiate_segmented,
  decode_download_initiate_segmented, encode_upload_initiate_segmented_response,
  decode_upload_initiate_segmented_response, encode_abort, decode_abort, SdoAbortCode, code_number,
  encode_download_response, decode_download_response,
}

pub address_of-addressed :
    (c : ℕ) (addr : Address) (xs : List ℕ)
    → Address.IsValid addr
    → address_of (addressed c addr xs) ≡ addr
address_of-addressed c addr xs h = ground arith

overwrite_zeros : (n : ℕ) (xs : List ℕ) → length xs ≡ n → overwrite (replicate n 0) xs ≡ xs
overwrite_zeros n xs e =
    ap (λ t. xs ++ t)
      (drop_all (length xs) (replicate n 0) (omega (arith, length-replicate {A = ℕ} n 0)))
    ∙ append-nil xs

-- A valid value of one to four bytes goes into one frame.
pub encode_expedited_fits :
    (cs : ℕ) (addr : Address) (v : Value)
    → Value.IsValid v
    → 1 ≤ Value.size v
    → Value.size v ≤ 4
    → encode_expedited cs addr v
      ≡ ok (addressed (expedited_command cs (Value.size v)) addr (wire_bytes v))
unfolding encode_expedited
encode_expedited_fits cs addr v h low high =
    let small : (Value.size v == 0 || ltb 4 (Value.size v)) ≡ false = ground arith in
    rw
      (
        small,
        encode_le_fits v (replicate (Value.size v) 0)
            (omega (arith, length-replicate {A = ℕ} (Value.size v) 0)),
      )
      (rw (overwrite_zeros (Value.size v) (wire_bytes v) (length-wire_bytes v h)))

-- A value of no byte, or of more than four, is refused.
pub encode_expedited_refuses :
    (cs : ℕ) (addr : Address) (v : Value)
    → (Value.size v == 0 || ltb 4 (Value.size v)) ≡ true
    → encode_expedited cs addr v ≡ err unsupported_transfer
unfolding encode_expedited
encode_expedited_refuses cs addr v e = rw e

-- The reader of an expedited response sees the bytes that went in.
decode_expedited :
    (addr : Address) (t : DataType) (xs : List ℕ)
    → 1 ≤ length xs
    → length xs ≤ 4
    → decode_upload_expedited_response
        (addressed (expedited_command scs_upload_initiate (length xs)) addr xs)
        t
      ≡ (if differs_from_fixed t (length xs)
          then err type_mismatch
          else decode_le t xs >>= λ v. ok (
            address_of (addressed (expedited_command scs_upload_initiate (length xs)) addr xs),
            v,
          ))
unfolding decode_upload_expedited_response
decode_expedited addr t [] l h = absurd (omega arith)
decode_expedited addr t (a ∷ []) l h = refl
decode_expedited addr t (a ∷ b ∷ []) l h = refl
decode_expedited addr t (a ∷ b ∷ c ∷ []) l h = refl
decode_expedited addr t (a ∷ b ∷ c ∷ d ∷ []) l h = refl
decode_expedited addr t (a ∷ b ∷ c ∷ d ∷ e ∷ xs) l h = absurd (omega arith)

-- A value's size is its type's, where that is fixed.
pub differs_from_fixed-size : (v : Value) → differs_from_fixed (data_type v) (Value.size v) ≡ false
unfolding data_type Value.size fixed_size
differs_from_fixed-size (Value.boolean b) = refl
differs_from_fixed-size (Value.integer8 b) = refl
differs_from_fixed-size _ = refl

pub decode_expedited_frame :
    (addr : Address) (v : Value)
    → Value.IsValid v
    → Address.IsValid addr
    → 1 ≤ Value.size v
    → Value.size v ≤ 4
    → decode_upload_expedited_response
        (addressed (expedited_command scs_upload_initiate (Value.size v)) addr (wire_bytes v))
        (data_type v)
      ≡ ok (addr, v)
decode_expedited_frame addr v hv ha low high =
    let e = length-wire_bytes v hv in
    rw (← e) (
      decode_expedited addr (data_type v) (wire_bytes v) (omega arith) (omega arith)
      ∙ rw (e, differs_from_fixed-size v)
          (rw (decode_le-wire_bytes v hv) (rw (address_of-addressed _ addr (wire_bytes v) ha))))

-- The server's expedited response for a valid address and a valid value of one to four bytes
-- carries both: the reader who asks for the value's type gets the address and the value.
pub decode-encode_upload_expedited_response :
    (addr : Address) (v : Value)
    → Value.IsValid v
    → Address.IsValid addr
    → 1 ≤ Value.size v
    → Value.size v ≤ 4
    → (p : Payload) × (encode_upload_expedited_response addr v ≡ ok p)
      × (decode_upload_expedited_response p (data_type v) ≡ ok (addr, v))
unfolding encode_upload_expedited_response
decode-encode_upload_expedited_response addr v hv ha low high = (
  addressed (expedited_command scs_upload_initiate (Value.size v)) addr (wire_bytes v),
  encode_expedited_fits scs_upload_initiate addr v hv low high,
  decode_expedited_frame addr v hv ha low high,
)

content_32 :
    (c size : ℕ) (addr : Address)
    → Address.IsValid addr
    → size < 2 ^ 32
    → let p = addressed c addr (to_le_bytes 4 size) in
      ◌≡◌ {A = Address × ℕ} (address_of p, from_le_bytes (from_4 p)) (addr, size)
content_32 c size addr ha h =
    rw (from-to_le_bytes 4 size h) (rw (address_of-addressed c addr (to_le_bytes 4 size) ha))

-- A segmented download initiate carries its valid address and its size below 2 ^ 32.
pub decode-encode_download_initiate_segmented :
    (addr : Address) (size : ℕ)
    → Address.IsValid addr
    → size < 2 ^ 32
    → decode_download_initiate_segmented (encode_download_initiate_segmented addr size)
      ≡ ok (addr, size)
unfolding decode_download_initiate_segmented encode_download_initiate_segmented
decode-encode_download_initiate_segmented addr size ha h = ap ok (content_32 0x21 size addr ha h)

-- A segmented upload initiate response carries its address and size.
pub decode-encode_upload_initiate_segmented_response :
    (addr : Address) (size : ℕ)
    → Address.IsValid addr
    → size < 2 ^ 32
    → decode_upload_initiate_segmented_response
        (encode_upload_initiate_segmented_response addr size)
      ≡ ok (addr, size)
unfolding decode_upload_initiate_segmented_response encode_upload_initiate_segmented_response
decode-encode_upload_initiate_segmented_response addr size ha h =
    ap ok (content_32 0x41 size addr ha h)

code_number-lt : (code : SdoAbortCode) → code_number code < 2 ^ 32
unfolding code_number
code_number-lt SdoAbortCode.general = omega arith
code_number-lt _ = omega arith

-- An abort carries its valid address and the number of its code.
pub decode-encode_abort :
    (addr : Address) (code : SdoAbortCode)
    → Address.IsValid addr
    → decode_abort (encode_abort addr code) ≡ ok (addr, code_number code)
unfolding decode_abort encode_abort
decode-encode_abort addr code ha =
    ap ok (content_32 0x80 (code_number code) addr ha (code_number-lt code))

pub decode-encode_download_response :
    (addr : Address)
    → Address.IsValid addr
    → decode_download_response (encode_download_response addr) ≡ ok addr
unfolding decode_download_response encode_download_response
decode-encode_download_response addr ha = ap ok (address_of-addressed 0x60 addr [] ha)
