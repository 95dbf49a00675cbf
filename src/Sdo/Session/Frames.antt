-- ===== src/Sdo/Session/Frames.antt =====
-- core/src/sdo/mod.rs: what the two ends read in each other's frames.
use canopen_rs.Base.{
  ℕ, zero, suc, ◌-◌, ◌/◌, ◌^◌, ◌≤◌, ◌≡◌, refl, Bool, true, false, not, List, [], ◌∷◌, ◌==◌, length,
  slice, arith, bit_and,
}
use canopen_rs.Types.{err, unexpected_command}
use canopen_rs.Datatypes.DataType.{DataType, fixed_size}
use canopen_rs.Objects.Address.{Address}
use canopen_rs.Sdo.Payload.{
  Payload, from_4, addressed, cs_mask, size_indicated, expedited, ccs_download_initiate, toggle_bit,
  scs_upload_initiate,
}
use canopen_rs.Sdo.Codec.{
  expedited_command, decode_abort, decode_upload_expedited_response,
  encode_upload_initiate_segmented_response,
}
use canopen_rs.Sdo.Segment.{
  segment_command, segment_frame, encode_download_segment_response, encode_upload_segment_request,
}
use canopen_rs.Sdo.Server.{expedited_len}

-- The command byte of an expedited download of `n` bytes.
pub record IsExpeditedDownload (c n : ℕ) : Type 0 where
  pub specifier : bit_and c cs_mask ≡ 0x20
  pub is_expedited : (bit_and c expedited == 0) ≡ false
  pub is_sized : (bit_and c size_indicated == 0) ≡ false
  pub unused : 4 - bit_and (c / 2 ^ 2) 0x03 ≡ n

pub download_command :
    (n : ℕ) → 1 ≤ n → n ≤ 4 → IsExpeditedDownload (expedited_command ccs_download_initiate n) n
download_command zero l h = absurd (omega arith)
download_command (suc zero) l h = record {
  specifier = refl;
  is_expedited = refl;
  is_sized = refl;
  unused = refl;
}
download_command (suc (suc zero)) l h = record {
  specifier = refl;
  is_expedited = refl;
  is_sized = refl;
  unused = refl;
}
download_command (suc (suc (suc zero))) l h = record {
  specifier = refl;
  is_expedited = refl;
  is_sized = refl;
  unused = refl;
}
download_command (suc (suc (suc (suc zero)))) l h = record {
  specifier = refl;
  is_expedited = refl;
  is_sized = refl;
  unused = refl;
}
download_command (suc (suc (suc (suc (suc n))))) l h = absurd (omega arith)

-- The specifier of a data segment is 0.
pub segment_specifier :
    (n : ℕ) (toggle last : Bool) → n ≤ 7 → bit_and (segment_command n toggle last) cs_mask ≡ 0
segment_specifier zero t l h = ground arith
segment_specifier (suc zero) t l h = ground arith
segment_specifier (suc (suc zero)) t l h = ground arith
segment_specifier (suc (suc (suc zero))) t l h = ground arith
segment_specifier (suc (suc (suc (suc zero)))) t l h = ground arith
segment_specifier (suc (suc (suc (suc (suc zero))))) t l h = ground arith
segment_specifier (suc (suc (suc (suc (suc (suc zero)))))) t l h = ground arith
segment_specifier (suc (suc (suc (suc (suc (suc (suc zero))))))) t l h = ground arith
segment_specifier (suc (suc (suc (suc (suc (suc (suc (suc n)))))))) t l h = absurd (omega arith)

-- The inline bytes of an expedited frame.
pub inline_bytes :
    (c : ℕ) (addr : Address) (xs : List ℕ)
    → length xs ≤ 4
    → slice 0 (length xs) (from_4 (addressed c addr xs)) ≡ xs
inline_bytes c addr [] h = refl
inline_bytes c addr (x ∷ []) h = refl
inline_bytes c addr (x ∷ y ∷ []) h = refl
inline_bytes c addr (x ∷ y ∷ z ∷ []) h = refl
inline_bytes c addr (x ∷ y ∷ z ∷ w ∷ []) h = refl
inline_bytes c addr (x ∷ y ∷ z ∷ w ∷ v ∷ xs) h = absurd (omega arith)

-- The client takes none of the server's regular frames for an abort.
pub not_abort : (p : Payload) → (p.b0 == 0x80) ≡ false → decode_abort p ≡ err unexpected_command
unfolding decode_abort
not_abort p h = rw h

pub data_segment-ne-abort :
    (n : ℕ) (toggle last : Bool) → n ≤ 7 → (segment_command n toggle last == 0x80) ≡ false
data_segment-ne-abort zero t l h = ground arith
data_segment-ne-abort (suc zero) t l h = ground arith
data_segment-ne-abort (suc (suc zero)) t l h = ground arith
data_segment-ne-abort (suc (suc (suc zero))) t l h = ground arith
data_segment-ne-abort (suc (suc (suc (suc zero)))) t l h = ground arith
data_segment-ne-abort (suc (suc (suc (suc (suc zero))))) t l h = ground arith
data_segment-ne-abort (suc (suc (suc (suc (suc (suc zero)))))) t l h = ground arith
data_segment-ne-abort (suc (suc (suc (suc (suc (suc (suc zero))))))) t l h = ground arith
data_segment-ne-abort (suc (suc (suc (suc (suc (suc (suc (suc n)))))))) t l h = absurd (omega arith)

-- The server reads the length out of the command byte, whatever the object's type.
pub expedited_len_lem :
    (req : Payload) (t : DataType) {n : ℕ} → IsExpeditedDownload req.b0 n → expedited_len req t ≡ n
unfolding fixed_size
expedited_len_lem req t command = rw command.is_sized command.unused

-- The frame of a data segment.
abbrev pub data_frame : List ℕ → Bool → Bool → Payload
data_frame content toggle last =
    segment_frame (segment_command (length content) toggle last) content

pub response-ne-abort : (t : Bool) → ((encode_download_segment_response t).b0 == 0x80) ≡ false
unfolding encode_download_segment_response
response-ne-abort true = refl
response-ne-abort false = refl

-- The request for a segment carries its specifier and toggle bit.
pub request_specifier : (t : Bool) → bit_and (encode_upload_segment_request t).b0 cs_mask ≡ 0x60
unfolding encode_upload_segment_request
request_specifier true = refl
request_specifier false = refl

pub request_toggle :
    (t : Bool) → not (bit_and (encode_upload_segment_request t).b0 toggle_bit == 0) ≡ t
unfolding encode_upload_segment_request
request_toggle true = refl
request_toggle false = refl

pub expedited_response-ne-abort :
    (n : ℕ) → 1 ≤ n → n ≤ 4 → (expedited_command scs_upload_initiate n == 0x80) ≡ false
expedited_response-ne-abort zero l h = absurd (omega arith)
expedited_response-ne-abort (suc zero) l h = refl
expedited_response-ne-abort (suc (suc zero)) l h = refl
expedited_response-ne-abort (suc (suc (suc zero))) l h = refl
expedited_response-ne-abort (suc (suc (suc (suc zero)))) l h = refl
expedited_response-ne-abort (suc (suc (suc (suc (suc n))))) l h = absurd (omega arith)

-- The declaration of a segmented upload is no expedited response.
pub not_expedited :
    (addr : Address) (size : ℕ) (t : DataType)
    → decode_upload_expedited_response (encode_upload_initiate_segmented_response addr size) t
      ≡ err unexpected_command
unfolding decode_upload_expedited_response encode_upload_initiate_segmented_response
not_expedited addr size t = refl
