-- ===== src/Sdo/Segment/RoundTrip.antt =====
-- core/src/sdo/mod.rs: the segment frames, read back.
use canopen_rs.Base.{
  ℕ, ◌≤◌, ◌<◌, ◌≡◌, refl, Bool, true, false, List, [], ◌∷◌, length, arith, All, ltb_lem, take, ◌-◌,
  ◌/◌, bit_and, subst, All-take,
}
use canopen_rs.Base.Bytes.{IsByte}
use canopen_rs.Types.{ok, err, bad_length}
use canopen_rs.Sdo.Payload
use canopen_rs.Sdo.Payload.{Payload, from_1}
use canopen_rs.Sdo.Segment.{
  Segment, encode_data_segment, decode_data_segment, segment_frame, segment_command,
  encode_download_segment_response, decode_download_segment_response, encode_upload_segment_request,
  decode_upload_segment_request,
}

-- The frame of a segment of at most seven bytes.
pub encode_data_segment_fits :
    (xs : List ℕ) (toggle last : Bool)
    → length xs ≤ 7
    → encode_data_segment xs toggle last
      ≡ ok (segment_frame (segment_command (length xs) toggle last) xs)
unfolding encode_data_segment
encode_data_segment_fits xs toggle last h = ground arith

-- Its command byte has the specifier 0 and decodes to what it was built from.
pub decode_command :
    (xs : List ℕ) (toggle last : Bool)
    → length xs ≤ 7
    → decode_data_segment (segment_frame (segment_command (length xs) toggle last) xs)
      ≡ ok (record { toggle = toggle; last = last; content = xs })
unfolding decode_data_segment
decode_command [] t l h = ground arith
decode_command (a ∷ []) t l h = ground arith
decode_command (a ∷ b ∷ []) t l h = ground arith
decode_command (a ∷ b ∷ c ∷ []) t l h = ground arith
decode_command (a ∷ b ∷ c ∷ d ∷ []) t l h = ground arith
decode_command (a ∷ b ∷ c ∷ d ∷ e ∷ []) t l h = ground arith
decode_command (a ∷ b ∷ c ∷ d ∷ e ∷ f ∷ []) t l h = ground arith
decode_command (a ∷ b ∷ c ∷ d ∷ e ∷ f ∷ g ∷ []) t l h = ground arith
decode_command (a ∷ b ∷ c ∷ d ∷ e ∷ f ∷ g ∷ x ∷ xs) t l h = absurd (omega arith)

-- A data segment of at most seven bytes decodes to the bytes and the two marks that it was made of.
pub decode-encode_data_segment :
    (xs : List ℕ) (toggle last : Bool)
    → length xs ≤ 7
    → (p : Payload) × (encode_data_segment xs toggle last ≡ ok p)
      × (decode_data_segment p ≡ ok (record { toggle = toggle; last = last; content = xs }))
decode-encode_data_segment xs toggle last h = (
  segment_frame (segment_command (length xs) toggle last) xs,
  encode_data_segment_fits xs toggle last h,
  decode_command xs toggle last h,
)

-- Eight bytes or more make no segment.
pub encode_data_segment_long :
    (xs : List ℕ) (toggle last : Bool)
    → 7 < length xs
    → encode_data_segment xs toggle last ≡ err bad_length
unfolding encode_data_segment
encode_data_segment_long xs toggle last h = rw (ltb_lem 7 (length xs) h)

pub decode_download_segment_response_lem :
    (t : Bool) → decode_download_segment_response (encode_download_segment_response t) ≡ ok t
unfolding decode_download_segment_response encode_download_segment_response
decode_download_segment_response_lem true = refl
decode_download_segment_response_lem false = refl

pub decode_upload_segment_request_lem :
    (t : Bool) → decode_upload_segment_request (encode_upload_segment_request t) ≡ ok t
unfolding decode_upload_segment_request encode_upload_segment_request
decode_upload_segment_request_lem true = refl
decode_upload_segment_request_lem false = refl

-- What a segment of a frame of bytes carries are bytes.
pub decode_data_segment-IsByte :
    (p : Payload) (s : Segment)
    → Payload.IsValid p
    → decode_data_segment p ≡ ok s
    → All IsByte s.content
unfolding decode_data_segment
decode_data_segment-IsByte p s h e =
    let same : take (7 - bit_and (p.b0 / 2) 0x07) (from_1 p) ≡ s.content = ground arith in
    subst (λ xs. All IsByte xs) same (All-take IsByte (7 - bit_and (p.b0 / 2) 0x07) (from_1 p) h.1)
