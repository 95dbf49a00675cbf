-- ===== src/Emcy/Wire.antt =====
-- core/src/emcy.rs: an emergency message, read back.
use canopen_rs.Base.{ℕ, ◌+◌, ◌*◌, ◌≡◌, List, [], ◌∷◌, length, take_all, arith, All}
use canopen_rs.Base.Bytes.{IsByte, from-to_le_bytes}
use canopen_rs.Types.{ok}
use canopen_rs.Emcy
use canopen_rs.Emcy.{EmergencyMessage, encode, decode}

-- A valid message decodes to itself.
pub decode-encode_message : (m : EmergencyMessage) → Emcy.IsValid m → decode (encode m) ≡ ok m
unfolding decode encode
decode-encode_message m h = ground (
  arith,
  from-to_le_bytes 2 m.error_code h.code_lt,
  take_all 5 m.vendor_specific (omega (arith, h.five)),
)

-- A data field of bytes that decodes is the frame of the message that it decodes to, which is valid.
pub encode-decode_message :
    (bytes : List ℕ) (m : EmergencyMessage)
    → All IsByte bytes
    → decode bytes ≡ ok m
    → (encode m ≡ bytes) × Emcy.IsValid m
unfolding decode encode
encode-decode_message [] m h e = absurd (ground arith)
encode-decode_message (a ∷ []) m h e = absurd (ground arith)
encode-decode_message (a ∷ b ∷ []) m h e = absurd (ground arith)
encode-decode_message (a ∷ b ∷ c ∷ v) m h e =
    let five : length v ≡ 5 = ground arith in
    let code : m.error_code ≡ a + 256 * b = ground arith in
    let register : m.error_register.bits ≡ c = ground arith in
    let vendor : m.vendor_specific ≡ v = ground (arith, take_all 5 v (omega (arith, five))) in
    (
      rw (code, register, vendor) (ground (arith, h.0, h.1.0)),
      record { code_lt = omega (arith, code, h.0, h.1.0); five = rw vendor five },
    )
