-- ===== src/Emcy.antt =====
-- core/src/emcy.rs: the emergency object. A data field is the list of its bytes.
pub mod Wire
use canopen_rs.Base.{
  ℕ, ◌+◌, ◌^◌, ◌<◌, ◌≡◌, Bool, not, List, [], ◌∷◌, ◌++◌, length, take, drop, slice, replicate,
  get_or, ◌==◌, if◌then◌else◌, bit_and,
}
use canopen_rs.Base.Bytes.{to_le_bytes, from_le_bytes}
use canopen_rs.Types.{Result, ok, err, bad_length}
use canopen_rs.Types.NodeId.{NodeId}

abbrev pub emcy_cob_base : ℕ
emcy_cob_base = 0x080

unfoldable pub emcy_cob_id : NodeId → ℕ
emcy_cob_id node = emcy_cob_base + node.raw

-- `error_code::ERROR_RESET`
abbrev pub error_reset_code : ℕ
error_reset_code = 0x0000

pub record ErrorRegister : Type 0 where
  pub bits : ℕ

unfoldable pub contains : ErrorRegister → ℕ → Bool
contains register bits = bit_and register.bits bits == bits

unfoldable pub has_error : ErrorRegister → Bool
has_error register = not (register.bits == 0)

pub record EmergencyMessage : Type 0 where
  pub error_code : ℕ
  pub error_register : ErrorRegister
  pub vendor_specific : List ℕ

-- `vendor_specific` is a `[u8; 5]`.
pub record IsValid (m : EmergencyMessage) : Type 0 where
  pub code_lt : m.error_code < 2 ^ 16
  pub five : length m.vendor_specific ≡ 5

unfoldable pub error_reset : EmergencyMessage
error_reset = record {
  error_code = error_reset_code;
  error_register = record { bits = 0 };
  vendor_specific = replicate 5 0;
}

unfoldable pub is_error_reset : EmergencyMessage → Bool
is_error_reset m = m.error_code == error_reset_code

unfoldable pub encode : EmergencyMessage → List ℕ
encode m = to_le_bytes 2 m.error_code ++ m.error_register.bits ∷ m.vendor_specific

unfoldable pub decode : List ℕ → Result EmergencyMessage
decode bytes =
    if not (length bytes == 8)
    then err bad_length
    else ok (record {
      error_code = from_le_bytes (take 2 bytes);
      error_register = record { bits = get_or bytes 2 0 };
      vendor_specific = slice 3 5 bytes;
    })
