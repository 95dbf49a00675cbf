-- ===== src/Datatypes/Decode.antt =====
-- core/src/datatypes.rs: what `decode_le` accepts.
use canopen_rs.Base.{
  ℕ, ◌^◌, ◌≤◌, ◌<◌, ◌≡◌, refl, sym, true, false, not, List, [], ◌∷◌, ltb, ◌==◌, length, get_or,
  take, All, arith, take_all, Bool-cases, inl, inr, ◌⊎◌,
}
use canopen_rs.Base.Bytes.{IsByte, from_le_bytes, from_le_bytes-lt}
use canopen_rs.Base.Int.{IsSigned, of_bits}
use canopen_rs.Types.{Result, ok, err, bad_length}
use canopen_rs.Datatypes.DataType.{DataType}
use canopen_rs.Datatypes.Value
use canopen_rs.Datatypes.Value.{Value, decode_le, decode_bytes, wrong_length, data_type}
use canopen_rs.Datatypes.Lemmas.{filled, from_bytes_fits, filled-IsValid}

get_or-IsByte : (bs : List ℕ) → All IsByte bs → get_or bs 0 0 < 256
get_or-IsByte [] h = omega arith
get_or-IsByte (b ∷ bs) h = h.0

exact_bytes :
    (n : ℕ) (bs : List ℕ) → length bs ≡ n → All IsByte bs → from_le_bytes (take n bs) < 256 ^ n
exact_bytes n bs e h = rw (take_all n bs (omega arith)) (rw (← e) (from_le_bytes-lt bs h))

of_bits_8-IsSigned : (b : ℕ) → b < 2 ^ 8 → IsSigned 8 (of_bits 8 b)
of_bits_8-IsSigned b h = ground arith

of_bits_16-IsSigned : (b : ℕ) → b < 2 ^ 16 → IsSigned 16 (of_bits 16 b)
of_bits_16-IsSigned b h = ground arith

of_bits_32-IsSigned : (b : ℕ) → b < 2 ^ 32 → IsSigned 32 (of_bits 32 b)
of_bits_32-IsSigned b h = ground arith

of_bits_64-IsSigned : (b : ℕ) → b < 2 ^ 64 → IsSigned 64 (of_bits 64 b)
of_bits_64-IsSigned b h = ground arith

exact : (n m : ℕ) → not (n == m) ≡ false → n ≡ m
exact n m e = ground arith

fits : (n m : ℕ) → ltb m n ≡ false → n ≤ m
fits n m e = ground arith

-- A result that is a valid value of type `t`, as long as the input, or an error.
abbrev Sound : DataType → List ℕ → Result Value → Type 0
Sound t bytes (err _) = Unit
Sound t bytes (ok v) = Value.IsValid v × (data_type v ≡ t) × (Value.size v ≡ length bytes)

decode_bytes-Sound :
    (t : DataType) (bytes : List ℕ)
    → All IsByte bytes
    → wrong_length t bytes ≡ false
    → Sound t bytes (decode_bytes t bytes)
unfolding wrong_length decode_bytes data_type Value.size
decode_bytes-Sound DataType.boolean bytes h e = (tt, refl, sym (exact _ _ e))
decode_bytes-Sound DataType.integer8 bytes h e =
    (of_bits_8-IsSigned _ (get_or-IsByte bytes h), refl, sym (exact _ _ e))
decode_bytes-Sound DataType.unsigned8 bytes h e = (get_or-IsByte bytes h, refl, sym (exact _ _ e))
decode_bytes-Sound DataType.integer16 bytes h e =
    (of_bits_16-IsSigned _ (exact_bytes 2 bytes (exact _ _ e) h), refl, sym (exact _ _ e))
decode_bytes-Sound DataType.unsigned16 bytes h e =
    (exact_bytes 2 bytes (exact _ _ e) h, refl, sym (exact _ _ e))
decode_bytes-Sound DataType.integer32 bytes h e =
    (of_bits_32-IsSigned _ (exact_bytes 4 bytes (exact _ _ e) h), refl, sym (exact _ _ e))
decode_bytes-Sound DataType.unsigned32 bytes h e =
    (exact_bytes 4 bytes (exact _ _ e) h, refl, sym (exact _ _ e))
decode_bytes-Sound DataType.real32 bytes h e =
    (exact_bytes 4 bytes (exact _ _ e) h, refl, sym (exact _ _ e))
decode_bytes-Sound DataType.integer64 bytes h e =
    (of_bits_64-IsSigned _ (exact_bytes 8 bytes (exact _ _ e) h), refl, sym (exact _ _ e))
decode_bytes-Sound DataType.unsigned64 bytes h e =
    (exact_bytes 8 bytes (exact _ _ e) h, refl, sym (exact _ _ e))
decode_bytes-Sound DataType.real64 bytes h e =
    (exact_bytes 8 bytes (exact _ _ e) h, refl, sym (exact _ _ e))
decode_bytes-Sound DataType.visible_string bytes h e =
    rw (from_bytes_fits bytes (fits _ _ e)) (filled-IsValid bytes (fits _ _ e) h, refl, refl)
decode_bytes-Sound DataType.octet_string bytes h e =
    rw (from_bytes_fits bytes (fits _ _ e)) (filled-IsValid bytes (fits _ _ e) h, refl, refl)
decode_bytes-Sound DataType.domain bytes h e =
    rw (from_bytes_fits bytes (fits _ _ e)) (filled-IsValid bytes (fits _ _ e) h, refl, refl)

decode_le-Sound :
    (t : DataType) (bytes : List ℕ) → All IsByte bytes → Sound t bytes (decode_le t bytes)
unfolding decode_le
decode_le-Sound t bytes h = elim (Bool-cases (wrong_length t bytes)) [
  | inl e ↦ rw e tt
  | inr e ↦ rw e (decode_bytes-Sound t bytes h e)
]

-- What `decode_le` accepts is a valid value of the asked type, as long as the input.
pub decode_le-IsValid :
    (t : DataType) (bytes : List ℕ) (v : Value)
    → All IsByte bytes
    → decode_le t bytes ≡ ok v
    → Value.IsValid v × (data_type v ≡ t) × (Value.size v ≡ length bytes)
decode_le-IsValid t bytes v h e = rw e at (decode_le-Sound t bytes h)

decode_bytes_total :
    (t : DataType) (bytes : List ℕ)
    → wrong_length t bytes ≡ false
    → (v : Value) × (decode_bytes t bytes ≡ ok v)
unfolding wrong_length decode_bytes
decode_bytes_total DataType.visible_string bytes e =
    (Value.visible_string (filled bytes), rw (from_bytes_fits bytes (fits _ _ e)))
decode_bytes_total DataType.octet_string bytes e =
    (Value.octet_string (filled bytes), rw (from_bytes_fits bytes (fits _ _ e)))
decode_bytes_total DataType.domain bytes e =
    (Value.domain (filled bytes), rw (from_bytes_fits bytes (fits _ _ e)))
decode_bytes_total _ bytes e = (_, refl)

-- `decode_le` answers on every input: bytes of a wrong length are refused, and any others decode.
pub decode_le_total :
    (t : DataType) (bytes : List ℕ)
    → ((wrong_length t bytes ≡ true) × (decode_le t bytes ≡ err bad_length))
      ⊎ ((v : Value) × (decode_le t bytes ≡ ok v))
unfolding decode_le
decode_le_total t bytes = elim (Bool-cases (wrong_length t bytes)) [
  | inl e ↦ inl (e, rw e)
  | inr e ↦ inr (rw e (decode_bytes_total t bytes e))
]
