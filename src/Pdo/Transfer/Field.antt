-- ===== src/Pdo/Transfer/Field.antt =====
-- core/src/pdo.rs: one field of a frame.
use canopen_rs.Base.{
  ℕ, ◌+◌, ◌*◌, ◌≤◌, ◌≡◌, ◌∙◌, refl, sym, false, List, [], ◌∷◌, ◌++◌, append-nil, append_assoc,
  length, take, drop, length-append, length-take, take-append, drop-append, drop_all, arith,
}
use canopen_rs.Types.{Result, ok}
use canopen_rs.Types.Outcome.{Outcome, done, checked_slice, checked_slice_fits}
use canopen_rs.Datatypes.DataType
use canopen_rs.Datatypes.Value
use canopen_rs.Datatypes.Value.{Value, data_type, wire_bytes, encode_le, decode_le}
use canopen_rs.Datatypes.Lemmas.{encode_le_fits, length-wire_bytes}
use canopen_rs.Pdo.{byte_width}
use canopen_rs.Pdo.Frame.{write_at}

pub size_pos : (v : Value) → DataType.is_variable (data_type v) ≡ false → 1 ≤ Value.size v
unfolding DataType.is_variable data_type Value.size DataType.fixed_size DataType.size
size_pos (Value.visible_string s) h = absurd (ground arith)
size_pos (Value.octet_string s) h = absurd (ground arith)
size_pos (Value.domain s) h = absurd (ground arith)
size_pos _ h = omega arith

pub size_fixed :
    (v : Value)
    → DataType.is_variable (data_type v) ≡ false
    → DataType.size (data_type v) ≡ Value.size v
unfolding DataType.is_variable data_type Value.size DataType.fixed_size DataType.size
size_fixed (Value.visible_string s) h = absurd (ground arith)
size_fixed (Value.octet_string s) h = absurd (ground arith)
size_fixed (Value.domain s) h = absurd (ground arith)
size_fixed _ h = refl

pub byte_width_lem : (n k : ℕ) → 1 ≤ k → 8 * k ≡ n → byte_width n ≡ ok k
unfolding byte_width
byte_width_lem n k h e = ground arith

-- A field in the middle of a buffer is replaced by as many bytes.
pub write_at_lem :
    (pre old bytes : List ℕ)
    → write_at (length pre) bytes (pre ++ old) ≡ pre ++ bytes ++ drop (length bytes) old
write_at_lem pre old bytes =
    rw (take-append pre old, drop-append pre old)
      (sym (append_assoc pre bytes (drop (length bytes) old)))

pub field_lem :
    (pre old : List ℕ) (w : ℕ)
    → w ≤ length old
    → checked_slice (length pre) w (pre ++ old) ≡ done (take w old)
field_lem pre old w h =
    checked_slice_fits (length pre) w (pre ++ old) (omega (arith, length-append pre old))
    ∙ rw (drop-append pre old) refl

drop-append_front :
    (xs rest old : List ℕ)
    → drop (length rest) (drop (length xs) old) ≡ drop (length (xs ++ rest)) old
drop-append_front [] rest old = refl
drop-append_front (x ∷ xs) rest [] = drop_all (length rest) [] (omega arith)
drop-append_front (x ∷ xs) rest (o ∷ old) = drop-append_front xs rest old

-- What the rest of the loop leaves, seen from before a field.
pub joined :
    (pre xs rest old : List ℕ)
    → ◌≡◌ {A = Outcome (List ℕ × Result ℕ)}
        (done (
          pre ++ xs ++ rest ++ drop (length rest) (drop (length xs) old),
          ok (length (pre ++ xs) + length rest),
        ))
        (done (
          pre ++ (xs ++ rest) ++ drop (length (xs ++ rest)) old,
          ok (length pre + length (xs ++ rest)),
        ))
joined pre xs rest old =
    let n : length (pre ++ xs) + length rest ≡ length pre + length (xs ++ rest) =
      omega (arith, length-append pre xs, length-append xs rest) in
    rw (n, drop-append_front xs rest old, append_assoc pre xs rest) refl

-- A valid value fills a field of its size.
pub encode_field :
    (v : Value) (old : List ℕ)
    → Value.IsValid v
    → Value.size v ≤ length old
    → encode_le v (take (Value.size v) old) ≡ ok (wire_bytes v, Value.size v)
encode_field v old h room =
    let n : length (take (Value.size v) old) ≡ Value.size v =
      omega (arith, length-take (Value.size v) old) in
    encode_le_fits v (take (Value.size v) old) (omega (arith, n))
    ∙ rw
        (drop_all (length (wire_bytes v)) (take (Value.size v) old)
          (omega (arith, n, length-wire_bytes v h)))
        (rw (append-nil (wire_bytes v)) refl)
