-- ===== src/Sdo/Session/Chunks.antt =====
-- core/src/sdo: the chunks of at most seven bytes that both directions of a segmented transfer send.
use canopen_rs.Base.{
  ℕ, ◌+◌, ◌-◌, ◌≤◌, ◌≡◌, ◌∙◌, min, Bool, List, length, slice, take, arith, leb, length-slice,
  length-take, take-slice,
}
use canopen_rs.Heapless.{BoundedVec}
use canopen_rs.Heapless.Vec.{extend_fits}
use canopen_rs.Base.{some}
use canopen_rs.Datatypes.ByteString.{max_string_len}

-- The chunk at `pos` of a transfer of `len` bytes, and whether it is the last.
abbrev pub chunk_size : ℕ → ℕ → ℕ
chunk_size len pos = min (len - pos) 7

abbrev pub chunk : List ℕ → ℕ → ℕ → List ℕ
chunk buffer len pos = slice pos (chunk_size len pos) buffer

abbrev pub is_last : ℕ → ℕ → Bool
is_last len pos = leb (len - pos) 7

pub length-chunk :
    (buffer : List ℕ) (len pos : ℕ)
    → len ≤ length buffer
    → length (chunk buffer len pos) ≡ chunk_size len pos
length-chunk buffer len pos h = omega (arith, length-slice pos (chunk_size len pos) buffer)

module _ {Buf : Type 0} ⦃b : BoundedVec ℕ max_string_len Buf⦄ where
  -- A receiver that holds the first `pos` bytes has room for the next chunk and then holds it too.
  pub extend-chunk :
      (buf : Buf) (buffer : List ℕ) (len pos : ℕ)
      → length buffer ≡ 32
      → len ≤ 32
      → pos ≤ len
      → b.as_slice buf ≡ take pos buffer
      → (buf' : Buf) × (b.extend_from_slice buf (chunk buffer len pos) ≡ some buf')
        × (b.as_slice buf' ≡ take (pos + chunk_size len pos) buffer)
  extend-chunk buf buffer len pos full le at held =
      let filled : length (b.as_slice buf) ≡ pos =
        rw held (omega (arith, length-take pos buffer)) in
      let (buf', e, joined) =
        extend_fits max_string_len buf (chunk buffer len pos)
          (omega (arith, length-chunk buffer len pos)) in
      (buf', e, joined ∙ rw held (take-slice pos (chunk_size len pos) buffer))
