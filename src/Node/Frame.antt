-- ===== src/Node/Frame.antt =====
-- core/src/node.rs: a frame to transmit.
use canopen_rs.Base.{
  ℕ, ◌≤◌, ◌≡◌, min, List, length, take, drop, replicate, overwrite, take_all, take-append, arith,
}

-- `data` is eight bytes, of which the first `len` are sent.
pub record TxFrame : Type 0 where
  pub cob_id : ℕ
  pub content : List ℕ
  pub len : ℕ

unfoldable pub new : ℕ → List ℕ → TxFrame
new cob_id bytes =
    let len = min (length bytes) 8 in
    record { cob_id = cob_id; content = overwrite (replicate 8 0) (take len bytes); len = len }

-- `data()`
unfoldable pub data_bytes : TxFrame → List ℕ
data_bytes f = take f.len f.content

-- A frame of at most eight bytes carries them.
pub data_bytes-new : (cob_id : ℕ) (xs : List ℕ) → length xs ≤ 8 → data_bytes (new cob_id xs) ≡ xs
unfolding data_bytes new
data_bytes-new cob_id xs h =
    let kept : min (length xs) 8 ≡ length xs = omega arith in
    rw kept (
      rw (take_all (length xs) xs (omega arith))
        (take-append xs (drop (length xs) (replicate 8 0))))
