-- ===== src/Lss/Master.antt =====
-- core/src/lss.rs: `FastscanMaster`, which finds the address of an unconfigured node, and its loop.
use canopen_rs.Base.{
  ℕ, zero, suc, ◌+◌, ◌^◌, ◌%◌, Bool, true, false, Option, none, some, List, leb, ltb, if◌then◌else◌,
  replicate, get_or, set_at, bit_and, bit_or,
}
use canopen_rs.Base.Int.{ℤ, pos, negsuc, to_bits}
use canopen_rs.Heapless.{is_some}
use canopen_rs.Types.Outcome.{Outcome, done, panicked, ◌>>=◌}
use canopen_rs.Lss.{LssFrame, LssAddress, encode_fastscan, fastscan_init}
use canopen_rs.Lss.Slave.{LssSlave, handle}

-- `bit` is an `i8`: -2 for the first probe, 31 to 0 for the bit under test, -1 to confirm.
pub record FastscanMaster : Type 0 where
  pub id : List ℕ
  pub sub : ℕ
  pub bit : ℤ
  pub found : Bool

unfoldable pub new : FastscanMaster
new = record { id = replicate 4 0; sub = 0; bit = negsuc 1; found = false }

-- The frame for a value of `bit`. The index is below four, by the guard of `next_request`.
unfoldable pub request : FastscanMaster → ℤ → LssFrame
unfolding encode_fastscan
request m (negsuc (suc zero)) = encode_fastscan 0 fastscan_init 0 0
request m (negsuc zero) =
    encode_fastscan (get_or m.id m.sub 0) 0 m.sub (bit_and ((m.sub + 1) % 2 ^ 8) 3)
request m b = encode_fastscan (get_or m.id m.sub 0) (to_bits 8 b) m.sub m.sub

unfoldable pub next_request : FastscanMaster → Option LssFrame
unfolding request
next_request m = if ltb 3 m.sub then none else some (request m m.bit)

-- `self.bit -= 1` on an `i8`.
abbrev pub one_less : ℤ → Outcome ℤ
one_less (pos zero) = done (negsuc 0)
one_less (pos (suc n)) = done (pos n)
one_less (negsuc n) = if leb 127 n then panicked else done (negsuc (suc n))

-- `1u32 << b`
abbrev pub shifted_one : ℤ → Outcome ℕ
shifted_one (pos b) = if ltb b 32 then done (2 ^ b) else panicked
shifted_one (negsuc _) = panicked

-- `self.id[self.sub as usize] |= 1u32 << b`
unfoldable pub set_bit : FastscanMaster → ℤ → Outcome FastscanMaster
set_bit m b = shifted_one b >>= λ one.
    if ltb m.sub 4
    then done (record m { id = set_at m.id m.sub (bit_or (get_or m.id m.sub 0) one) })
    else panicked

-- `on_response` for a value of `bit`.
unfoldable pub advance : FastscanMaster → ℤ → Bool → Outcome FastscanMaster
unfolding set_bit
advance m (negsuc (suc zero)) responded =
    done (if responded then record m { found = true; bit = pos 31 } else record m { sub = 4 })
advance m (negsuc zero) responded =
    if leb 255 m.sub then panicked else done (record m { sub = m.sub + 1; bit = pos 31 })
advance m b responded = (if responded then done m else set_bit m b) >>= λ m'.
    one_less b >>= λ b'. done (record m' { bit = b' })

unfoldable pub on_response : FastscanMaster → Bool → Outcome FastscanMaster
unfolding advance
on_response m responded = advance m m.bit responded

unfoldable pub is_complete : FastscanMaster → Bool
is_complete m = ltb 3 m.sub

unfoldable pub address : FastscanMaster → LssAddress
address m = record {
  vendor_id = get_or m.id 0 0;
  product_code = get_or m.id 1 0;
  revision_number = get_or m.id 2 0;
  serial_number = get_or m.id 3 0;
}

-- The loop of the master's example: each request goes to a slave, until there is none, and the
-- master hears whether it answered. The first argument bounds the requests; `none` if it runs out.
unfoldable pub discover :
    ℕ → FastscanMaster → LssSlave → Outcome (Option (FastscanMaster × LssSlave))
discover zero m s = done none
discover (suc fuel) m s = elim (next_request m) [
  | none ↦ done (some (m, s))
  | some req ↦
      let (s', answer) = handle s req in
      on_response m (is_some answer) >>= λ m'. discover fuel m' s'
]
