-- ===== src/Types/NodeId.antt =====
-- core/src/types.rs: node identifiers.
use canopen_rs.Base.{ℕ, ◌≤◌, leb, ◌==◌, Bool, ◌&&◌, if◌then◌else◌}
use canopen_rs.Types.{Result, ok, err, invalid_node_id}

pub record NodeId : Type 0 where
  pub raw : ℕ

-- `NodeId::BROADCAST`
abbrev pub broadcast : NodeId
broadcast = record { raw = 0 }

unfoldable pub new : ℕ → Result NodeId
new id = if leb 1 id && leb id 127 then ok (record { raw = id }) else err invalid_node_id

-- The derived equality.
abbrev pub eq : NodeId → NodeId → Bool
eq a b = a.raw == b.raw

-- What `new` accepts.
pub record IsValid (n : NodeId) : Type 0 where
  pub low : 1 ≤ n.raw
  pub high : n.raw ≤ 127
