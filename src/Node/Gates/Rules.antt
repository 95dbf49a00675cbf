-- ===== src/Node/Gates/Rules.antt =====
-- core/src/node.rs: what a frame can change in a node, and what can be a reply to it.
use canopen_rs.Base.{ℕ, ◌≡◌, ◌⊎◌, refl, subst, true, false, none, some, Option, arith, inl}
use canopen_rs.Types.Outcome.{Outcome, done}
use canopen_rs.Sdo.Payload.{request_cob_id, response_cob_id}
use canopen_rs.Lss.{lss_master_cob_id, lss_slave_cob_id}
use canopen_rs.Node.{Node, lss_unconfigured}
use canopen_rs.Node.Frame.{TxFrame}
use canopen_rs.Node.Dispatch.{serves_sdo, is_operational}

module _ {M Buf Map R T H : Type 0} where
  -- A reply is one of LSS to the LSS master, or one of SDO to a request that the node serves.
  abbrev pub Answers : Node M Buf Map R T H → ℕ → Node M Buf Map R T H → TxFrame → Type 0
  Answers n cob_id n' f =
      ((cob_id ≡ lss_master_cob_id) × (f.cob_id ≡ lss_slave_cob_id))
      ⊎ ((lss_unconfigured n ≡ false)
          × (cob_id ≡ request_cob_id n.sdo.node)
          × (serves_sdo n.nmt.state ≡ true)
          × (f.cob_id ≡ response_cob_id n'.sdo.node))

  -- What a frame can change, and what can be a reply, by the state of the node.
  pub record Gated (n : Node M Buf Map R T H) (cob_id : ℕ) (n' : Node M Buf Map R T H)
      (reply : Option TxFrame) : Type 0 where
    pub dictionary :
        (n'.od ≡ n.od)
        ⊎ ((lss_unconfigured n ≡ false)
            × (((cob_id ≡ request_cob_id n.sdo.node) × (serves_sdo n.nmt.state ≡ true))
                ⊎ (is_operational n.nmt.state ≡ true)))
    pub state : (n'.nmt ≡ n.nmt) ⊎ ((lss_unconfigured n ≡ false) × (cob_id ≡ 0))
    pub answer : (reply ≡ none) ⊎ ((f : TxFrame) × (reply ≡ some f) × Answers n cob_id n' f)

  pub same-Gated : (n : Node M Buf Map R T H) (cob_id : ℕ) → Gated n cob_id n none
  same-Gated n cob_id = record { dictionary = inl refl; state = inl refl; answer = inl refl }

  -- A call that leaves the node as it was.
  pub quiet-Gated :
      (n n' : Node M Buf Map R T H) (cob_id : ℕ) (reply : Option TxFrame)
      → ◌≡◌ {A = Outcome (Node M Buf Map R T H × Option TxFrame)}
          (done (n, none))
          (done (n', reply))
      → Gated n cob_id n' reply
  quiet-Gated n n' cob_id reply e =
      let both : ◌≡◌ {A = Node M Buf Map R T H × Option TxFrame} (n, none) (n', reply) =
        ground arith in
      subst (λ (t : Node M Buf Map R T H × Option TxFrame). Gated n cob_id t.0 t.1) both
        (same-Gated n cob_id)

  pub pair-Gated :
      (n n' : Node M Buf Map R T H) (cob_id : ℕ) (reply : Option TxFrame)
      (t : Node M Buf Map R T H × Option TxFrame)
      → Gated n cob_id t.0 t.1
      → done t ≡ done (n', reply)
      → Gated n cob_id n' reply
  pair-Gated n n' cob_id reply t h e =
      let both : t ≡ (n', reply) = ground arith in
      subst (λ (u : Node M Buf Map R T H × Option TxFrame). Gated n cob_id u.0 u.1) both h
