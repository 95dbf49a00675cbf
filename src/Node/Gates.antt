-- ===== src/Node/Gates.antt =====
-- core/src/node.rs: which frames a node answers and obeys, by its state.
mod Branches
pub mod Rules
use canopen_rs.Base.{
  ℕ, ◌≡◌, ◌≢◌, ◌⊎◌, ◌∙◌, refl, sym, ap, subst, true, false, none, some, Option, List, length, arith,
  Bool-cases, Option-cases, inl, inr, ltb, ◌==◌, ==_iff,
}
use mathlib.Core.Option
use canopen_rs.Heapless.{BoundedVec}
use canopen_rs.Datatypes.ByteString.{max_string_len}
use canopen_rs.Types.{Result}
use canopen_rs.Types.NodeId.{NodeId}
use canopen_rs.Types.Outcome.{Outcome, done, panicked, ◌>>=◌}
use canopen_rs.Objects.ObjectDictionary.{ObjectDictionary, EntryMap}
use canopen_rs.Sdo.Payload.{Payload, all_bytes, request_cob_id, response_cob_id}
use canopen_rs.Sdo.Server
use canopen_rs.Sdo.Server.{Reply}
use canopen_rs.Lss.{lss_master_cob_id, lss_slave_cob_id}
use canopen_rs.Pdo.{MappingEntry}
use canopen_rs.Node.{Node, RpdoSlot, max_pdos, max_pdo_mapping, lss_unconfigured}
use canopen_rs.Node.Frame
use canopen_rs.Node.Frame.{TxFrame}
use canopen_rs.Pdo.Frame.{unpack}
use canopen_rs.Node.Safety.{on_nmt-keeps}
use canopen_rs.Node.Dispatch.{
  on_lss, on_nmt, on_sdo, on_rpdo, on_frame, padded, serves_sdo, is_operational, find_mapping,
}
use canopen_rs.Node.Gates.Rules.{Answers, Gated, quiet-Gated, pair-Gated}
use canopen_rs.Node.Gates.Branches.{no_reply, Branch, Branch-of, lss, unconfigured, nmt, sdo, rpdo}

replied-cob_id :
    (node : NodeId) (response : Option Payload) (f : TxFrame)
    → Option.map (λ p. Frame.new (response_cob_id node) (all_bytes p)) response ≡ some f
    → f.cob_id ≡ response_cob_id node
unfolding Frame.new
replied-cob_id node none f e = absurd (ground arith)
replied-cob_id node (some p) f e = ground arith

module _ {M Buf Map R T H : Type 0} ⦃m : EntryMap M⦄ ⦃buf : BoundedVec ℕ max_string_len Buf⦄
    ⦃map : BoundedVec MappingEntry max_pdo_mapping Map⦄
    ⦃r : BoundedVec (RpdoSlot Map) max_pdos R⦄ where
  -- A node that has no node-id yet ignores every frame but those of LSS.
  pub on_frame-unconfigured :
      (n : Node M Buf Map R T H) (cob_id : ℕ) (bytes : List ℕ)
      → lss_unconfigured n ≡ true
      → cob_id ≢ lss_master_cob_id
      → on_frame n cob_id bytes ≡ done (n, none)
  unfolding on_frame
  on_frame-unconfigured n cob_id bytes no_id other = ground arith

  on_lss-Gated :
      (n : Node M Buf Map R T H) (cob_id : ℕ) (bytes : List ℕ)
      → cob_id ≡ lss_master_cob_id
      → Gated n cob_id (on_lss n bytes).0 (on_lss n bytes).1
  unfolding on_lss Frame.new
  on_lss-Gated n cob_id bytes e = record {
    dictionary = inl (ground arith);
    state = inl (ground arith);
    answer = elim (Option-cases (on_lss n bytes).1) [
      | inl none_ ↦ inl none_
      | inr (f, some_) ↦ inr (f, some_, inl (e, ground arith))
    ];
  }

  -- The node after a reply of the server.
  abbrev replied :
      Node M Buf Map R T H → Outcome (Reply M Buf) → Outcome (Node M Buf Map R T H × Option TxFrame)
  replied n o = o >>= λ (s, od, response). done (
    record n { sdo = s; od = od },
    Option.map (λ p. Frame.new (response_cob_id s.node) (all_bytes p)) response,
  )

  replied-Gated :
      (n n' : Node M Buf Map R T H) (cob_id : ℕ) (reply : Option TxFrame)
      (o : Outcome (Reply M Buf))
      → lss_unconfigured n ≡ false
      → cob_id ≡ request_cob_id n.sdo.node
      → serves_sdo n.nmt.state ≡ true
      → replied n o ≡ done (n', reply)
      → Gated n cob_id n' reply
  replied-Gated n n' cob_id reply panicked configured to_server open_ e = absurd (ground arith)
  replied-Gated n n' cob_id reply (done (s, od, response)) configured to_server open_ e =
      let both : (
        record n { sdo = s; od = od },
        Option.map (λ p. Frame.new (response_cob_id s.node) (all_bytes p)) response,
      )
          ≡ (n', reply) =
        ground arith in
      let frames : Option.map (λ p. Frame.new (response_cob_id s.node) (all_bytes p)) response
          ≡ reply =
        λ i. (both i).1 in
      let same : response_cob_id s.node ≡ response_cob_id n'.sdo.node =
        λ i. response_cob_id (both i).0.sdo.node in
      record {
        dictionary = inr (configured, inl (to_server, open_));
        state = inl (sym (ap (λ (t : Node M Buf Map R T H × Option TxFrame). t.0.nmt) both));
        answer = elim (Option-cases reply) [
          | inl none_ ↦ inl none_
          | inr (f, some_) ↦ inr (
            f,
            some_,
            inr (
              configured,
              to_server,
              open_,
              replied-cob_id s.node response f (frames ∙ some_) ∙ same,
            ),
          )
        ];
      }

  on_sdo-Gated :
      (n n' : Node M Buf Map R T H) (cob_id : ℕ) (bytes : List ℕ) (reply : Option TxFrame)
      → lss_unconfigured n ≡ false
      → cob_id ≡ request_cob_id n.sdo.node
      → on_sdo n bytes ≡ done (n', reply)
      → Gated n cob_id n' reply
  unfolding on_sdo Frame.new
  on_sdo-Gated n n' cob_id bytes reply configured to_server e =
      elim (Bool-cases (serves_sdo n.nmt.state)) [
        | inr closed ↦ quiet-Gated n n' cob_id reply (sym (rw closed refl) ∙ e)
        | inl open_ ↦ elim (Bool-cases (ltb 8 (length bytes))) [
          | inl long ↦ quiet-Gated n n' cob_id reply (sym (rw (open_, long) refl) ∙ e)
          | inr fits ↦
              replied-Gated n n' cob_id reply (Server.handle n.sdo n.od (padded bytes)) configured
                to_server open_ (sym (rw (open_, fits) refl) ∙ e)
        ]
      ]

  unpacked-Gated :
      (n n' : Node M Buf Map R T H) (cob_id : ℕ) (reply : Option TxFrame)
      (o : Outcome (ObjectDictionary M × Result (Unit {0})))
      → lss_unconfigured n ≡ false
      → is_operational n.nmt.state ≡ true
      → no_reply (o >>= λ (od, _). done (record n { od = od })) ≡ done (n', reply)
      → Gated n cob_id n' reply
  unpacked-Gated n n' cob_id reply panicked configured runs e = absurd (ground arith)
  unpacked-Gated n n' cob_id reply (done (od, _)) configured runs e =
      let both : ◌≡◌ {A = Node M Buf Map R T H × Option TxFrame} (record n { od = od }, none)
          (n', reply) =
        ground arith in
      let silent = ap (λ (t : Node M Buf Map R T H × Option TxFrame). t.1) both in
      record {
        dictionary = inr (configured, inr runs);
        state = inl (sym (ap (λ (t : Node M Buf Map R T H × Option TxFrame). t.0.nmt) both));
        answer = inl (sym silent);
      }

  on_rpdo-Gated :
      (n n' : Node M Buf Map R T H) (cob_id : ℕ) (bytes : List ℕ) (reply : Option TxFrame)
      → lss_unconfigured n ≡ false
      → no_reply (on_rpdo n cob_id bytes) ≡ done (n', reply)
      → Gated n cob_id n' reply
  unfolding on_rpdo
  on_rpdo-Gated n n' cob_id bytes reply configured e =
      elim (Bool-cases (is_operational n.nmt.state)) [
        | inr idle ↦ quiet-Gated n n' cob_id reply (sym (rw idle refl) ∙ e)
        | inl runs ↦ elim (Option-cases (find_mapping (r.as_slice n.rpdos) cob_id)) [
          | inl missing ↦ quiet-Gated n n' cob_id reply (sym (rw (runs, missing) refl) ∙ e)
          | inr (mapping, found) ↦
              unpacked-Gated n n' cob_id reply (unpack mapping n.od bytes) configured runs
                (sym (rw (runs, found) refl) ∙ e)
        ]
      ]

  on_nmt-Gated :
      (n : Node M Buf Map R T H) (bytes : List ℕ) (cob_id : ℕ)
      → lss_unconfigured n ≡ false
      → cob_id ≡ 0
      → Gated n cob_id (on_nmt n bytes) none
  on_nmt-Gated n bytes cob_id configured e = record {
    dictionary = inl (on_nmt-keeps n bytes).1;
    state = inr (configured, e);
    answer = inl refl;
  }

  -- A frame that a node handles changes its dictionary only if the node has a node-id, and then only
  -- as an SDO request in a state that serves SDO, pre-operational or operational, or in the
  -- operational state. It changes the NMT state only as a node-control frame to a node with a
  -- node-id. A reply is one on the LSS channel to the LSS master, or one on the SDO channel to an SDO
  -- request that a node with a node-id gets in a state that serves SDO.
  pub on_frame-Gated :
      (n n' : Node M Buf Map R T H) (cob_id : ℕ) (bytes : List ℕ) (reply : Option TxFrame)
      → on_frame n cob_id bytes ≡ done (n', reply)
      → Gated n cob_id n' reply
  on_frame-Gated n n' cob_id bytes reply e = elim (Branch-of n cob_id bytes) [
    | lss at b ↦
        pair-Gated n n' cob_id reply (on_lss n bytes) (on_lss-Gated n cob_id bytes at) (sym b ∙ e)
    | unconfigured b ↦ quiet-Gated n n' cob_id reply (sym b ∙ e)
    | nmt configured at b ↦
        pair-Gated n n' cob_id reply (on_nmt n bytes, none)
          (on_nmt-Gated n bytes cob_id configured at) (sym b ∙ e)
    | sdo configured at b ↦ on_sdo-Gated n n' cob_id bytes reply configured at (sym b ∙ e)
    | rpdo configured b ↦ on_rpdo-Gated n n' cob_id bytes reply configured (sym b ∙ e)
  ]
