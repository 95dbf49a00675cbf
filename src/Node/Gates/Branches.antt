-- ===== src/Node/Gates/Branches.antt =====
-- core/src/node.rs: the branches of `on_frame`.
use canopen_rs.Base.{
  ℕ, ◌≡◌, refl, false, none, Option, List, arith, Bool-cases, inl, inr, ◌==◌, ==_iff,
}
use canopen_rs.Heapless.{BoundedVec}
use canopen_rs.Datatypes.ByteString.{max_string_len}
use canopen_rs.Types.Outcome.{Outcome, done, ◌>>=◌}
use canopen_rs.Objects.ObjectDictionary.{EntryMap}
use canopen_rs.Sdo.Payload.{request_cob_id}
use canopen_rs.Lss.{lss_master_cob_id}
use canopen_rs.Pdo.{MappingEntry}
use canopen_rs.Node.{Node, RpdoSlot, max_pdos, max_pdo_mapping, lss_unconfigured}
use canopen_rs.Node.Frame.{TxFrame}
use canopen_rs.Node.Dispatch.{on_lss, on_nmt, on_sdo, on_rpdo, on_frame}

-- A call that gives no frame to transmit.
abbrev pub no_reply : {A : Type 0} → Outcome A → Outcome (A × Option TxFrame)
no_reply o = o >>= λ n. done (n, none)

module _ {M Buf Map R T H : Type 0} ⦃m : EntryMap M⦄ ⦃buf : BoundedVec ℕ max_string_len Buf⦄
    ⦃map : BoundedVec MappingEntry max_pdo_mapping Map⦄
    ⦃r : BoundedVec (RpdoSlot Map) max_pdos R⦄ where
  -- The five branches of `on_frame`.
  pub data Branch (n : Node M Buf Map R T H) (cob_id : ℕ) (bytes : List ℕ) : Type 0 where
    lss :
        cob_id ≡ lss_master_cob_id
        → on_frame n cob_id bytes ≡ done (on_lss n bytes)
        → Branch n cob_id bytes
    unconfigured : on_frame n cob_id bytes ≡ done (n, none) → Branch n cob_id bytes
    nmt :
        lss_unconfigured n ≡ false
        → cob_id ≡ 0
        → on_frame n cob_id bytes ≡ done (on_nmt n bytes, none)
        → Branch n cob_id bytes
    sdo :
        lss_unconfigured n ≡ false
        → cob_id ≡ request_cob_id n.sdo.node
        → on_frame n cob_id bytes ≡ on_sdo n bytes
        → Branch n cob_id bytes
    rpdo :
        lss_unconfigured n ≡ false
        → on_frame n cob_id bytes ≡ no_reply (on_rpdo n cob_id bytes)
        → Branch n cob_id bytes

  pub Branch-of : (n : Node M Buf Map R T H) (cob_id : ℕ) (bytes : List ℕ) → Branch n cob_id bytes
  unfolding on_frame
  Branch-of n cob_id bytes = elim (Bool-cases (cob_id == 0x7e5)) [
    | inl e ↦ lss (ground arith) (rw e refl)
    | inr e1 ↦ elim (Bool-cases (lss_unconfigured n)) [
      | inl e ↦ unconfigured (rw (e1, e) refl)
      | inr e2 ↦ elim (Bool-cases (cob_id == 0)) [
        | inl e ↦ nmt e2 (ground arith) (rw (e1, e2, e) refl)
        | inr e3 ↦ elim (Bool-cases (cob_id == request_cob_id n.sdo.node)) [
          | inl e ↦
              sdo e2 ((==_iff cob_id (request_cob_id n.sdo.node)).0 e) (rw (e1, e2, e3, e) refl)
          | inr e4 ↦ rpdo e2 (rw (e1, e2, e3, e4) refl)
        ]
      ]
    ]
  ]
