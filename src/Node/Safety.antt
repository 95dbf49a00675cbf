-- ===== src/Node/Safety.antt =====
-- core/src/node.rs: a node on any frame whatsoever.
use canopen_rs.Base.{
  ℕ, zero, suc, ◌≡◌, refl, not, none, Option, List, [], ◌∷◌, length, get_or, All, arith, Bool-cases,
  Option-cases, inl, inr, ltb, ◌==◌, bit_and, Bool,
}
use mathlib.Core.Option
use canopen_rs.Base.Bytes.{IsByte}
use canopen_rs.Heapless.{BoundedVec}
use canopen_rs.Datatypes.ByteString.{max_string_len}
use canopen_rs.Types.{Result, ok, err}
use canopen_rs.Types.Outcome.{Outcome, done, panicked, ◌>>=◌}
use canopen_rs.Objects.ObjectDictionary.{EntryMap}
use canopen_rs.Objects.ObjectDictionary.Invariant
use canopen_rs.Objects.ObjectDictionary.Invariant.{Follows, Follows-refl}
use canopen_rs.Sdo.Payload
use canopen_rs.Sdo.Payload.{Payload, all_bytes, request_cob_id, response_cob_id, cs_mask, cs_abort}
use canopen_rs.Sdo.Server
use canopen_rs.Sdo.Server.{Reply}
use canopen_rs.Sdo.Server.Safe
use canopen_rs.Sdo.Server.Safe.{Safe}
use canopen_rs.Sdo.Server.Safety.{handle-Safe}
use canopen_rs.Nmt.{NmtCommand, decode_command}
use canopen_rs.Types.NodeId.{NodeId}
use canopen_rs.Pdo.{MappingEntry}
use canopen_rs.Node.{Node, RpdoSlot, max_pdos, max_pdo_mapping, lss_unconfigured}
use canopen_rs.Node.Frame
use canopen_rs.Node.Frame.{TxFrame}
use canopen_rs.Node.Dispatch.{
  on_lss, on_nmt, obey, on_sdo, on_rpdo, on_frame, padded, serves_sdo, is_operational, find_mapping,
}
use canopen_rs.Node.Pdos.{unpack-Ends}

get_or-IsByte : (xs : List ℕ) (i : ℕ) → All IsByte xs → IsByte (get_or xs i 0)
get_or-IsByte [] i h = omega arith
get_or-IsByte (x ∷ xs) zero h = h.0
get_or-IsByte (x ∷ xs) (suc i) h = get_or-IsByte xs i h.1

padded-IsValid : (bytes : List ℕ) → All IsByte bytes → Payload.IsValid (padded bytes)
padded-IsValid bytes h =
    let at = λ (i : ℕ). get_or-IsByte bytes i h in
    (at 0, (at 1, (at 2, (at 3, (at 4, (at 5, (at 6, (at 7, tt))))))))

module _ {M Buf Map R T H : Type 0} ⦃m : EntryMap M⦄ ⦃buf : BoundedVec ℕ max_string_len Buf⦄ where
  -- The server is between two requests, and every object holds a valid value.
  pub record IsReady (n : Node M Buf Map R T H) : Type 0 where
    pub server : Safe.IsReady n.sdo
    pub objects : Invariant.IsValid n.od

  -- The call ends; the node is ready, and its dictionary has changed only as it may.
  abbrev pub EndsReady :
      Node M Buf Map R T H → Outcome (Node M Buf Map R T H × Option TxFrame) → Type 0
  EndsReady n outcome =
      (n' : Node M Buf Map R T H) × (reply : Option TxFrame) × (outcome ≡ done (n', reply))
      × IsReady n'
      × Follows n.od n'.od

  same-EndsReady :
      (n n' : Node M Buf Map R T H) (reply : Option TxFrame)
      → IsReady n
      → n'.sdo ≡ n.sdo
      → n'.od ≡ n.od
      → EndsReady n (done (n', reply))
  same-EndsReady n n' reply h sdo od = (
    n',
    reply,
    refl,
    record { server = rw sdo h.server; objects = rw od h.objects },
    rw od (Follows-refl n.od h.objects),
  )

  on_lss-keeps :
      (n : Node M Buf Map R T H) (bytes : List ℕ)
      → ((on_lss n bytes).0.sdo ≡ n.sdo) × ((on_lss n bytes).0.od ≡ n.od)
  unfolding on_lss
  on_lss-keeps n bytes = (ground arith, ground arith)

  pub on_nmt-keeps :
      (n : Node M Buf Map R T H) (bytes : List ℕ)
      → ((on_nmt n bytes).sdo ≡ n.sdo) × ((on_nmt n bytes).od ≡ n.od)
  unfolding on_nmt
  on_nmt-keeps n [] = (refl, refl)
  on_nmt-keeps n (x ∷ []) = (refl, refl)
  on_nmt-keeps n (x ∷ y ∷ rest) = obey-keeps n (decode_command (x, y))
    where
      obey-keeps :
          (n : Node M Buf Map R T H) (r : Result (NmtCommand × NodeId))
          → ((obey n r).sdo ≡ n.sdo) × ((obey n r).od ≡ n.od)
      obey-keeps n (err _) = (refl, refl)
      obey-keeps n (ok (command, target)) = (ground arith, ground arith)

  -- What a safe reply of the server makes of the node.
  reply-EndsReady :
      (n : Node M Buf Map R T H) (answered : Bool) (o : Outcome (Reply M Buf))
      → Safe n.od answered o
      → EndsReady n (
          o >>= λ (sdo, od, response). done (
            record n { sdo = sdo; od = od },
            Option.map (λ p. Frame.new (response_cob_id sdo.node) (all_bytes p)) response,
          ))
  reply-EndsReady n answered panicked h = absurd h
  reply-EndsReady n answered (done (sdo, od, response)) h = (
    record n { sdo = sdo; od = od },
    Option.map (λ p. Frame.new (response_cob_id sdo.node) (all_bytes p)) response,
    refl,
    record { server = h.0; objects = h.1.valid },
    h.1,
  )

  on_sdo-EndsReady :
      (n : Node M Buf Map R T H) (bytes : List ℕ)
      → IsReady n
      → All IsByte bytes
      → EndsReady n (on_sdo n bytes)
  unfolding on_sdo
  on_sdo-EndsReady n bytes h k = elim (Bool-cases (serves_sdo n.nmt.state)) [
    | inr closed ↦ rw closed (same-EndsReady n n none h refl refl)
    | inl open_ ↦ elim (Bool-cases (ltb 8 (length bytes))) [
      | inl long ↦ rw (open_, long) (same-EndsReady n n none h refl refl)
      | inr fits ↦
          let req = padded bytes in
          rw (open_, fits)
            (reply-EndsReady n (not (bit_and req.b0 cs_mask == cs_abort))
              (Server.handle n.sdo n.od req)
              (handle-Safe n.od h.objects n.sdo req h.server (padded-IsValid bytes k)))
    ]
  ]

  module _ ⦃map : BoundedVec MappingEntry max_pdo_mapping Map⦄
      ⦃r : BoundedVec (RpdoSlot Map) max_pdos R⦄ where
    on_rpdo-EndsReady :
        (n : Node M Buf Map R T H) (cob_id : ℕ) (bytes : List ℕ)
        → IsReady n
        → All IsByte bytes
        → EndsReady n (on_rpdo n cob_id bytes >>= λ n'. done (n', none))
    unfolding on_rpdo
    on_rpdo-EndsReady n cob_id bytes h k = elim (Bool-cases (is_operational n.nmt.state)) [
      | inr idle ↦ rw idle (same-EndsReady n n none h refl refl)
      | inl runs ↦ elim (Option-cases (find_mapping (r.as_slice n.rpdos) cob_id)) [
        | inl missing ↦ rw (runs, missing) (same-EndsReady n n none h refl refl)
        | inr (mapping, found) ↦
            let (od', result, ends, follows) = unpack-Ends mapping n.od bytes h.objects k in
            rw (runs, found)
              (rw (ends, ◌>>=◌)
                (
                  record n { od = od' },
                  none,
                  refl,
                  record { server = h.server; objects = follows.valid },
                  follows,
                ))
      ]
    ]

    -- Whatever frame of bytes a node gets on whatever COB-ID, in whatever NMT state, if its SDO
    -- server is in a ready state and its dictionary's values are valid, it does not panic and both
    -- stay so; it keeps every value of its dictionary valid, every object with its type
    -- and access rights, and all that is in objects which are not writable.
    pub on_frame-EndsReady :
        (n : Node M Buf Map R T H) (cob_id : ℕ) (bytes : List ℕ)
        → IsReady n
        → All IsByte bytes
        → EndsReady n (on_frame n cob_id bytes)
    unfolding on_frame
    on_frame-EndsReady n cob_id bytes h k = elim (Bool-cases (cob_id == 0x7e5)) [
      | inl lss ↦ rw lss (
          same-EndsReady n (on_lss n bytes).0 (on_lss n bytes).1 h (on_lss-keeps n bytes).0
            (on_lss-keeps n bytes).1)
      | inr e1 ↦ elim (Bool-cases (lss_unconfigured n)) [
        | inl no_id ↦ rw (e1, no_id) (same-EndsReady n n none h refl refl)
        | inr e2 ↦ elim (Bool-cases (cob_id == 0)) [
          | inl nmt ↦
              rw (e1, e2, nmt)
                (same-EndsReady n (on_nmt n bytes) none h (on_nmt-keeps n bytes).0
                  (on_nmt-keeps n bytes).1)
          | inr e3 ↦ elim (Bool-cases (cob_id == request_cob_id n.sdo.node)) [
            | inl sdo ↦ rw (e1, e2, e3, sdo) (on_sdo-EndsReady n bytes h k)
            | inr e4 ↦ rw (e1, e2, e3, e4) (on_rpdo-EndsReady n cob_id bytes h k)
          ]
        ]
      ]
    ]
