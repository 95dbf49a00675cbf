-- ===== src/Node/Transmit.antt =====
-- core/src/node.rs: the PDOs that a node sends on a SYNC.
use canopen_rs.Base.{
  ◌+◌, ◌≤◌, ◌≡◌, ◌⊎◌, ◌∙◌, inl, inr, refl, sym, ap, true, false, none, some, List, [], ◌∷◌, ◌++◌,
  append-nil, append_assoc, length, take, replicate, length-append, arith, Bool-cases,
}
use canopen_rs.Heapless.{BoundedVec}
use canopen_rs.Heapless.Vec.{push_fits}
use canopen_rs.Types.{Result-cases}
use canopen_rs.Types.Outcome.{done, ◌>>=◌}
use canopen_rs.Objects.ObjectDictionary.{EntryMap}
use canopen_rs.Pdo.{MappingEntry, is_empty}
use canopen_rs.Node.{Node, TpdoSlot, max_pdos, max_pdo_mapping}
use canopen_rs.Node.Frame
use canopen_rs.Node.Frame.{TxFrame}
use canopen_rs.Node.Pdos.{pack-ends}
use canopen_rs.Node.Dispatch.{
  is_synchronous, is_operational, build_tpdo, sync_slots, sync_tpdos, push_frame,
}

push_frame_fits :
    {F : Type 0}
    → ⦃b : BoundedVec TxFrame max_pdos F⦄ → (frames : F) (f : TxFrame)
    → length (b.as_slice frames) + 1 ≤ max_pdos
    → b.as_slice (push_frame frames (some f)) ≡ b.as_slice frames ++ f ∷ []
push_frame_fits frames f room =
    let (frames', pushed, holds) = push_fits max_pdos frames f (omega (arith, room)) in
    rw (pushed, push_frame) holds

module _ {M Buf Map R T H : Type 0} ⦃m : EntryMap M⦄
    ⦃map : BoundedVec MappingEntry max_pdo_mapping Map⦄ where
  build_tpdo-cases :
      (n : Node M Buf Map R T H) (slot : TpdoSlot Map)
      → (build_tpdo n slot ≡ done none)
        ⊎ ((f : TxFrame) × (build_tpdo n slot ≡ done (some f)) × (f.cob_id ≡ slot.cob_id))
  unfolding build_tpdo Frame.new
  build_tpdo-cases n slot = elim (Bool-cases (is_empty slot.mapping)) [
    | inl empty ↦ inl (rw empty refl)
    | inr full ↦
        let (buf, result, ends) = pack-ends slot.mapping n.od (replicate 8 0) in
        elim (Result-cases result) [
          | inl (len, good) ↦ inr (
            Frame.new slot.cob_id (take len buf),
            rw full (rw (ends, ◌>>=◌) (rw good refl)),
            refl,
          )
          | inr (x, bad) ↦ inl (rw full (rw (ends, ◌>>=◌) (rw bad refl)))
        ]
  ]

  -- The frames of slots: those of the synchronous ones that can be built, in the slots' order.
  pub data Sends (n : Node M Buf Map R T H) : List (TpdoSlot Map) → List TxFrame → Type 0 where
    nothing : Sends n [] []
    skipped :
        (slot : TpdoSlot Map) (slots : List (TpdoSlot Map)) (fs : List TxFrame)
        → is_synchronous slot.transmission ≡ false
        → Sends n slots fs
        → Sends n (slot ∷ slots) fs
    unbuilt :
        (slot : TpdoSlot Map) (slots : List (TpdoSlot Map)) (fs : List TxFrame)
        → build_tpdo n slot ≡ done none
        → Sends n slots fs
        → Sends n (slot ∷ slots) fs
    built :
        (slot : TpdoSlot Map) (slots : List (TpdoSlot Map)) (f : TxFrame) (fs : List TxFrame)
        → is_synchronous slot.transmission ≡ true
        → build_tpdo n slot ≡ done (some f)
        → f.cob_id ≡ slot.cob_id
        → Sends n slots fs
        → Sends n (slot ∷ slots) (f ∷ fs)

  module _ {F : Type 0} ⦃b : BoundedVec TxFrame max_pdos F⦄ where
    sync_slots_lem :
        (n : Node M Buf Map R T H) (slots : List (TpdoSlot Map)) (frames : F)
        → length (b.as_slice frames) + length slots ≤ max_pdos
        → (frames' : F) × (fs : List TxFrame) × (sync_slots n slots frames ≡ done frames')
          × Sends n slots fs
          × (b.as_slice frames' ≡ b.as_slice frames ++ fs)
    unfolding sync_slots
    sync_slots_lem n [] frames room =
        (frames, [], refl, nothing, sym (append-nil (b.as_slice frames)))
    sync_slots_lem n (slot ∷ slots) frames room =
        elim (Bool-cases (is_synchronous slot.transmission)) [
          | inr other ↦
              let (frames', fs, ends, sends, holds) =
                sync_slots_lem n slots frames (omega (arith, room)) in
              (frames', fs, rw (other, sync_slots) ends, skipped slot slots fs other sends, holds)
          | inl synchronous ↦ elim (build_tpdo-cases n slot) [
            | inl empty ↦
                let (frames', fs, ends, sends, holds) =
                  sync_slots_lem n slots frames (omega (arith, room)) in
                (
                  frames',
                  fs,
                  rw (synchronous, sync_slots) (rw (empty, ◌>>=◌) ends),
                  unbuilt slot slots fs empty sends,
                  holds,
                )
            | inr (f, has, id) ↦
                let pushed = push_frame_fits frames f (omega (arith, room)) in
                let (frames', fs, ends, sends, holds) =
                  sync_slots_lem n slots (push_frame frames (some f))
                    (rw pushed (omega (arith, room, length-append (b.as_slice frames) (f ∷ [])))) in
                (
                  frames',
                  f ∷ fs,
                  rw (synchronous, sync_slots) (rw (has, ◌>>=◌) ends),
                  built slot slots f fs synchronous has id sends,
                  holds
                      ∙ ap (λ (xs : List TxFrame). xs ++ fs) pushed
                      ∙ append_assoc (b.as_slice frames) (f ∷ []) fs,
                )
          ]
        ]

    -- Called on a SYNC, a node whose table holds at most four slots returns, without a panic, a frame
    -- for each slot of a synchronous type whose frame can be built, under the slot's COB-ID and in
    -- the table's order, if it is operational, and else none. This is so at every call: neither the
    -- period of a cyclic type nor a change of the data of an acyclic one is regarded.
    pub sync_tpdos_lem :
        ⦃t : BoundedVec (TpdoSlot Map) max_pdos T⦄
        → (n : Node M Buf Map R T H) → length (t.as_slice n.tpdos) ≤ max_pdos
        → (frames : F) × (sync_tpdos n ≡ done frames)
          × (((is_operational n.nmt.state ≡ false) × (b.as_slice frames ≡ []))
              ⊎ ((is_operational n.nmt.state ≡ true)
                  × Sends n (t.as_slice n.tpdos) (b.as_slice frames)))
    unfolding sync_tpdos
    sync_tpdos_lem ⦃t⦄ n fits = elim (Bool-cases (is_operational n.nmt.state)) [
      | inr stopped ↦ (b.new, rw stopped refl, inl (stopped, b.as_slice-new))
      | inl runs ↦
          let (frames, fs, ends, sends, holds) =
            sync_slots_lem n (t.as_slice n.tpdos) b.new (rw b.as_slice-new (omega (arith, fits))) in
          let same : b.as_slice frames ≡ fs =
            holds ∙ ap (λ (xs : List TxFrame). xs ++ fs) b.as_slice-new in
          (frames, rw runs ends, inr (runs, rw same sends))
    ]
