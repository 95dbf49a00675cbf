-- ===== src/Node/History.antt =====
-- core/src/node.rs: the past errors of a node.
use canopen_rs.Base.{
  ℕ, zero, suc, ◌+◌, ◌^◌, ◌≤◌, ◌<◌, ◌≡◌, ◌∙◌, refl, sym, ap, some, List, [], ◌∷◌, ◌++◌, length,
  take, drop, set_at, take_all, length-take, length-append, take-append, drop_all, append-nil,
  append_assoc, arith, Bool-cases, inl, inr, ltb_lem, ◌==◌, if◌then◌else◌, bit_or,
}
use canopen_rs.Heapless.{BoundedVec}
use canopen_rs.Heapless.Vec.{push_fits}
use canopen_rs.Types.Outcome.{done, checked_get, ◌>>=◌}
use canopen_rs.Objects.ObjectDictionary.{EntryMap, entry}
use canopen_rs.Types.{ok}
use canopen_rs.Objects.Address.{Address}
use canopen_rs.Emcy
use canopen_rs.Emcy.Wire.{decode-encode_message}
use canopen_rs.Emcy.{ErrorRegister, EmergencyMessage, emcy_cob_id}
use canopen_rs.Node.Frame
use canopen_rs.Node.{Node, max_error_history}
use canopen_rs.Node.Frame.{TxFrame, data_bytes, data_bytes-new}
use canopen_rs.Node.Mirror.{updated, mirrored, entry-mirror_error_objects}
use canopen_rs.Node.Errors.{
  checked_set, shift_down, record_code, raise_emergency, mirror_error_objects, generic,
}

module _ {A : Type 0} where
  -- An index in range leads to the element between the first ones and the rest.
  get-at :
      (xs : List A) (i : ℕ)
      → i < length xs
      → (x : A) × (checked_get xs i ≡ done x) × (take (suc i) xs ≡ take i xs ++ x ∷ [])
  get-at [] i h = absurd (omega arith)
  get-at (x ∷ xs) zero h = (x, refl, refl)
  get-at (x ∷ xs) (suc i) h =
      let (y, found, split) = get-at xs i (omega arith) in (y, found, ap (◌∷◌ x) split)

  take-set_at : (xs : List A) (i : ℕ) (x : A) → take i (set_at xs (suc i) x) ≡ take i xs
  take-set_at [] zero x = refl
  take-set_at [] (suc i) x = refl
  take-set_at (y ∷ ys) zero x = refl
  take-set_at (y ∷ ys) (suc i) x = ap (◌∷◌ y) (take-set_at ys i x)

  drop-set_at :
      (xs : List A) (i : ℕ) (x : A) → i < length xs → drop i (set_at xs i x) ≡ x ∷ drop (suc i) xs
  drop-set_at [] i x h = absurd (omega arith)
  drop-set_at (y ∷ ys) zero x h = refl
  drop-set_at (y ∷ ys) (suc i) x h = drop-set_at ys i x (omega arith)

  length-set_at : (xs : List A) (i : ℕ) (x : A) → length (set_at xs i x) ≡ length xs
  length-set_at [] i x = refl
  length-set_at (y ∷ ys) zero x = refl
  length-set_at (y ∷ ys) (suc i) x = ap suc (length-set_at ys i x)

set-first : (xs : List ℕ) (x : ℕ) → 0 < length xs → set_at xs 0 x ≡ x ∷ drop 1 xs
set-first [] x h = absurd (omega arith)
set-first (y ∷ ys) x h = refl

module _ {H : Type 0} ⦃h : BoundedVec ℕ max_error_history H⦄ where
  set_fits :
      (v : H) (i x : ℕ)
      → i < length (h.as_slice v)
      → (v' : H) × (checked_set v i x ≡ done v') × (h.as_slice v' ≡ set_at (h.as_slice v) i x)
  unfolding checked_set
  set_fits v i x within =
      (h.set v i x, rw (ltb_lem i (length (h.as_slice v)) within) refl, h.as_slice-set v i x within)

  -- Shifting the first `k` elements down by one, over the element after them.
  shift_down_lem :
      (k : ℕ) (v : H)
      → k < length (h.as_slice v)
      → (v' : H) × (shift_down k v ≡ done v')
        × (drop 1 (h.as_slice v') ≡ take k (h.as_slice v) ++ drop (suc k) (h.as_slice v))
        × (length (h.as_slice v') ≡ length (h.as_slice v))
  unfolding shift_down
  shift_down_lem zero v within = (v, refl, refl, refl)
  shift_down_lem (suc i) v within =
      let xs = h.as_slice v in
      let (x, found, split) = get-at xs i (omega arith) in
      let (v1, stored, same) = set_fits v (suc i) x within in
      let next : i + 1 ≡ suc i = omega arith in
      let (v', shifted, rest, size) =
        shift_down_lem i v1 (rw same (omega (arith, length-set_at xs (suc i) x))) in
      (
        v',
        rw (found, next, ◌>>=◌) (rw (stored, ◌>>=◌) shifted),
        rest
            ∙ rw (same, take-set_at xs i x, drop-set_at xs (suc i) x within, split)
                (sym (append_assoc (take i xs) (x ∷ []) (drop (suc (suc i)) xs))),
        size ∙ rw same (length-set_at xs (suc i) x),
      )

  abbrev room_in : H → H
  room_in v = if length (h.as_slice v) == max_error_history then h.pop v else v

  room_lem : (v : H) → length (h.as_slice v) ≤ 8 → h.as_slice (room_in v) ≡ take 7 (h.as_slice v)
  room_lem v bound = elim (Bool-cases (length (h.as_slice v) == 8)) [
    | inl full ↦
        let eight : length (h.as_slice v) ≡ 8 = ground arith in
        rw full (h.as_slice-pop v ∙ rw eight refl)
    | inr room ↦ rw room (sym (take_all 7 (h.as_slice v) (ground arith)))
  ]

  -- Recording a code where there is room.
  record_in_room :
      (room : H) (code : ℕ)
      → length (h.as_slice room) ≤ 7
      → (p : H) × (h.push room 0 ≡ some p)
        × ((v1 : H) × (shift_down (length (h.as_slice room)) p ≡ done v1)
            × ((v' : H) × (checked_set v1 0 code ≡ done v')
                × (h.as_slice v' ≡ code ∷ h.as_slice room)))
  record_in_room room code bound =
      let xs = h.as_slice room in
      let (p, pushed, last) = push_fits max_error_history {A = ℕ} {V = H} room 0 (omega arith) in
      let size = length-append xs (0 ∷ []) in
      let within : length xs < length (h.as_slice p) = rw last (omega (arith, size)) in
      let (v1, shifted, rest, same_size) = shift_down_lem (length xs) p within in
      let (v', stored, same) = set_fits v1 0 code (omega (arith, same_size, within)) in
      let tail : drop 1 (h.as_slice v1) ≡ xs =
        rest
        ∙ rw
            (
              last,
              take-append xs (0 ∷ []),
              drop_all (suc (length xs)) (xs ++ 0 ∷ []) (omega (arith, size)),
            )
            (append-nil xs) in
      (
        p,
        pushed,
        (
          v1,
          shifted,
          (
            v',
            stored,
            same
                ∙ set-first (h.as_slice v1) code (omega (arith, same_size, within))
                ∙ ap (◌∷◌ code) tail,
          ),
        ),
      )

  -- What is recorded is first, and the eighth of those before is dropped.
  record_code_lem :
      (v : H) (code : ℕ)
      → length (h.as_slice v) ≤ 8
      → (v' : H) × (record_code v code ≡ done v') × (h.as_slice v' ≡ take 8 (code ∷ h.as_slice v))
  unfolding record_code
  record_code_lem v code bound =
      let room = room_lem v bound in
      let (p, pushed, (v1, shifted, (v', stored, same))) =
        record_in_room (room_in v) code (rw room (omega (arith, length-take 7 (h.as_slice v)))) in
      (v', rw (pushed, shifted, ◌>>=◌) stored, same ∙ ap (◌∷◌ code) room)

-- The frame of a valid message decodes to it.
decode-sent :
    (cob_id : ℕ) (message : EmergencyMessage)
    → Emcy.IsValid message
    → Emcy.decode (data_bytes (Frame.new cob_id (Emcy.encode message))) ≡ ok message
decode-sent cob_id message valid =
    ap Emcy.decode (
      data_bytes-new cob_id (Emcy.encode message) (unfold Emcy.encode in omega (arith, valid.five)))
    ∙ decode-encode_message message valid

module _ {M Buf Map R T H : Type 0} ⦃m : EntryMap M⦄ ⦃h : BoundedVec ℕ max_error_history H⦄ where
  -- Raising an emergency with a 16-bit code and five bytes of information does not panic. The error
  -- register gains the given bits and the generic one; the history, of at most eight codes, has the
  -- code in front of what it had, without the ninth; every object of the dictionary is as before,
  -- except that 0x1001 holds the register, sub-index 0 of 0x1003 the number of codes and the next
  -- sub-indices the codes, where they exist with that type; and the frame, on the node's emergency
  -- COB-ID, decodes to the code, the register and the information. All else of the node is kept.
  pub raise_emergency_lem :
      (n : Node M Buf Map R T H) (code : ℕ) (register : ErrorRegister) (info : List ℕ)
      → length (h.as_slice n.error_history) ≤ 8
      → code < 2 ^ 16
      → length info ≡ 5
      → (n' : Node M Buf Map R T H) × (f : TxFrame) × (raise_emergency n code register info
          ≡ done (n', f))
        × (n'.error_register ≡ bit_or n.error_register (bit_or register.bits generic))
        × (h.as_slice n'.error_history ≡ take 8 (code ∷ h.as_slice n.error_history))
        × ((j : Address)
            → entry n'.od j
              ≡ updated (entry n.od j) (mirrored n'.error_register (h.as_slice n'.error_history) j))
        × (f.cob_id ≡ emcy_cob_id n.node_id)
        × (Emcy.decode (data_bytes f)
            ≡ ok (record {
              error_code = code;
              error_register = record { bits = n'.error_register };
              vendor_specific = info;
            }))
        × (n' ≡ record n {
          error_register = n'.error_register;
          error_history = n'.error_history;
          od = n'.od;
        })
  unfolding raise_emergency mirror_error_objects Frame.new
  raise_emergency_lem n code register info bound code-lt five =
      let (v', recorded, same) = record_code_lem n.error_history code bound in
      let bits = bit_or n.error_register (bit_or register.bits generic) in
      let noted : Node M Buf Map R T H = record n { error_register = bits; error_history = v' } in
      let message : EmergencyMessage = record {
        error_code = code;
        error_register = record { bits = bits };
        vendor_specific = info;
      } in
      (
        mirror_error_objects noted,
        Frame.new (emcy_cob_id n.node_id) (Emcy.encode message),
        rw (recorded, ◌>>=◌) refl,
        refl,
        same,
        λ j.
            entry-mirror_error_objects noted j
              (rw same (omega (arith, length-take 8 (code ∷ h.as_slice n.error_history)))),
        refl,
        decode-sent (emcy_cob_id n.node_id) message (record { code_lt = code-lt; five = five }),
        refl,
      )
