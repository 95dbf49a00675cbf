-- ===== src/Node/Errors.antt =====
-- core/src/node.rs: the emergencies that a node raises and clears.
use canopen_rs.Base.{
  ℕ, zero, suc, ◌+◌, ◌%◌, ◌^◌, none, some, List, [], ◌∷◌, length, ltb, ◌==◌, if◌then◌else◌, bit_or,
}
use canopen_rs.Heapless.{BoundedVec}
use canopen_rs.Types.Outcome.{Outcome, done, panicked, checked_get, ◌>>=◌}
use canopen_rs.Datatypes.Value.{Value}
use canopen_rs.Objects.Address
use canopen_rs.Objects.ObjectDictionary.{ObjectDictionary, EntryMap, set}
use canopen_rs.Emcy
use canopen_rs.Emcy.{ErrorRegister, EmergencyMessage, emcy_cob_id, error_reset}
use canopen_rs.Node.{Node, max_error_history}
use canopen_rs.Node.Frame
use canopen_rs.Node.Frame.{TxFrame}

-- `ErrorRegister::GENERIC`
abbrev pub generic : ℕ
generic = 0x01

module _ {M : Type 0} ⦃m : EntryMap M⦄ where
  -- The loop of `mirror_error_objects`, at the sub-index `i + 1`.
  unfoldable pub mirror_history : ObjectDictionary M → ℕ → List ℕ → ObjectDictionary M
  mirror_history od i [] = od
  mirror_history od i (code ∷ codes) =
      mirror_history (set od (Address.new 0x1003 ((i + 1) % 2 ^ 8)) (Value.unsigned32 code)).0
        (suc i) codes

module _ {H : Type 0} ⦃h : BoundedVec ℕ max_error_history H⦄ where
  -- `self.error_history[i] = x`
  unfoldable pub checked_set : H → ℕ → ℕ → Outcome H
  checked_set v i x = if ltb i (length (h.as_slice v)) then done (h.set v i x) else panicked

  -- `for i in (0..len).rev() { self.error_history[i + 1] = self.error_history[i]; }`
  unfoldable pub shift_down : ℕ → H → Outcome H
  shift_down zero v = done v
  shift_down (suc i) v =
      checked_get (h.as_slice v) i >>= λ x. checked_set v (i + 1) x >>= λ v'. shift_down i v'

  -- The error history after a new code.
  unfoldable pub record_code : H → ℕ → Outcome H
  record_code v code =
      let room = if length (h.as_slice v) == max_error_history then h.pop v else v in
      let pushed : H = elim (h.push room 0) [ some v' ↦ v' | none ↦ room ] in
      shift_down (length (h.as_slice room)) pushed >>= λ v'. checked_set v' 0 code

module _ {M Buf Map R T H : Type 0} ⦃m : EntryMap M⦄ ⦃h : BoundedVec ℕ max_error_history H⦄ where
  unfoldable pub mirror_error_objects : Node M Buf Map R T H → Node M Buf Map R T H
  mirror_error_objects n =
      let od1 = (set n.od (Address.new 0x1001 0) (Value.unsigned8 n.error_register)).0 in
      let count = length (h.as_slice n.error_history) % 2 ^ 8 in
      let od2 = (set od1 (Address.new 0x1003 0) (Value.unsigned8 count)).0 in
      record n { od = mirror_history od2 0 (h.as_slice n.error_history) }

  unfoldable pub raise_emergency :
      Node M Buf Map R T H → ℕ → ErrorRegister → List ℕ → Outcome (Node M Buf Map R T H × TxFrame)
  raise_emergency n code register info =
      let bits = bit_or n.error_register (bit_or register.bits generic) in
      record_code n.error_history code >>= λ history.
      let n' = mirror_error_objects (record n { error_register = bits; error_history = history }) in
      let message : EmergencyMessage = record {
        error_code = code;
        error_register = record { bits = bits };
        vendor_specific = info;
      } in
      done (n', Frame.new (emcy_cob_id n.node_id) (Emcy.encode message))

  unfoldable pub clear_errors : Node M Buf Map R T H → Node M Buf Map R T H × TxFrame
  clear_errors n =
      let n' =
        mirror_error_objects
          (record n { error_register = 0; error_history = h.clear n.error_history }) in
      (n', Frame.new (emcy_cob_id n.node_id) (Emcy.encode error_reset))
