-- ===== src/Lss/Assignment.antt =====
-- core/src/lss.rs: how a slave gets its node-id.
use canopen_rs.Base.{
  ℕ, ◌≡◌, ◌⊎◌, inl, inr, refl, ap, sym, ◌∙◌, true, false, Option, some, none, List, [], ◌∷◌, arith,
  Bool-cases, Bool, if◌then◌else◌, ◌==◌, ◌||◌, ◌≢◌,
}
use canopen_rs.Types.Outcome.{done}
use canopen_rs.Lss.{
  LssFrame, IsValid, waiting, configuration, LssState, unconfigured_node_id, accepted, refused,
  frame_byte, encode_configure_node_id, decode_configure_node_id_response, cs_configure_node_id,
  cs_fastscan,
}
use canopen_rs.Lss.Slave.{
  LssSlave, handle, adopt_pending, is_assignable, is_configuration, on_configure_node_id,
  on_configuration, on_switch_global, on_switch_serial, match_next, handle_fastscan, confirm,
}
use canopen_rs.Lss.Master
use canopen_rs.Lss.Master.{FastscanMaster, discover, address}
use canopen_rs.Lss.Fastscan.{discover-unconfigured}

-- What a frame can do to the node-ids of a slave.
pub record Effect (sl : LssSlave) (req : LssFrame) (sl' : LssSlave) : Type 0 where
  pub keeps_address : sl'.address ≡ sl.address
  pub keeps_node_id : sl'.node_id ≡ sl.node_id
  pub pending :
      (sl'.pending_node_id ≡ sl.pending_node_id)
      ⊎ ((sl.state ≡ configuration)
          × (req.b0 ≡ cs_configure_node_id)
          × (sl'.pending_node_id ≡ req.b1)
          × (is_assignable req.b1 ≡ true))

handle_fastscan-Effect : (sl : LssSlave) (req : LssFrame) → Effect sl req (handle_fastscan sl req).0
unfolding handle_fastscan confirm
handle_fastscan-Effect sl req = record {
  keeps_address = ground arith;
  keeps_node_id = ground arith;
  pending = inl (ground arith);
}

configuration_of : (s : LssState) → is_configuration s ≡ true → s ≡ configuration
configuration_of waiting e = absurd (ground arith)
configuration_of configuration e = refl

on_configuration-Effect :
    (sl : LssSlave) (req : LssFrame)
    → sl.state ≡ configuration
    → Effect sl req (on_configuration sl req).0
unfolding on_configuration on_configure_node_id
on_configuration-Effect sl req state = elim (Bool-cases (req.b0 == cs_configure_node_id)) [
  | inl yes_ ↦ elim (Bool-cases (is_assignable req.b1)) [
    | inl ok_ ↦ record {
      keeps_address = ground arith;
      keeps_node_id = ground arith;
      pending = inr (state, ground arith, ground arith, ok_);
    }
    | inr bad ↦ record {
      keeps_address = ground arith;
      keeps_node_id = ground arith;
      pending = inl (ground arith);
    }
  ]
  | inr no_ ↦ record {
    keeps_address = ground arith;
    keeps_node_id = ground arith;
    pending = inl (ground arith);
  }
]

abbrev is_switch : ℕ → Bool
is_switch cs = cs == 0x04 || cs == 0x40 || cs == 0x41 || cs == 0x42 || cs == 0x43

module _ (sl : LssSlave) (req : LssFrame) where
  handle-switch : is_switch req.b0 ≡ true → Effect sl req (handle sl req).0
  unfolding handle on_switch_global on_switch_serial match_next
  handle-switch e = record {
    keeps_address = ground arith;
    keeps_node_id = ground arith;
    pending = inl (ground arith);
  }

  handle-fastscan : req.b0 ≡ cs_fastscan → handle sl req ≡ handle_fastscan sl req
  unfolding handle
  handle-fastscan e = ground arith

  handle-configuration :
      is_switch req.b0 ≡ false
      → req.b0 ≢ cs_fastscan
      → handle sl req ≡ (if is_configuration sl.state then on_configuration sl req else (sl, none))
  unfolding handle
  handle-configuration e other = ground arith

  unchanged : Effect sl req sl
  unchanged = record { keeps_address = refl; keeps_node_id = refl; pending = inl refl }

-- No frame changes the address or the active node-id of a slave; the pending node-id changes only
-- by a configuration request to a slave in the configuration state, to an assignable node-id.
pub handle-Effect : (sl : LssSlave) (req : LssFrame) → Effect sl req (handle sl req).0
handle-Effect sl req = elim (Bool-cases (is_switch req.b0)) [
  | inl switches ↦ handle-switch sl req switches
  | inr no_switch ↦ elim (Bool-cases (req.b0 == cs_fastscan)) [
    | inl scans ↦ rw (handle-fastscan sl req (ground arith)) (handle_fastscan-Effect sl req)
    | inr no_scan ↦ elim (Bool-cases (is_configuration sl.state)) [
      | inl state ↦
          rw (handle-configuration sl req no_switch (ground arith), state)
            (on_configuration-Effect sl req (configuration_of sl.state state))
      | inr waits ↦
          rw (handle-configuration sl req no_switch (ground arith), waits) (unchanged sl req)
    ]
  ]
]

-- What happens to a slave: a frame of the master, or a reset, on which it takes the new node-id.
pub data Event : Type 0 where
  receives : LssFrame → Event
  resets : Event

abbrev pub after : LssSlave → List Event → LssSlave
after sl [] = sl
after sl (receives f ∷ events) = after (handle sl f).0 events
after sl (resets ∷ events) = after (adopt_pending sl) events

pub record IsAssigned (sl : LssSlave) : Type 0 where
  pub active : is_assignable sl.node_id ≡ true
  pub next : is_assignable sl.pending_node_id ≡ true

handle-IsAssigned : (sl : LssSlave) (req : LssFrame) → IsAssigned sl → IsAssigned (handle sl req).0
handle-IsAssigned sl req h =
    let effect = handle-Effect sl req in
    record {
      active = ap is_assignable effect.keeps_node_id ∙ h.active;
      next = elim effect.pending [
        | inl same ↦ ap is_assignable same ∙ h.next
        | inr (_, _, new_id, fits) ↦ ap is_assignable new_id ∙ fits
      ];
    }

adopt-IsAssigned :
    (sl : LssSlave)
    → IsAssigned sl
    → (IsAssigned (adopt_pending sl)) × ((adopt_pending sl).address ≡ sl.address)
unfolding adopt_pending
adopt-IsAssigned sl h = (record { active = h.next; next = h.next }, refl)

-- Whatever frames and resets come in whatever order, a slave keeps its address, and its active and
-- its pending node-id, when they are each 1 to 127 or 0xFF, stay so.
pub after-IsAssigned :
    (sl : LssSlave) (events : List Event)
    → IsAssigned sl
    → IsAssigned (after sl events) × ((after sl events).address ≡ sl.address)
after-IsAssigned sl [] h = (h, refl)
after-IsAssigned sl (receives f ∷ events) h =
    let rest = after-IsAssigned (handle sl f).0 events (handle-IsAssigned sl f h) in
    (rest.0, rest.1 ∙ (handle-Effect sl f).keeps_address)
after-IsAssigned sl (resets ∷ events) h =
    let adopted = adopt-IsAssigned sl h in
    let rest = after-IsAssigned (adopt_pending sl) events adopted.0 in (rest.0, rest.1 ∙ adopted.1)

-- A slave in the configuration state accepts a node-id of 1 to 127, or 0xFF, which is then pending,
-- and refuses another with the code 1, unchanged; the master reads which.
pub handle-encode_configure_node_id :
    (sl : LssSlave) (n : ℕ)
    → sl.state ≡ configuration
    → (answer : LssFrame) × (handle sl (encode_configure_node_id n)
        ≡ (if is_assignable n then record sl { pending_node_id = n } else sl, some answer))
      × (decode_configure_node_id_response answer
          ≡ some (if is_assignable n then accepted else refused 1))
unfolding handle on_configuration on_configure_node_id encode_configure_node_id
    decode_configure_node_id_response
handle-encode_configure_node_id sl n state =
    (frame_byte cs_configure_node_id (if is_assignable n then 0 else 1), ground arith, ground arith)

-- A slave without a node-id that waits, whose address has four 32-bit values, scanned and then
-- given an assignable node-id (1 to 127, or 0xFF), accepts it: after the next reset it is its
-- node-id, and its address is the one that the master has found.
pub commissioned :
    (sl : LssSlave) (n : ℕ)
    → sl.node_id ≡ unconfigured_node_id
    → sl.state ≡ waiting
    → IsValid sl.address
    → is_assignable n ≡ true
    → (m : FastscanMaster) × (sl' : LssSlave) × (discover 134 Master.new sl ≡ done (some (m, sl')))
      × (let slave = adopt_pending (handle sl' (encode_configure_node_id n)).0 in
          (slave.node_id ≡ n) × (slave.address ≡ address m))
unfolding adopt_pending
commissioned sl n no_id state valid fits =
    let (m, found, _, _, same) = discover-unconfigured sl no_id state valid in
    let sl' = record sl { state = configuration; fs_sub = 3 } in
    let (answer, given, _) = handle-encode_configure_node_id sl' n refl in
    (
      m,
      sl',
      found,
      (
        ap (λ (t : LssSlave × Option LssFrame). t.0.pending_node_id) given ∙ rw fits refl,
        ap (λ (t : LssSlave × Option LssFrame). t.0.address) given ∙ rw fits (sym same),
      ),
    )
