-- ===== src/Examples/Settings.antt =====
-- A node that gets its node-id over the bus.
use canopen_rs.Base.{ℕ, ◌≡◌, refl, true, false, some, none, List, [], ◌∷◌, arith, inl}
use canopen_rs.Types.Outcome.{done}
use canopen_rs.Lss.{
  LssAddress, LssState, IsValid, waiting, configuration, frame, encode_switch_selective,
  encode_switch_global, encode_configure_node_id, cs_switch_selective_response,
}
use canopen_rs.Lss.Slave.{LssSlave, handle, adopt_pending, is_assignable}
use canopen_rs.Lss.Master
use canopen_rs.Lss.Master.{FastscanMaster, discover, is_complete, address}
use canopen_rs.Lss.Fastscan.{discover-unconfigured, discover-configured}
use canopen_rs.Lss.Selective.{handle_all, handle_all-select}
use canopen_rs.Lss.Assignment.{
  Event, receives, resets, after, IsAssigned, after-IsAssigned, commissioned,
}

abbrev pump : LssAddress
pump = record { vendor_id = 0x1f; product_code = 0x2a; revision_number = 1; serial_number = 0x1234 }

pump-IsValid : IsValid pump
pump-IsValid = record {
  vendor_lt = omega arith;
  product_lt = omega arith;
  revision_lt = omega arith;
  serial_lt = omega arith;
}

abbrev slave_in : LssState → ℕ → LssSlave
slave_in state node_id = record {
  address = pump;
  node_id = node_id;
  pending_node_id = node_id;
  state = state;
  selective = 0;
  fs_sub = 0;
}

discover-unconfigured_example :
    (m : FastscanMaster) × (discover 134 Master.new (slave_in waiting 0xff)
      ≡ done (some (m, record (slave_in waiting 0xff) { state = configuration; fs_sub = 3 })))
    × (m.found ≡ true)
    × (is_complete m ≡ true)
    × (address m ≡ pump)
discover-unconfigured_example = discover-unconfigured (slave_in waiting 0xff) refl refl pump-IsValid

discover-configured_example :
    (m : FastscanMaster) × (discover 2 Master.new (slave_in waiting 5)
      ≡ done (some (m, slave_in waiting 5)))
    × (m.found ≡ false)
    × (is_complete m ≡ true)
discover-configured_example =
    discover-configured (slave_in waiting 5) 0 (inl (λ e. omega (arith, e)))

handle_all-select_example : handle_all (slave_in waiting 0xff) (encode_switch_selective pump) ≡ (
  slave_in configuration 0xff,
  none ∷ none ∷ none ∷ some (frame cs_switch_selective_response) ∷ [],
)
handle_all-select_example = handle_all-select (slave_in waiting 0xff) pump pump-IsValid

assigned : IsAssigned (slave_in waiting 0xff)
unfolding is_assignable
assigned = record { active = refl; next = refl }

abbrev history : List Event
history =
    receives (encode_switch_global true) ∷ receives (encode_configure_node_id 0x20) ∷ resets ∷ []

after-IsAssigned_example :
    IsAssigned (after (slave_in waiting 0xff) history)
    × ((after (slave_in waiting 0xff) history).address ≡ pump)
after-IsAssigned_example = after-IsAssigned (slave_in waiting 0xff) history assigned

commissioned_example :
    (m : FastscanMaster) × (sl' : LssSlave) × (discover 134 Master.new (slave_in waiting 0xff)
      ≡ done (some (m, sl')))
    × (let slave = adopt_pending (handle sl' (encode_configure_node_id 0x20)).0 in
        (slave.node_id ≡ 0x20) × (slave.address ≡ address m))
unfolding is_assignable
commissioned_example = commissioned (slave_in waiting 0xff) 0x20 refl refl pump-IsValid refl
