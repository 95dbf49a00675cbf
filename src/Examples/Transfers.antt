-- ===== src/Examples/Transfers.antt =====
-- Transfers between a client and the server of the device.
use canopen_rs.Base.{ℕ, ◌≡◌, refl, true, none, some, List, arith, if◌then◌else◌}
use canopen_rs.Types.Outcome.{done}
use canopen_rs.Datatypes.Value.{data_type}
use canopen_rs.Objects.Address
use canopen_rs.Objects.Address.{Address}
use canopen_rs.Objects.Entry.{rw_entry, is_readable, is_writable}
use canopen_rs.Objects.ObjectDictionary.{ObjectDictionary, entry, read}
use canopen_rs.Sdo.Payload
use canopen_rs.Sdo.Payload.{Payload, cs_mask, cs_abort}
use canopen_rs.Sdo.Server.{SdoServer, handle}
use canopen_rs.Sdo.Server.Safe.{Safe}
use canopen_rs.Sdo.Server.Safety.{handle-Safe}
use canopen_rs.Sdo.Client
use canopen_rs.Sdo.Client.{SdoClient, complete}
use canopen_rs.Sdo.Session.{finished, drive}
use canopen_rs.Sdo.Session.Write.{write_session}
use canopen_rs.Sdo.Session.Read.{read_session}
use canopen_rs.Examples.Containers.{Items, items_map, bytes_vec}
use canopen_rs.Examples.Device.{
  node, old_name, new_name, new_name-IsValid, old_name-IsValid, device_name, device_name-IsValid,
  device, device-IsValid,
}

abbrev server : SdoServer (List ℕ)
server = record { node = node; transfer = none; last_write = none }

abbrev client : SdoClient (List ℕ)
client = record { node = node; state = Client.idle }

abbrev frame : ℕ → ℕ → ℕ → Payload
frame a b c = record { b0 = a; b1 = b; b2 = c; b3 = 0; b4 = 10; b5 = 0; b6 = 0; b7 = 0 }

frame-IsValid : Payload.IsValid (frame 0x21 0x08 0x10)
frame-IsValid = ground arith

poll-IsValid : Payload.IsValid (frame 0x60 0 0)
poll-IsValid = ground arith

write_session_example :
    (s' : SdoServer (List ℕ)) × (od' : ObjectDictionary Items) × (drive 6
        (Client.write client device_name new_name)
        server
        device
      ≡ finished client s' od' (complete none))
    × (s'.last_write ≡ some device_name)
    × ((j : Address)
        → entry od' j
          ≡ (if Address.eq device_name j then some (rw_entry new_name) else entry device j))
unfolding is_writable data_type
write_session_example =
    write_session client server device device_name new_name (rw_entry old_name) new_name-IsValid
      device_name-IsValid found refl refl
  where
    found : entry device device_name ≡ some (rw_entry old_name)
    found = unfold entry in refl

read_session_example :
    (s' : SdoServer (List ℕ)) × (drive 6
        (done (Client.read client device_name (data_type old_name)))
        server
        device
      ≡ finished client s' device (complete (some old_name)))
    × (s'.last_write ≡ none)
unfolding is_readable
read_session_example =
    read_session client server device device_name old_name old_name-IsValid device_name-IsValid
      (unfold read in refl)

handle-Safe_example : Safe device true (handle server device (frame 0x21 0x08 0x10))
handle-Safe_example =
    handle-Safe device device-IsValid server (frame 0x21 0x08 0x10) tt frame-IsValid
