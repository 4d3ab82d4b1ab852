-- ===== src/Clients/Netbox.antt =====
-- pkg/clients/netbox.go: the names of the nodes that netbox lists. Its client is a parameter.
use ironic_temper.Base.{String, Option, List, [], ◌∷◌}
use ironic_temper.Go.{Exec, Call, ◌>>=◌, pure, deref, of_reply}

-- `DcimDevicesListParams`, the fields that are set.
pub record DeviceParams : Type 0 where
  pub role : String
  pub status : String
  pub region : Option String
  pub q : Option String

-- The loop over the devices, whose names are pointers.
abbrev device_names : {W : Type 0} → List (Option String) → Exec W (List String)
device_names [] = pure []
device_names (n ∷ ns) = do name ← deref n; names ← device_names ns; pure (name ∷ names)

module _ {W : Type 0} (devices_list : DeviceParams → Call W (List (Option String))) where
  abbrev list : DeviceParams → Exec W (List (Option String))
  list p w = let (r, w') = devices_list p w in of_reply r w'

  -- `LoadNodes`. Without a status it writes the default through the nil pointer.
  unfoldable pub load_nodes : Option String → Option String → Option String → Exec W (List String)
  load_nodes query status region = do
    s ← deref status
    devices ← list (record { role = "server"; status = s; region = region; q = query })
    device_names devices
