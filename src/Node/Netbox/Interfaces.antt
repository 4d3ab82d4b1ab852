-- ===== src/Node/Netbox/Interfaces.antt =====
-- `loadInterfaces`: the switch ports that netbox knows, joined to the interfaces of the inventory.
pub mod Keeping
pub mod Hardware
use ironic_temper.Base.{String, Bool, false, ◌||◌, Option, none, some}
use ironic_temper.Base.Dict.{Dict, lookup, insert}
use ironic_temper.Go.{
  message, Reply, reply, refused, ◌>>=◌, pure, fail, panic, inspect, deref, branch, for_each,
}
use ironic_temper.Node.{Method, this, write}
use ironic_temper.Node.Inspection.{NodeInterface, other_link}
use ironic_temper.Node.Remote.{NetboxInterface, Endpoint}
use ironic_temper.Node.Netbox.{NetboxApi, get_interfaces, get_interface_ip}
use ironic_temper.Text.{contains}

-- Connected, by what netbox says.
abbrev is_connected : Option Bool → Bool
is_connected none = false
is_connected (some b) = b

abbrev no_interface : NodeInterface
no_interface = record {
  connection = "";
  connection_ip = "";
  port = "";
  mac = "";
  port_link_status = other_link;
}

abbrev or_new : Option NodeInterface → NodeInterface
or_new none = no_interface
or_new (some i) = i

-- `n.Interfaces[name] = intf`, which panics on a nil map. The redfish data of the name is kept.
abbrev put_connection :
    {W : Type 0}
    → Option (Dict NodeInterface)
    → String
    → String
    → String
    → String
    → Method W (Unit {0})
put_connection none name device ip port = panic "assignment to entry in nil map"
put_connection (some m) name device ip port =
    let known = or_new (lookup name m) in
    write (λ n. record n {
      interfaces =
          some
            (insert name (record known { connection = device; connection_ip = ip; port = port }) m);
    })

module _ {W : Type 0} (api : NetboxApi W) where
  -- A switch whose address netbox does not give is logged and passed over.
  connect_to : String → String → String → Reply String → Method W (Unit {0})
  connect_to name device port (refused e) = pure tt
  connect_to name device port (reply ip) = do
    n ← this
    put_connection n.interfaces name device ip port

  connect_device : String → String → Option (String × String) → Method W (Unit {0})
  unfolding connect_to
  connect_device name port none = fail (message "no device connection info")
  connect_device name port (some (device, id)) = do
    r ← inspect (get_interface_ip api id)
    connect_to name device port r

  connect_endpoint : String → Option Endpoint → Method W (Unit {0})
  unfolding connect_device
  connect_endpoint name none = fail (message "no device connection info")
  connect_endpoint name (some e) = connect_device name e.name e.device

  -- One round of the loop. Only interfaces of the slots ("PCI") and on the board ("L") count.
  unfoldable pub load_interface : NetboxInterface → Method W (Unit {0})
  unfolding connect_endpoint
  load_interface i =
      branch (is_connected i.connection_status)
        (do
          name ← deref i.name
          branch (contains name "PCI" || contains name "L")
              (connect_endpoint name i.connected_endpoint) (pure tt))
        (pure tt)

  -- `loadInterfaces`
  unfoldable pub load_interfaces : Method W (Unit {0})
  load_interfaces = do found ← get_interfaces api; for_each found load_interface
