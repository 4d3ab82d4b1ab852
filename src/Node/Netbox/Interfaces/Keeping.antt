-- ===== src/Node/Netbox/Interfaces/Keeping.antt =====
-- Loading the connections of the node writes neither its status nor its tasks.
use ironic_temper.Base.{String, Option, none, some}
use ironic_temper.Base.Dict.{Dict}
use ironic_temper.Go.{Reply, reply, refused}
use ironic_temper.Node.Keeps.{Keeps, keeps_rules}
use ironic_temper.Node.Inspection.{NodeInterface}
use ironic_temper.Node.Remote.{NetboxInterface, Endpoint}
use ironic_temper.Node.Netbox.{NetboxApi}
use ironic_temper.Node.Netbox.Keeping.{get_interfaces-Keeps, get_interface_ip-Keeps}
use ironic_temper.Node.Netbox.Interfaces.{
  put_connection, connect_to, connect_device, connect_endpoint, load_interface, load_interfaces,
}

put_connection-Keeps :
    {W : Type 0} (m : Option (Dict NodeInterface)) (name device ip port : String)
    → Keeps {W = W} (put_connection m name device ip port)
put_connection-Keeps none name device ip port = search keeps_rules depth 20
put_connection-Keeps (some m) name device ip port = search keeps_rules depth 20

module _ {W : Type 0} (api : NetboxApi W) where
  connect_to-Keeps :
      (name device port : String) (r : Reply String) → Keeps (connect_to api name device port r)
  unfolding connect_to
  connect_to-Keeps name device port (reply ip) = search (keeps_rules, put_connection-Keeps) depth 20
  connect_to-Keeps name device port (refused e) = search keeps_rules depth 20

  connect_device-Keeps :
      (name port : String) (d : Option (String × String)) → Keeps (connect_device api name port d)
  unfolding connect_device
  connect_device-Keeps name port none = search keeps_rules depth 20
  connect_device-Keeps name port (some (device, id)) =
      search (keeps_rules, get_interface_ip-Keeps, connect_to-Keeps) depth 20

  connect_endpoint-Keeps :
      (name : String) (e : Option Endpoint) → Keeps (connect_endpoint api name e)
  unfolding connect_endpoint
  connect_endpoint-Keeps name none = search keeps_rules depth 20
  connect_endpoint-Keeps name (some e) = search connect_device-Keeps depth 20

  load_interface-Keeps : (i : NetboxInterface) → Keeps (load_interface api i)
  unfolding load_interface
  load_interface-Keeps i = search (keeps_rules, connect_endpoint-Keeps) depth 20

  pub load_interfaces-Keeps : Keeps (load_interfaces api)
  unfolding load_interfaces
  load_interfaces-Keeps = search (keeps_rules, get_interfaces-Keeps, load_interface-Keeps) depth 20
