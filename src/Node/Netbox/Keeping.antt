-- ===== src/Node/Netbox/Keeping.antt =====
-- Calls of netbox write neither the status of the node nor its tasks.
use ironic_temper.Base.{String, Option, none, some, List, [], ◌∷◌, arith}
use ironic_temper.Go.{Call}
use ironic_temper.Node.Keeps.{Keeps, keeps_rules}
use ironic_temper.Node.Remote.{Device, NetboxInterface}
use ironic_temper.Node.Netbox.{
  NetboxApi, DeviceUpdate, netbox, update_node_info, non_empty, get_interfaces, first_device,
  fetch_node_config, load_node_config, load_device_config, primary_ip4_of, get_interface_ip,
}

module _ {W : Type 0} (api : NetboxApi W) where
  pub netbox-Keeps : {A : Type 0} (c : Call W A) → Keeps (netbox api c)
  netbox-Keeps c = record { status = λ s. ground arith; tasks = λ s. ground arith }

  pub update_node_info-Keeps : (d : DeviceUpdate) → Keeps (update_node_info api d)
  unfolding update_node_info
  update_node_info-Keeps d = search (keeps_rules, netbox-Keeps) depth 20

  non_empty-Keeps : (name : String) (is : List NetboxInterface) → Keeps (non_empty api name is)
  unfolding non_empty
  non_empty-Keeps name [] = search keeps_rules depth 20
  non_empty-Keeps name (i ∷ is) = search keeps_rules depth 20

  pub get_interfaces-Keeps : Keeps (get_interfaces api)
  unfolding get_interfaces
  get_interfaces-Keeps = search (keeps_rules, netbox-Keeps, non_empty-Keeps) depth 20

  first_device-Keeps : (ds : List Device) → Keeps (first_device api ds)
  unfolding first_device
  first_device-Keeps [] = search keeps_rules depth 20
  first_device-Keeps (d ∷ ds) = search keeps_rules depth 20

  fetch_node_config-Keeps : (d : Option Device) → Keeps (fetch_node_config api d)
  unfolding fetch_node_config
  fetch_node_config-Keeps none = search (keeps_rules, netbox-Keeps, first_device-Keeps) depth 20
  fetch_node_config-Keeps (some d) = search keeps_rules depth 20

  pub load_node_config-Keeps : Keeps (load_node_config api)
  unfolding load_node_config
  load_node_config-Keeps = search (keeps_rules, fetch_node_config-Keeps) depth 20

  primary_ip4_of-Keeps :
      (id : String) (address : Option (Option String)) → Keeps (primary_ip4_of api id address)
  unfolding primary_ip4_of
  primary_ip4_of-Keeps id none = search keeps_rules depth 20
  primary_ip4_of-Keeps id (some a) = search keeps_rules depth 20

  pub get_interface_ip-Keeps : (id : String) → Keeps (get_interface_ip api id)
  unfolding get_interface_ip load_device_config
  get_interface_ip-Keeps id =
      search (keeps_rules, netbox-Keeps, first_device-Keeps, primary_ip4_of-Keeps) depth 20
