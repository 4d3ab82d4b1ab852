-- ===== src/Node/Redfish/Network/Keeping.antt =====
-- Reading the network ports of a server writes neither the status of the node nor its tasks.
use ironic_temper.Base.{ℕ, String, List, [], ◌∷◌, arith, refl, ◌≡◌}
use ironic_temper.Base.Dict.{Dict}
use ironic_temper.Go.{Reply, reply, refused}
use ironic_temper.Node.{Node}
use ironic_temper.Node.Keeps.{Keeps, keeps_rules}
use ironic_temper.Node.Inspection.{NodeInterface}
use ironic_temper.Node.Remote.{NetworkAdapter, NetworkPort}
use ironic_temper.Node.Mac.{parse_mac}
use ironic_temper.Node.Redfish.{RedfishApi}
use ironic_temper.Node.Redfish.Keeping.{redfish-Keeps}
use ironic_temper.Node.Redfish.Network.{
  boot_from, add_boot_interface, offer_interface, or_panic, add_port, read_port, read_ports,
  read_adapters, set_network_devices_data,
}

or_panic-Keeps : {W A : Type 0} (r : Reply A) → Keeps {W = W} (or_panic r)
or_panic-Keeps (reply a) = search keeps_rules depth 20
or_panic-Keeps (refused e) = search keeps_rules depth 20

boot_from_same :
    (r : Reply String) (n : Node)
    → ((boot_from r n).status ≡ n.status) × ((boot_from r n).tasks ≡ n.tasks)
boot_from_same (reply mac) n = (refl, refl)
boot_from_same (refused e) n = (refl, refl)

add_boot_interface-status :
    (np : NetworkPort) (mac : String) (n : Node) → (add_boot_interface np mac n).status ≡ n.status
unfolding add_boot_interface
add_boot_interface-status np mac n = ground (arith, boot_from_same (parse_mac mac "-") n)

add_boot_interface-tasks :
    (np : NetworkPort) (mac : String) (n : Node) → (add_boot_interface np mac n).tasks ≡ n.tasks
unfolding add_boot_interface
add_boot_interface-tasks np mac n = ground (arith, boot_from_same (parse_mac mac "-") n)

offer_interface-status :
    (a : NetworkAdapter) (np : NetworkPort) (id mac : String) (n : Node)
    → (offer_interface a np id mac n).status ≡ n.status
unfolding offer_interface
offer_interface-status a np id mac n = ground arith

offer_interface-tasks :
    (a : NetworkAdapter) (np : NetworkPort) (id mac : String) (n : Node)
    → (offer_interface a np id mac n).tasks ≡ n.tasks
unfolding offer_interface
offer_interface-tasks a np id mac n = ground arith

module _ {W : Type 0} (api : RedfishApi W) where
  add_port-Keeps :
      (a : NetworkAdapter) (np : NetworkPort) (raw id : String) (r : Reply String)
      (known : Dict NodeInterface)
      → Keeps (add_port api a np raw id r known)
  unfolding add_port
  add_port-Keeps a np raw id (refused e) known = search keeps_rules depth 20
  add_port-Keeps a np raw id (reply mac) known =
      search
        (
          keeps_rules, add_boot_interface-status, add_boot_interface-tasks, offer_interface-status,
          offer_interface-tasks,
        )
        depth 20

  read_port-Keeps :
      (a : NetworkAdapter) (slot : ℕ) (np : NetworkPort) (known : Dict NodeInterface)
      → Keeps (read_port api a slot np known)
  unfolding read_port
  read_port-Keeps a slot np known = search (keeps_rules, or_panic-Keeps, add_port-Keeps) depth 20

  read_ports-Keeps :
      (a : NetworkAdapter) (slot : ℕ) (nps : List NetworkPort) (known : Dict NodeInterface)
      → Keeps (read_ports api a slot nps known)
  unfolding read_ports
  read_ports-Keeps a slot [] known = search keeps_rules depth 20
  read_ports-Keeps a slot (np ∷ nps) known =
      search
        (keeps_rules, read_port-Keeps, λ (k : Dict NodeInterface). read_ports-Keeps a slot nps k)
        depth 20

  read_adapters-Keeps :
      (adapters : List NetworkAdapter) (known : Dict NodeInterface)
      → Keeps (read_adapters api adapters known)
  unfolding read_adapters
  read_adapters-Keeps [] known = search keeps_rules depth 20
  read_adapters-Keeps (a ∷ rest) known =
      search
        (
          keeps_rules,
          redfish-Keeps,
          read_ports-Keeps,
          λ (k : Dict NodeInterface). read_adapters-Keeps rest k,
        )
        depth 20

  pub set_network_devices_data-Keeps : Keeps (set_network_devices_data api)
  unfolding set_network_devices_data
  set_network_devices_data-Keeps = search (keeps_rules, redfish-Keeps, read_adapters-Keeps) depth 20
