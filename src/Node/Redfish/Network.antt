-- ===== src/Node/Redfish/Network.antt =====
-- `setNetworkDevicesData` and `addBootInterface` of pkg/node/redfish.go.
pub mod Keeping
use ironic_temper.Base.{
  ℕ, String, ◌<>◌, Bool, true, false, ◌&&◌, none, some, List, [], ◌∷◌, ◌++◌, if◌then◌else◌,
}
use ironic_temper.Base.Dict.{Dict, insert}
use ironic_temper.Go.{Reply, reply, refused, error_text, Exec, ◌>>=◌, ◌>>◌, pure, panic, at_index}
use ironic_temper.Node.{Node, Method, write}
use ironic_temper.Node.Inspection.{Interface, NodeInterface, PortLinkStatus, up}
use ironic_temper.Node.Remote.{NetworkAdapter, NetworkPort}
use ironic_temper.Node.Redfish.{RedfishApi, redfish}
use ironic_temper.Node.Mac.{parse_mac, map_interface_to_netbox}
use ironic_temper.Text.{contains, to_lower, is_empty}

abbrev pub is_up : PortLinkStatus → Bool
is_up up = true
is_up _ = false

-- The boot interface is the first port that is up.
abbrev boot_from : Reply String → Node → Node
boot_from (refused e) n = n
boot_from (reply mac) n = record n {
  inspection = record n.inspection {
    boot_interface = "01-" <> to_lower mac;
    inventory = record n.inspection.inventory {
      boot = record n.inspection.inventory.boot { pxe_interface = mac };
    };
  };
}

-- `addBootInterface`
unfoldable pub add_boot_interface : NetworkPort → String → Node → Node
add_boot_interface np mac n =
    if is_up np.link_status && is_empty n.inspection.boot_interface
    then boot_from (parse_mac mac "-") n
    else n

abbrev interface_of : NetworkAdapter → String → String → Interface
interface_of a id mac = record {
  lldp = [];
  product = a.model;
  vendor = some a.manufacturer;
  name = to_lower id;
  has_carrier = true;
  ip4_address = "";
  client_id = none;
  mac_address = to_lower mac;
}

abbrev add_interface : Interface → Node → Node
add_interface i n = record n {
  inspection = record n.inspection {
    inventory = record n.inspection.inventory {
      interfaces = n.inspection.inventory.interfaces ++ (i ∷ []);
    };
  };
}

-- Only ports of the slots whose link is up are offered to ironic.
unfoldable pub offer_interface : NetworkAdapter → NetworkPort → String → String → Node → Node
offer_interface a np id mac n =
    if is_up np.link_status && contains id "PCI" then add_interface (interface_of a id mac) n else n

abbrev found_port : String → NetworkPort → NodeInterface
found_port mac np = record {
  connection = "";
  connection_ip = "";
  port = "";
  mac = mac;
  port_link_status = np.link_status;
}

abbrev or_panic : {S A : Type 0} → Reply A → Exec S A
or_panic (reply a) = pure a
or_panic (refused e) = panic (error_text e)

module _ {W : Type 0} (api : RedfishApi W) where
  -- A port without a MAC address is logged and passed over.
  add_port :
      NetworkAdapter
      → NetworkPort
      → String
      → String
      → Reply String
      → Dict NodeInterface
      → Method W (Dict NodeInterface)
  add_port a np raw id (refused e) known = pure known
  add_port a np raw id (reply mac) known = do
    write (add_boot_interface np raw)
    write (offer_interface a np id mac)
    pure (insert id (found_port mac np) known)

  -- One round of the loop over the ports of an adapter in the slot.
  read_port : NetworkAdapter → ℕ → NetworkPort → Dict NodeInterface → Method W (Dict NodeInterface)
  unfolding add_port
  read_port a slot np known = do
    raw ← at_index np.associated_network_addresses 0
    id ← or_panic (map_interface_to_netbox np.id slot)
    add_port a np raw id (parse_mac raw ":") known

  unfoldable pub read_ports :
      NetworkAdapter → ℕ → List NetworkPort → Dict NodeInterface → Method W (Dict NodeInterface)
  unfolding read_port
  read_ports a slot [] known = pure known
  read_ports a slot (np ∷ nps) known = do
    known' ← read_port a slot np known
    read_ports a slot nps known'

  unfoldable pub read_adapters :
      List NetworkAdapter → Dict NodeInterface → Method W (Dict NodeInterface)
  read_adapters [] known = pure known
  read_adapters (a ∷ rest) known = do
    slot ← at_index a.controllers 0
    ports ← redfish api (api.network_ports a)
    known' ← read_ports a slot ports known
    read_adapters rest known'

  -- `setNetworkDevicesData`
  unfoldable pub set_network_devices_data : Method W (Unit {0})
  set_network_devices_data = do
    write (λ n. record n {
      inspection = record n.inspection {
        inventory = record n.inspection.inventory { interfaces = [] };
      };
    })
    adapters ← redfish api api.network_adapters
    known ← read_adapters adapters []
    write (λ n. record n {
      interfaces = some known;
      inspection = record n.inspection {
        inventory = record n.inspection.inventory {
          boot = record n.inspection.inventory.boot { current_boot_mode = "uefi" };
        };
      };
    })
