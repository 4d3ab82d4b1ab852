-- ===== src/Node/Netbox.antt =====
-- pkg/node/netbox.go: what a node reads from netbox and writes back to it.
pub mod Keeping
pub mod Interfaces
pub mod Ipam
pub mod Status
use ironic_temper.Base.{
  ℕ, zero, suc, String, ◌<>◌, Bool, true, false, not, ◌||◌, Option, none, some, List, [], ◌∷◌, ◌++◌,
  ◌=ₛ◌, if◌then◌else◌,
}
use ironic_temper.Go.{
  Error, message, Reply, reply, refused, Result, ok, err, panics, Call, ◌>>=◌, ◌>>◌, pure, fail,
  panic, inspect, of_reply, deref, at_index, drop_error, branch, for_each,
}
use ironic_temper.Node.{Node, Task, St, Method, call, this, write}
use ironic_temper.Node.Remote.{Device, IpAddress, NetboxInterface}
use ironic_temper.Text.{contains, split, is_empty, join}

-- `models.WritableDeviceWithConfigContext`, as the program fills it in.
pub record DeviceUpdate : Type 0 where
  pub serial : String
  pub primary_ip4 : Option ℕ
  pub status : String
  pub comments : String
  pub local_context_tasks : Option (List Task)
  pub device_type : ℕ
  pub device_role : ℕ
  pub site : ℕ

-- `models.WritableInterface`
pub record InterfaceUpdate : Type 0 where
  pub mac_address : String
  pub name : Option String
  pub type_value : String
  pub device : ℕ

-- The calls of the netbox client, and `net.ParseCIDR` with the text of the address that it returns.
pub record NetboxApi (W : Type 0) : Type 0 where
  pub devices_by_name : String → Call W (List Device)
  pub devices_by_id : String → Call W (List Device)
  -- returns the status that netbox holds after the update
  pub device_update : ℕ → DeviceUpdate → Call W String
  pub ip_addresses_by_address : String → Call W (List IpAddress)
  pub ip_addresses_by_query : String → ℕ → Call W (List IpAddress)
  pub interfaces_by_device : String → Call W (List NetboxInterface)
  pub interface_update : ℕ → InterfaceUpdate → Call W (Unit {0})
  pub parse_cidr : String → Reply String

abbrev empty_update : DeviceUpdate
empty_update = record {
  serial = "";
  primary_ip4 = none;
  status = "";
  comments = "";
  local_context_tasks = none;
  device_type = 0;
  device_role = 0;
  site = 0;
}

abbrev nil_pointer : String
nil_pointer = "nil pointer dereference"

module _ {W : Type 0} (api : NetboxApi W) where
  -- A call through `n.Clients.Netbox.Client`, a nil pointer where no token was configured.
  abbrev pub netbox : {A : Type 0} → Call W A → Method W A
  netbox c s = branch s.node.has_netbox (call c) (panic nil_pointer) s

  unfoldable pub update_node_info : DeviceUpdate → Method W String
  update_node_info data_ = do
    n ← this
    device ← deref n.device_config
    netbox (
        api.device_update device.id (record data_ {
          device_type = device.device_type_id;
          device_role = device.device_role_id;
          site = device.site_id;
        }))

  non_empty : String → List NetboxInterface → Method W (List NetboxInterface)
  non_empty name [] = fail (message ("could not find interfaces for node with name " <> name))
  non_empty name (i ∷ is) = pure (i ∷ is)

  -- `getInterfaces`
  unfoldable pub get_interfaces : Method W (List NetboxInterface)
  unfolding non_empty
  get_interfaces = do
    n ← this
    found ← netbox (api.interfaces_by_device n.name)
    non_empty n.name found

  first_device : List Device → Method W Device
  first_device [] = fail (message "no device found")
  first_device (d ∷ ds) = pure d

  fetch_node_config : Option Device → Method W (Unit {0})
  unfolding first_device
  fetch_node_config (some d) = pure tt
  fetch_node_config none = do
    n ← this
    found ← netbox (api.devices_by_name n.name)
    d ← first_device found
    write (λ n. record n { device_config = some d })

  -- `loadNodeConfig`
  unfoldable pub load_node_config : Method W (Unit {0})
  unfolding fetch_node_config
  load_node_config = do n ← this; fetch_node_config n.device_config

  -- `loadDeviceConfig`
  unfoldable pub load_device_config : String → Method W Device
  unfolding first_device
  load_device_config id = do found ← netbox (api.devices_by_id id); first_device found

  primary_ip4_of : String → Option (Option String) → Method W String
  primary_ip4_of id none = fail (message ("no ip available for switch " <> id))
  primary_ip4_of id (some address) = do a ← deref address; of_reply (api.parse_cidr a)

  -- `getInterfaceIP`
  unfoldable pub get_interface_ip : String → Method W String
  unfolding primary_ip4_of
  get_interface_ip id = do d ← load_device_config id; primary_ip4_of id d.primary_ip4
