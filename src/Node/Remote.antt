-- ===== src/Node/Remote.antt =====
-- What the program reads of the values that netbox, redfish and openstack return: the fields that
-- pkg/ mentions, of types of the client libraries. A pointer that may be nil is an `Option`.
use ironic_temper.Base.{ℕ, String, Bool, Option, List}
use ironic_temper.Node.Inspection.{PortLinkStatus}

-- `models.IPAddress`
pub record IpAddress : Type 0 where
  pub id : ℕ
  pub address : Option String
  pub dns_name : String

-- `models.DeviceWithConfigContext`. Only the encoder of pkg/task reads the configuration context.
pub record Device : Type 0 where
  pub id : ℕ
  pub device_type_id : ℕ
  pub device_role_id : ℕ
  pub site_id : ℕ
  pub has_primary_ip : Bool
  pub primary_ip4 : Option (Option String)
  pub config_context : String

-- `ConnectedEndpoint`, where it is the JSON object that the program expects: the fields it prints.
pub record Endpoint : Type 0 where
  pub name : String
  -- the name and the id of `conn["device"]`, if that is an object
  pub device : Option (String × String)

-- `models.Interface`
pub record NetboxInterface : Type 0 where
  pub id : ℕ
  pub name : Option String
  pub connection_status : Option Bool
  pub connected_endpoint : Option Endpoint
  pub mac_address : Option String
  pub type_value : String
  pub device_id : ℕ

-- `redfish.Chassis`, `ComputerSystem`, `Drive`, `Processor`, `NetworkPort`, `NetworkAdapter`
pub record Chassis : Type 0 where
  pub manufacturer : String
  pub serial_number : String
  pub sku : String
  pub model : String

pub data PowerState : Type 0 where
  on_power off_power other_power : PowerState

pub record ComputerSystem : Type 0 where
  pub model : String
  pub logical_processor_count : ℕ
  pub power_state : PowerState

pub record Drive : Type 0 where
  pub name : String
  pub model : String
  pub manufacturer : String
  pub capacity_bytes : ℕ
  pub rotation_speed_rpm : ℕ

pub record NetworkPort : Type 0 where
  pub id : String
  pub name : String
  pub link_status : PortLinkStatus
  pub associated_network_addresses : List String

pub record NetworkAdapter : Type 0 where
  pub manufacturer : String
  pub model : String
  -- the slot of each controller
  pub controllers : List ℕ

pub data MediaType : Type 0 where
  cd dvd other_media : MediaType

pub record VirtualMedia : Type 0 where
  pub supports_media_insert : Bool
  pub image : String
  pub media_types : List MediaType
