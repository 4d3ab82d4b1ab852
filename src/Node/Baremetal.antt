-- ===== src/Node/Baremetal.antt =====
-- pkg/node/baremetal.go: the calls of ironic, nova and the inspector. This file has the data that
-- they exchange and the interface of the calls; the methods are in the modules below.
pub mod Create
pub mod Update
pub mod Provision
pub mod Instance
use ironic_temper.Base.{ℕ, String, Bool, List}
use ironic_temper.Go.{Reply, Call}
use ironic_temper.Go.Polling.{Poll}
use ironic_temper.Node.{Node}
use ironic_temper.Node.Inspection.{InspectionData}
use ironic_temper.Clients.{OpenstackApi}

-- `nodes.Node` of gophercloud
pub record IronicNode : Type 0 where
  pub uuid : String
  pub name : String
  pub resource_class : String
  pub power_state : String
  pub provision_state : String

-- The JSON value of an update.
pub data Value : Type 0 where
  text : String → Value
  flag : Bool → Value
  number : ℕ → Value

-- `nodes.UpdateOperation` and `ports.UpdateOperation`
pub record UpdateOperation : Type 0 where
  pub op : String
  pub path : String
  pub value : Value

pub record DriverValidation : Type 0 where
  pub result : Bool
  pub reason : String

pub record NodeValidation : Type 0 where
  pub inspect_ : DriverValidation
  pub power : DriverValidation
  pub management : DriverValidation
  pub network : DriverValidation

pub record Hypervisor : Type 0 where
  pub hostname : String
  pub state : String
  pub local_gb : ℕ
  pub memory_mb : ℕ

-- The answer of the inspector.
pub record Response : Type 0 where
  pub status_code : ℕ
  pub body : String

pub record Server : Type 0 where
  pub id : String
  pub access_ipv4 : String

-- `servers.CreateOpts`
pub record ServerOpts : Type 0 where
  pub name : String
  pub flavor_ref : String
  pub image_ref : String
  pub availability_zone : String
  pub networks : List String

-- `config.Rule`: the operations on the node and on its ports
pub record Rule : Type 0 where
  pub node_ops : List UpdateOperation
  pub port_ops : List UpdateOperation

pub record BaremetalApi (W : Type 0) : Type 0 where
  pub openstack : OpenstackApi W
  pub poll : Poll W
  -- the request to the inspector, from the parsing of its url to the last byte of the answer
  pub inspector_continue : String → InspectionData → Call W Response
  pub unmarshal_inspector_error : String → Reply String
  pub unmarshal_node : String → Node → Reply Node
  pub node_delete : String → Call W (Unit {0})
  pub node_get : String → Call W IronicNode
  pub node_update : String → List UpdateOperation → Call W (Unit {0})
  pub change_power_state : String → String → Call W (Unit {0})
  pub change_provision_state : String → String → Call W (Unit {0})
  pub node_validate : String → Call W NodeValidation
  -- the pages of the listing, and the nodes extracted from them
  pub nodes_all_pages : Call W (Reply (List IronicNode))
  pub ports_of_node : String → Call W (List String)
  pub port_update : String → List UpdateOperation → Call W (Unit {0})
  pub hypervisors : Call W (List Hypervisor)
  pub server_force_delete : String → Call W (Unit {0})
  pub server_wait_for_status : String → String → ℕ → Call W (Unit {0})
  pub server_create : ServerOpts → Call W Server
  -- `time.Now().Format(…)`
  pub timestamp : Call W String
  pub new_pinger : String → Call W (Unit {0})
  pub run_pinger : String → Call W (Unit {0})
