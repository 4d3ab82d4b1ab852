-- ===== src/Node.antt =====
-- The data of pkg/node/node.go, pkg/task/task.go and pkg/config/config.go: a node with its tasks,
-- its inspection data and its configuration. JSON tags and loggers are left out.
pub mod Inspection
pub mod Remote
pub mod Tasks
pub mod New
pub mod Temper
pub mod Netbox
pub mod Baremetal
pub mod Mac
pub mod Redfish
pub mod Cabling
pub mod Openstack
pub mod Keeps
pub mod Respects
pub mod Rules
pub mod Wiring
use ironic_temper.Base.{ℕ, String, Bool, Option, List}
use ironic_temper.Base.Dict.{Dict}
use ironic_temper.Go.{Exec, Call, Result, ok, of_reply, gets, modify}
use Inspection.{InspectionData, NodeInterface}
use Remote.{Device, IpAddress}

-- The functions that a task runs (`task.Exec.Fn`). In the program they are method values of the
-- node; here each is named, and `Node.Methods` says what it runs.
pub data Fn : Type 0 where
  create_dns_records run_aci_check run_hardware_checks boot_image eject_media : Fn
  reboot create check_created apply_rules power_on provide validate : Fn
  wait_for_nova_propagation deploy_test_instance prepare update : Fn
  timeout_task : ℕ → Fn

pub record TaskExec : Type 0 where
  pub fn : Fn
  pub name : String

-- `task.Task`
pub record Task : Type 0 where
  pub service : String
  pub task : String
  pub exec : List TaskExec
  pub error : String
  pub status : String

pub record OpenstackAuth : Type 0 where
  pub user : String
  pub password : String
  pub url : String
  pub domain_name : String
  pub project_name : String
  pub project_domain_name : String

pub record Deployment : Type 0 where
  pub image : String
  pub conductor_zone : String
  pub flavor : String
  pub network : String
  pub openstack : OpenstackAuth

-- `config.Config`, the fields that pkg/node, pkg/clients and pkg/scheduler read.
pub record Config : Type 0 where
  pub openstack : OpenstackAuth
  pub inspector_host : String
  pub redfish_user : String
  pub redfish_password : String
  pub redfish_boot_image : Option String
  pub netbox_host : String
  pub netbox_token : String
  pub netbox_nodes_path : String
  pub rules_path : String
  pub region : String
  pub netbox_query : Option String
  pub domain : String
  pub deployment : Deployment

-- `clients.Redfish`: the endpoint of its configuration, and whether `Client` has been set.
pub record RedfishClient : Type 0 where
  pub endpoint : String
  pub connected : Bool

pub record Node : Type 0 where
  pub name : String
  pub remote_ip : String
  pub primary_ip : String
  pub uuid : String
  pub instance_uuid : String
  pub instance_ipv4 : String
  pub tasks : List Task
  pub status : String
  pub redfish : Option RedfishClient
  -- `Clients.Netbox` is not nil
  pub has_netbox : Bool
  pub port_group_uuid : String
  pub resource_class : String
  pub inspection : InspectionData
  -- a nil map until the inventory is loaded
  pub interfaces : Option (Dict NodeInterface)
  pub ipam_addresses : List IpAddress
  pub device_config : Option Device
  pub tasks_execs : Dict (Dict (List TaskExec))
  pub cfg : Config
  -- the services of `oc.Clients`
  pub service_clients : List String

-- A node's methods run on the node and on the world outside it.
pub record St (W : Type 0) : Type 0 where
  pub node : Node
  pub world : W

abbrev pub Method : Type 0 → Type 0 → Type 0
Method W A = Exec (St W) A

-- `err == nil` is the reply's value.
abbrev pub call : {W A : Type 0} → Call W A → Method W A
call c s = let (r, w) = c s.world in of_reply r (record s { world = w })

abbrev pub this : {W : Type 0} → Method W Node
this = gets (λ s. s.node)

abbrev pub write : {W : Type 0} → (Node → Node) → Method W (Unit {0})
write f = modify (λ s. record s { node = f s.node })
