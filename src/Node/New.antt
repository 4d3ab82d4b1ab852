-- ===== src/Node/New.antt =====
-- `New` of pkg/node/node.go, with the clients that it makes. The TLS configuration of the netbox
-- client is made by another package: `tls` is its result.
pub mod Tasks
use ironic_temper.Base.{String, Bool, true, false, none, some, [], if◌then◌else◌}
use ironic_temper.Go.{Error, message, Reply, reply, refused, Result, ok, err}
use ironic_temper.Node.{Node, Config, RedfishClient}
use ironic_temper.Node.Inspection.{InspectionData}
use ironic_temper.Node.Tasks.{init_task_execs}
use ironic_temper.Text.{is_empty}

-- The zero value of the inspection data.
abbrev pub no_inspection : InspectionData
no_inspection = record {
  root_disk = record {
    rotational = false;
    vendor = "";
    name = "";
    model = "";
    serial = "";
    size = 0;
  };
  boot_interface = "";
  inventory = record {
    bmc_address = "";
    system_vendor = record { serial_number = ""; product_name = ""; manufacturer = ""; model = "" };
    interfaces = [];
    boot = record { current_boot_mode = ""; pxe_interface = "" };
    disks = [];
    physical_mb = 0;
    cpu = record { count = 0; frequency = ""; flags = []; architecture = "" };
  };
  logs = "";
}

-- `NewRedfish`
abbrev new_redfish : RedfishClient
new_redfish = record { endpoint = "https://dummy.net"; connected = false }

-- The node before the test of the netbox token.
abbrev pub planned_node : String → Config → Node
planned_node name cfg = record {
  name = name;
  remote_ip = "";
  primary_ip = "";
  uuid = "";
  instance_uuid = "";
  instance_ipv4 = "";
  tasks = [];
  status = "planned";
  redfish = if is_empty cfg.redfish_user then none else some new_redfish;
  has_netbox = false;
  port_group_uuid = "";
  resource_class = "";
  inspection = no_inspection;
  interfaces = none;
  ipam_addresses = [];
  device_config = none;
  tasks_execs = [];
  cfg = cfg;
  service_clients = [];
}

with_netbox : Reply (Unit {0}) → Node → Result (Unit {0}) × Node
with_netbox (refused e) n = (err e, n)
with_netbox (reply u) n = init_task_execs (record n { has_netbox = true })

-- `New`: the node is returned beside an error, too.
unfoldable pub new_node : Reply (Unit {0}) → String → Config → Result (Unit {0}) × Node
unfolding with_netbox
new_node tls name cfg =
    let n = planned_node name cfg in
    if is_empty cfg.netbox_token
    then (err (message "missing netbox token"), n)
    else with_netbox tls n
