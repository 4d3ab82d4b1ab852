-- ===== src/Tests/Data.antt =====
-- A node, its methods, and an ironic that answers as it should.
use ironic_temper.Base.{
  ◌≢◌, refl, String, true, false, none, some, List, [], ◌∷◌, arith, eq_iff, if◌then◌else◌, ◌=ₛ◌,
}
use ironic_temper.Go.{Error, already_exists, message, reply, Result, ok, err, Call}
use ironic_temper.Go.Pages.{fold_pages}
use ironic_temper.Go.Polling.{attempts, IsPoll}
use ironic_temper.Node.{
  Node, Task, TaskExec, Fn, create, provide, validate, OpenstackAuth, Config, St,
}
use ironic_temper.Node.Inspection.{InspectionData, NodeInterface, up}
use ironic_temper.Node.Temper.{Methods}
use ironic_temper.Clients.{OpenstackApi}
use ironic_temper.Node.Baremetal.{BaremetalApi, DriverValidation}

abbrev pub auth : OpenstackAuth
auth = record {
  user = "temper";
  password = "secret";
  url = "https://identity";
  domain_name = "Default";
  project_name = "master";
  project_domain_name = "ccadmin";
}

abbrev pub config : Config
config = record {
  openstack = auth;
  inspector_host = "inspector";
  redfish_user = "root";
  redfish_password = "calvin";
  redfish_boot_image = some "";
  netbox_host = "netbox";
  netbox_token = "token";
  netbox_nodes_path = "/nodes";
  rules_path = "/rules";
  region = "qa";
  netbox_query = none;
  domain = "cc";
  deployment = record {
    image = "image";
    conductor_zone = "zone";
    flavor = "flavor";
    network = "network";
    openstack = auth;
  };
}

abbrev pub inspected_data : InspectionData
inspected_data = record {
  root_disk = record {
    rotational = false;
    vendor = "";
    name = "";
    model = "";
    serial = "";
    size = 0;
  };
  boot_interface = "";
  inventory = record {
    bmc_address = "";
    system_vendor = record { serial_number = ""; product_name = ""; manufacturer = ""; model = "" };
    interfaces = [];
    boot = record { current_boot_mode = ""; pxe_interface = "" };
    disks = [];
    physical_mb = 0;
    cpu = record { count = 0; frequency = ""; flags = []; architecture = "" };
  };
  logs = "";
}

-- An interface that leads to a switch, and the port that netbox names.
abbrev pub cabled : NodeInterface
cabled = record {
  connection = "aci-leaf";
  connection_ip = "10.0.0.9";
  port = "eth1/7";
  mac = "AA:bb";
  port_link_status = up;
}

abbrev pub tempered : List Task → Node
tempered tasks = record {
  name = "node001-bb123";
  remote_ip = "10.0.0.1";
  primary_ip = "10.0.0.2";
  uuid = "u-1";
  instance_uuid = "";
  instance_ipv4 = "";
  tasks = tasks;
  status = "progress";
  redfish = none;
  has_netbox = true;
  port_group_uuid = "";
  resource_class = "";
  inspection = inspected_data;
  interfaces = some (("L1", cabled) ∷ []);
  ipam_addresses = [];
  device_config = none;
  tasks_execs = ("ironic", ("validate", record { fn = validate; name = "v" } ∷ []) ∷ []) ∷ [];
  cfg = config;
  service_clients = "baremetal" ∷ [];
}

abbrev pub failing : TaskExec
failing = record { fn = create; name = "ironic.create" }

abbrev pub passing : TaskExec
passing = record { fn = provide; name = "ironic.create.provide" }

abbrev pub two_steps : Task
two_steps = record {
  service = "ironic";
  task = "create";
  exec = failing ∷ passing ∷ [];
  error = "";
  status = "";
}

abbrev pub one_step : Task
one_step = record two_steps { exec = passing ∷ [] }

abbrev pub finished_task : Task
finished_task = record two_steps { status = "done" }

-- The state of a run before its tasks, in a world that is a text.
abbrev pub start : List Task → St String
start tasks = record { node = tempered tasks; world = "enroll" }

abbrev no_node : Error
no_node = message "no node"

abbrev outcome : Fn → Result (Unit {0})
outcome create = err (message "no node")
outcome _ = ok tt

-- Methods that change nothing; `create` fails.
abbrev pub methods : Methods String
methods = record {
  load_infos = λ s. (ok tt, s);
  power = λ force restart s. (ok tt, s);
  wait_power_state_on = λ s. (ok tt, s);
  run = λ f s. (outcome f, s);
  delete_test_instance = λ s. (ok tt, s);
  delete_node = λ s. (err no_node, s);
  set_status = λ s. (ok tt, s);
}

pub new_not_done : ◌≢◌ {A = String} "" "done"
new_not_done = ground (arith, eq_iff "" "done")

pub progress_not_failed : ◌≢◌ {A = String} "progress" "failed"
progress_not_failed = ground (arith, eq_iff "progress" "failed")

pub message_not_exists : (text : String) → message text ≢ already_exists
message_not_exists text h = cc

abbrev pub answer : {A : Type 0} → A → Call String A
answer a w = (reply a, w)

abbrev pub openstack : OpenstackApi String
openstack = record {
  authenticate = λ a. answer tt;
  new_client = λ s r. answer tt;
  baremetal_version = answer "1.58";
  zones_by_name = λ n. answer (reply []);
  zone_create = λ n. answer (record { id = "z" });
  record_create = λ z r. answer tt;
  images = λ n. answer [];
  flavor_names = answer [];
  services = λ n. answer [];
  each_page = fold_pages;
  networks = λ n. answer (reply []);
  port_group_create = λ p. answer (201, "p");
  parse_ip = λ a. some (0 ∷ 0 ∷ 0 ∷ 0 ∷ 0 ∷ 0 ∷ 0 ∷ 0 ∷ 0 ∷ 0 ∷ 255 ∷ 255 ∷ 10 ∷ 1 ∷ 2 ∷ 3 ∷ []);
}

abbrev provisioned : String → String
provisioned target = if target =ₛ "manage" then "manageable" else "available"

abbrev fine : DriverValidation
fine = record { result = true; reason = "" }

-- An ironic with one node, whose provision state is the world.
abbrev pub ironic : BaremetalApi String
ironic = record {
  openstack = openstack;
  poll = λ interval timeout c. attempts 3 c;
  inspector_continue = λ h d. answer (record { status_code = 200; body = "" });
  unmarshal_inspector_error = λ b. reply b;
  unmarshal_node = λ b n. reply n;
  node_delete = λ u. answer tt;
  node_get = λ u w. (
    reply (record {
      uuid = u;
      name = "";
      resource_class = "";
      power_state = "power on";
      provision_state = w;
    }),
    w,
  );
  node_update = λ u o. answer tt;
  change_power_state = λ u t. answer tt;
  change_provision_state = λ u t w. (reply tt, provisioned t);
  node_validate =
      λ u. answer (record { inspect_ = fine; power = fine; management = fine; network = fine });
  nodes_all_pages = answer (reply []);
  ports_of_node = λ u. answer [];
  port_update = λ u o. answer tt;
  hypervisors = answer [];
  server_force_delete = λ u. answer tt;
  server_wait_for_status = λ u s n. answer tt;
  server_create = λ o. answer (record { id = "s"; access_ipv4 = "10.0.0.3" });
  timestamp = answer "now";
  new_pinger = λ a. answer tt;
  run_pinger = λ a. answer tt;
}

pub ironic-IsPoll : IsPoll ironic.poll
ironic-IsPoll = record { runs = λ interval timeout c s. (3, refl) }
