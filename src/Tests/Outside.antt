-- ===== src/Tests/Outside.antt =====
-- Runs of the program's own methods, in a world that answers every call.
use ironic_temper.Base.{◌≡◌, ℕ, List, map, refl, String, true, some, [], ◌∷◌}
use ironic_temper.Go.{Reply, pure, reply, ok}
use ironic_temper.Go.Polling.{attempts}
use ironic_temper.Node.{St}
use ironic_temper.Node.Remote.{Device, Drive}
use ironic_temper.Node.Temper.{set_status_to, temper}
use ironic_temper.Node.Temper.Outcome.{IsSettled}
use ironic_temper.Node.Netbox.{NetboxApi}
use ironic_temper.Node.Netbox.Status.{set_status}
use ironic_temper.Node.Netbox.Status.Report.{set_status-Blind}
use ironic_temper.Node.Redfish.Inventory.{disk_of, no_root_disk, set_disks}
use ironic_temper.Node.Redfish.Inventory.Disks.{
  AnswersDrives, readable, named_as_root, root_of, set_disks-readable,
}
use ironic_temper.Node.Redfish.{RedfishApi}
use ironic_temper.Node.Wiring.{Outside, node_methods}
use ironic_temper.Node.Wiring.Keeping.{temper_program-IsSettled}
use ironic_temper.Tests.Data.{answer, ironic, start, tempered, two_steps, finished_task}

abbrev pub device : Device
device = record {
  id = 7;
  device_type_id = 1;
  device_role_id = 2;
  site_id = 3;
  has_primary_ip = true;
  primary_ip4 = some (some "10.0.0.2/24");
  config_context = "";
}

-- The world notes the last status that netbox was sent.
abbrev pub netbox_api : NetboxApi String
netbox_api = record {
  devices_by_name = λ n. answer (device ∷ []);
  devices_by_id = λ n. answer (device ∷ []);
  device_update = λ id d w. (reply d.status, d.status);
  ip_addresses_by_address = λ a. answer [];
  ip_addresses_by_query = λ q id. answer [];
  interfaces_by_device = λ n. answer [];
  interface_update = λ id i. answer tt;
  parse_cidr = λ a. reply a;
}

abbrev pub redfish_api : RedfishApi String
redfish_api = record {
  poll = λ interval timeout c. attempts 3 c;
  connect = λ e. answer tt;
  logout = answer tt;
  chassis = answer [];
  systems = answer [];
  memory = answer [];
  storages = answer [];
  drives = λ n. answer [];
  processors = answer [];
  network_adapters = answer [];
  network_ports = λ a. answer [];
  reset = λ t. answer tt;
  set_boot_from_cd = answer tt;
  managers = answer 1;
  import_boot_configuration = answer tt;
  virtual_media = answer [];
  eject_media = answer tt;
  insert_media = λ i m. answer tt;
  sleep = λ n. answer tt;
  scaled = λ n. n;
}

abbrev pub outside : Outside String
outside = record {
  netbox = netbox_api;
  redfish = redfish_api;
  baremetal = ironic;
  aci = record {
    new_client = λ h w. w;
    poll = λ interval timeout c. attempts 3 c;
    make_rest_request = λ h. answer tt;
    do_request = λ h w. (record { container = some []; status_code = some 200 }, w);
    check_for_errors = λ c. ok tt;
  };
  rules = record {
    parse_files = λ path. answer "{}";
    execute = λ t. pure t;
    unmarshal = λ out. record { node_ops = []; port_ops = [] };
  };
  run_dell_diagnostics = pure tt;
}

temper_program-IsSettled_example :
    IsSettled
      (node_methods outside)
      (temper (node_methods outside) true 1 (start (two_steps ∷ []))).1
temper_program-IsSettled_example = temper_program-IsSettled outside true 1 (start (two_steps ∷ []))

-- A node with its device, and a task that is done.
abbrev known : St String
known = record {
  node = record (tempered (finished_task ∷ [])) { device_config = some device };
  world = "";
}

set_status-Blind_example :
    set_status netbox_api (set_status_to "failed" known)
    ≡ ((set_status netbox_api known).0, set_status_to "failed" (set_status netbox_api known).1)
set_status-Blind_example = set_status-Blind netbox_api "failed" known

-- A server with an SSD, an HDD and a drive of another name.
abbrev drive : String → ℕ → Drive
drive name speed = record {
  name = name;
  model = "m";
  manufacturer = "v";
  capacity_bytes = 480;
  rotation_speed_rpm = speed;
}

abbrev three_drives : List Drive
three_drives = drive "SSD 1" 0 ∷ drive "HDD 2" 7200 ∷ drive "NVMe" 0 ∷ []

abbrev drives_of : ℕ → Reply (List Drive)
drives_of n = reply three_drives

abbrev with_drives : RedfishApi String
with_drives = record redfish_api { storages = answer (0 ∷ []); drives = λ n. answer three_drives }

answers_drives : AnswersDrives with_drives (0 ∷ []) drives_of
answers_drives = record { all_storages = λ w. refl; drives_of = λ n w. refl }

abbrev connected : St String
connected = record {
  node = record (tempered []) {
    redfish = some (record { endpoint = "https://dummy.net"; connected = true });
  };
  world = "";
}

set_disks-readable_example :
    let all = readable drives_of (0 ∷ []) in
    let out = set_disks with_drives connected in
    (out.0 ≡ ok tt)
    × (out.1.node.inspection.inventory.disks ≡ map (disk_of with_drives.scaled) all)
    × (out.1.node.inspection.root_disk
        ≡ root_of with_drives.scaled no_root_disk (named_as_root all))
set_disks-readable_example =
    set_disks-readable with_drives (0 ∷ []) drives_of answers_drives connected refl
