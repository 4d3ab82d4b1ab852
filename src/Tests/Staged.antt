-- ===== src/Tests/Staged.antt =====
-- A run of the program's own methods that ends as staged.
use ironic_temper.Base.{◌≡◌, refl, String, false, none, some, [], ◌∷◌, arith}
use ironic_temper.Go.{ok, Result, Reply, reply}
use ironic_temper.Node.{St, Task, run_hardware_checks, reboot}
use ironic_temper.Node.Remote.{ComputerSystem, NetboxInterface, on_power}
use ironic_temper.Node.Keeps.{Keeps}
use ironic_temper.Node.Baremetal.Create.Keeping.{IsQuiet}
use ironic_temper.Node.Temper.{temper}
use ironic_temper.Node.Temper.Outcome.{Each, SameError}
use ironic_temper.Node.Netbox.Interfaces.{load_interfaces}
use ironic_temper.Node.Netbox.Interfaces.Hardware.{interface_at, load_interfaces-SameHardware}
use ironic_temper.Node.Wiring.{Outside, node_methods}
use ironic_temper.Node.Wiring.Tidy.{temper_program_staged}
use ironic_temper.Tests.Data.{answer, tempered}
use ironic_temper.Tests.Outside.{device, netbox_api, redfish_api, outside}

abbrev system : ComputerSystem
system = record { model = "R630"; logical_processor_count = 8; power_state = on_power }

abbrev port : NetboxInterface
port = record {
  id = 5;
  name = some "L1";
  connection_status = none;
  connected_endpoint = none;
  mac_address = none;
  type_value = "10gbase";
  device_id = 7;
}

abbrev pub reachable : Outside String
reachable = record outside {
  netbox = record netbox_api { interfaces_by_device = λ n. answer (port ∷ []) };
  redfish = record redfish_api { systems = answer (system ∷ []) };
}

abbrev pub checks : Task
checks = record {
  service = "diagnostics";
  task = "hardwarecheck";
  exec = record { fn = run_hardware_checks; name = "h" } ∷ record { fn = reboot; name = "r" } ∷ [];
  error = "";
  status = "";
}

abbrev pub enrolled : St String
enrolled = record {
  node = record (tempered (checks ∷ [])) {
    device_config = some device;
    redfish = some (record { endpoint = "https://dummy.net"; connected = false });
  };
  world = "";
}

pub quiet : IsQuiet reachable.baremetal
quiet = record { status = λ b n m h. ground (arith, h); tasks = λ b n m h. ground (arith, h) }

pub rules : (t : String) → Keeps (reachable.rules.execute t)
rules t = record { status = λ s. refl; tasks = λ s. refl }

ends_staged : (temper (node_methods reachable) false 1 enrolled).1.node.status ≡ "staged"
unfolding temper ironic_temper.Node.Temper.cleanup_handler ironic_temper.Node.Temper.temper_body
    ironic_temper.Node.Temper.exec_step ironic_temper.Node.Temper.run_execs
    ironic_temper.Node.Temper.run_tasks ironic_temper.Node.Temper.task_loop
    ironic_temper.Node.Wiring.load_infos ironic_temper.Node.Wiring.hardware_checks
    ironic_temper.Node.Wiring.run_fn ironic_temper.Node.Netbox.load_node_config
    ironic_temper.Node.Netbox.load_device_config ironic_temper.Node.Netbox.Ipam.load_ipam_addresses
    ironic_temper.Node.Netbox.Ipam.load_address ironic_temper.Text.split ironic_temper.Text.contains
    ironic_temper.Node.Redfish.set_endpoint ironic_temper.Node.Redfish.Inventory.load_inventory
    ironic_temper.Node.Redfish.connect ironic_temper.Node.Netbox.Interfaces.load_interfaces
    ironic_temper.Node.Netbox.get_interfaces ironic_temper.Node.Netbox.Interfaces.load_interface
    ironic_temper.Node.Redfish.power ironic_temper.Node.Redfish.wait_power_state_on
    ironic_temper.Go.Polling.attempts ironic_temper.Node.Redfish.power_state_is_on
    ironic_temper.Node.Netbox.Status.set_status ironic_temper.Node.Netbox.Status.task_errors
    ironic_temper.Node.Netbox.Status.set_status_staged
ends_staged = refl

temper_program_staged_example :
    Each
      (SameError (node_methods reachable))
      enrolled.node.tasks
      (temper (node_methods reachable) false 1 enrolled).1.node.tasks
temper_program_staged_example =
    temper_program_staged reachable (record { inspector = quiet; rules = rules }) false 1 enrolled
      ends_staged

-- A node that knows the check.
abbrev pub job : St String
job = record enrolled {
  node = record enrolled.node {
    tasks_execs = ("diagnostics", ("hardwarecheck", checks.exec) ∷ []) ∷ [];
  };
}

load_interfaces-SameHardware_example :
    let after = interface_at "L1" (load_interfaces reachable.netbox job).1.node in
    (after.mac ≡ (interface_at "L1" job.node).mac)
    × (after.port_link_status ≡ (interface_at "L1" job.node).port_link_status)
load_interfaces-SameHardware_example = load_interfaces-SameHardware reachable.netbox job "L1"
