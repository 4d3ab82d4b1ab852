-- ===== src/Node/Wiring.antt =====
-- The program's own methods behind the interface of `Temper`: what each function of a task runs,
-- `loadInfos` of pkg/node/node.go, and the calls of the clean-up.
pub mod Keeping
pub mod Tidy
use ironic_temper.Base.{ℕ, String, Bool, true, false, Option, List, [], ◌∷◌}
use ironic_temper.Go.{Error, Reply, Result, Call, Exec, ◌>>=◌, ◌>>◌, pure, branch}
use ironic_temper.Node.{
  Node, Fn, create_dns_records, run_aci_check, run_hardware_checks, boot_image, eject_media, reboot,
  create, check_created, apply_rules, power_on, provide, validate, wait_for_nova_propagation,
  deploy_test_instance, prepare, update, timeout_task, St, Method, call, this,
}
use ironic_temper.Node.Temper.{Methods}
use ironic_temper.Node.Netbox.{NetboxApi, load_node_config}
use ironic_temper.Node.Netbox.Interfaces.{load_interfaces}
use ironic_temper.Node.Netbox.Ipam.{load_ipam_addresses}
use ironic_temper.Node.Netbox.Status
use ironic_temper.Node.Baremetal.{BaremetalApi}
use ironic_temper.Node.Rules.{RulesApi, get_rules}
use ironic_temper.Node.Baremetal.Create
use ironic_temper.Node.Baremetal.Update
use ironic_temper.Node.Baremetal.Provision
use ironic_temper.Node.Baremetal.Instance
use ironic_temper.Node.Redfish.{RedfishApi, set_endpoint, power, wait_power_state_on}
use ironic_temper.Node.Redfish.Inventory.{load_inventory}
use ironic_temper.Node.Redfish.Media
use ironic_temper.Node.Redfish.Media.{is_dell}
use ironic_temper.Diagnostics.Aci.{AciApi}
use ironic_temper.Node.Cabling
use ironic_temper.Node.Cabling.{Entry}
use ironic_temper.Node.Openstack

-- All that the methods call outside the program, and the part of it that is taken as given: the
-- diagnostics of a dell server.
pub record Outside (W : Type 0) : Type 0 where
  pub netbox : NetboxApi W
  pub redfish : RedfishApi W
  pub baremetal : BaremetalApi W
  -- the client of the aci switches, and what is read of its answers
  pub aci : AciApi (List Entry) W
  pub rules : RulesApi W
  -- `Run` of Diagnostics.Dell, where it comes to an end
  pub run_dell_diagnostics : Exec W (Unit {0})

-- A function that runs on the world alone, and may panic.
abbrev on_world : {W A : Type 0} → Exec W A → Method W A
on_world m s = let (r, w) = m s.world in (r, record s { world = w })

module _ {W : Type 0} (o : Outside W) where
  -- `loadInfos`
  unfoldable pub load_infos : Method W (Unit {0})
  load_infos = do
    load_node_config o.netbox
    load_ipam_addresses o.netbox
    n ← this
    set_endpoint n.remote_ip
    load_inventory o.redfish
    load_interfaces o.netbox

  -- `runHardwareChecks`
  unfoldable pub hardware_checks : Method W (Unit {0})
  hardware_checks = do n ← this; branch (is_dell n) (on_world o.run_dell_diagnostics) (pure tt)

  -- What the functions of `initTaskExecs` run.
  unfoldable pub run_fn : Fn → Method W (Unit {0})
  run_fn create_dns_records = Openstack.create_dns_records o.baremetal.openstack o.netbox.parse_cidr
  run_fn run_aci_check = Cabling.run_aci_check o.aci
  run_fn run_hardware_checks = hardware_checks
  run_fn boot_image = Media.boot_image o.redfish
  run_fn eject_media = Media.eject_media o.redfish
  run_fn reboot = power o.redfish false true
  run_fn create = Create.create o.baremetal
  run_fn check_created = Create.check_created o.baremetal
  run_fn apply_rules = Update.apply_rules o.baremetal (get_rules o.rules)
  run_fn power_on = Provision.power_on o.baremetal
  run_fn provide = Provision.provide o.baremetal
  run_fn validate = Provision.validate o.baremetal
  run_fn wait_for_nova_propagation = Provision.wait_for_nova_propagation o.baremetal
  run_fn deploy_test_instance = Instance.deploy_test_instance o.baremetal
  run_fn prepare = Update.prepare o.baremetal
  run_fn update = Status.update o.netbox
  run_fn (timeout_task seconds) = call (o.redfish.sleep seconds)

  abbrev pub node_methods : Methods W
  node_methods = record {
    load_infos = load_infos;
    power = power o.redfish;
    wait_power_state_on = wait_power_state_on o.redfish;
    run = run_fn;
    delete_test_instance = Instance.delete_test_instance o.baremetal;
    delete_node = Create.delete_node o.baremetal;
    set_status = Status.set_status o.netbox;
  }
