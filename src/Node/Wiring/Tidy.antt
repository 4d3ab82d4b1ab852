-- ===== src/Node/Wiring/Tidy.antt =====
-- The program's own methods write the status of a node and its tasks in `Temper` alone.
use ironic_temper.Base.{ℕ, String, ◌≡◌, refl, Bool}
use ironic_temper.Go.{Exec}
use ironic_temper.Node.{
  Fn, create_dns_records, run_aci_check, run_hardware_checks, boot_image, eject_media, reboot,
  create, check_created, apply_rules, power_on, provide, validate, wait_for_nova_propagation,
  deploy_test_instance, prepare, update, timeout_task, St,
}
use ironic_temper.Node.Keeps.{Keeps, keeps_rules}
use ironic_temper.Node.Temper.{temper}
use ironic_temper.Node.Temper.Outcome.{Each, SameError}
use ironic_temper.Node.Temper.Clean.{IsTidy, temper_staged}
use ironic_temper.Node.Baremetal.Create.Keeping.{IsQuiet, delete_node-Keeps, check_created-Keeps}
use ironic_temper.Node.Baremetal.Create.Quiet.{create-Keeps}
use ironic_temper.Node.Baremetal.Update.Keeping.{prepare-Keeps, apply_rules-Keeps}
use ironic_temper.Node.Baremetal.Provision.Keeping.{
  power_on-Keeps, provide-Keeps, validate-Keeps, wait_for_nova_propagation-Keeps,
}
use ironic_temper.Node.Baremetal.Instance.Keeping.{
  delete_test_instance-Keeps, deploy_test_instance-Keeps,
}
use ironic_temper.Node.Cabling.Keeping.{run_aci_check-Keeps}
use ironic_temper.Node.Netbox.Keeping.{load_node_config-Keeps}
use ironic_temper.Node.Netbox.Ipam.Keeping.{load_ipam_addresses-Keeps}
use ironic_temper.Node.Netbox.Interfaces.Keeping.{load_interfaces-Keeps}
use ironic_temper.Node.Netbox.Status.Keeping.{set_status-Keeps, update-Keeps}
use ironic_temper.Node.Openstack.Keeping.{create_dns_records-Keeps}
use ironic_temper.Node.Redfish.Keeping.{set_endpoint-Keeps, power-Keeps, wait_power_state_on-Keeps}
use ironic_temper.Node.Redfish.Inventory.Keeping.{load_inventory-Keeps}
use ironic_temper.Node.Redfish.Media.Keeping.{boot_image-Keeps, eject_media-Keeps}
use ironic_temper.Node.Rules.{get_rules, get_rules-Keeps}
use ironic_temper.Node.Wiring.{Outside, on_world, load_infos, hardware_checks, run_fn, node_methods}

module _ {W : Type 0} (o : Outside W) where
  -- Neither the inspector's answer nor the user's template writes the status of the node or its tasks.
  pub record IsDiscreet : Type 0 where
    pub inspector : IsQuiet o.baremetal
    pub rules : (t : String) → Keeps (o.rules.execute t)

  on_world-Keeps : {A : Type 0} (m : Exec W A) → Keeps (on_world m)
  on_world-Keeps m = record { status = λ s. refl; tasks = λ s. refl }

  hardware_checks-Keeps : Keeps (hardware_checks o)
  unfolding hardware_checks
  hardware_checks-Keeps = search (keeps_rules, on_world-Keeps) depth 20

  load_infos-Keeps : Keeps (load_infos o)
  unfolding load_infos
  load_infos-Keeps =
      search
        (
          keeps_rules, load_node_config-Keeps, load_ipam_addresses-Keeps, set_endpoint-Keeps,
          load_inventory-Keeps, load_interfaces-Keeps,
        )
        depth 20

  run_fn-Keeps : IsDiscreet → (f : Fn) → Keeps (run_fn o f)
  unfolding run_fn
  run_fn-Keeps d create_dns_records =
      create_dns_records-Keeps o.baremetal.openstack o.netbox.parse_cidr
  run_fn-Keeps d run_aci_check = run_aci_check-Keeps o.aci
  run_fn-Keeps d run_hardware_checks = hardware_checks-Keeps
  run_fn-Keeps d boot_image = boot_image-Keeps o.redfish
  run_fn-Keeps d eject_media = eject_media-Keeps o.redfish
  run_fn-Keeps d reboot = power-Keeps o.redfish _ _
  run_fn-Keeps d create = create-Keeps o.baremetal d.inspector
  run_fn-Keeps d check_created = check_created-Keeps o.baremetal
  run_fn-Keeps d apply_rules =
      apply_rules-Keeps o.baremetal (get_rules o.rules) (get_rules-Keeps o.rules d.rules)
  run_fn-Keeps d power_on = power_on-Keeps o.baremetal
  run_fn-Keeps d provide = provide-Keeps o.baremetal
  run_fn-Keeps d validate = validate-Keeps o.baremetal
  run_fn-Keeps d wait_for_nova_propagation = wait_for_nova_propagation-Keeps o.baremetal
  run_fn-Keeps d deploy_test_instance = deploy_test_instance-Keeps o.baremetal
  run_fn-Keeps d prepare = prepare-Keeps o.baremetal
  run_fn-Keeps d update = update-Keeps o.netbox
  run_fn-Keeps d (timeout_task seconds) = search keeps_rules depth 20

  pub node_methods-IsTidy : IsDiscreet → IsTidy (node_methods o)
  node_methods-IsTidy d = record {
    tasks_keep = λ f s. (run_fn-Keeps d f).status s;
    load_keeps = load_infos-Keeps;
    power_keeps = power-Keeps o.redfish _ _;
    wait_keeps = wait_power_state_on-Keeps o.redfish;
    instance_keeps = delete_test_instance-Keeps o.baremetal;
    node_keeps = delete_node-Keeps o.baremetal;
    status_keeps = set_status-Keeps o.netbox;
  }

  -- In a run of the program's own methods, where neither the inspector's answer nor the user's
  -- template writes the status of the node or its tasks: a node that ends as staged has no task with
  -- another error text than before the run.
  pub temper_program_staged :
      IsDiscreet
      → (netbox_sts : Bool) (wg : ℕ) (s : St W)
      → (temper (node_methods o) netbox_sts wg s).1.node.status ≡ "staged"
      → Each
          (SameError (node_methods o))
          s.node.tasks
          (temper (node_methods o) netbox_sts wg s).1.node.tasks
  temper_program_staged d netbox_sts wg s h =
      temper_staged (node_methods o) (node_methods-IsTidy d) netbox_sts wg s h
