-- ===== src/Node/Baremetal/Provision/Keeping.antt =====
-- The routines that change and await ironic's states write neither the status of the node nor its
-- tasks.
use ironic_temper.Base.{String}
use ironic_temper.Go.{Reply, reply, refused}
use ironic_temper.Node.Keeps.{Keeps, keeps_rules}
use ironic_temper.Clients.Keeping.{get_service_client-Keeps}
use ironic_temper.Node.Baremetal.{BaremetalApi, DriverValidation}
use ironic_temper.Node.Baremetal.Create.Keeping.{get_uuid-Keeps}
use ironic_temper.Node.Baremetal.Provision.{
  accepted_power, change_power_state, power_on, check_driver, validate, provide,
  wait_for_nova_propagation,
}

module _ {W : Type 0} (api : BaremetalApi W) where
  accepted_power-Keeps : (uuid : String) (r : Reply (Unit {0})) → Keeps (accepted_power api uuid r)
  unfolding accepted_power
  accepted_power-Keeps uuid (reply u) = search keeps_rules depth 20
  accepted_power-Keeps uuid (refused e) = search keeps_rules depth 20

  change_power_state-Keeps : (target : String) → Keeps (change_power_state api target)
  unfolding change_power_state
  change_power_state-Keeps target =
      search (keeps_rules, get_service_client-Keeps, accepted_power-Keeps) depth 20

  pub power_on-Keeps : Keeps (power_on api)
  unfolding power_on
  power_on-Keeps = search change_power_state-Keeps depth 20

  check_driver-Keeps : (v : DriverValidation) → Keeps (check_driver api v)
  unfolding check_driver
  check_driver-Keeps v = search keeps_rules depth 20

  pub validate-Keeps : Keeps (validate api)
  unfolding validate
  validate-Keeps =
      search (keeps_rules, get_service_client-Keeps, get_uuid-Keeps, check_driver-Keeps) depth 20

  pub provide-Keeps : Keeps (provide api)
  unfolding provide
  provide-Keeps = search (keeps_rules, get_service_client-Keeps) depth 20

  pub wait_for_nova_propagation-Keeps : Keeps (wait_for_nova_propagation api)
  unfolding wait_for_nova_propagation
  wait_for_nova_propagation-Keeps =
      search (keeps_rules, get_service_client-Keeps, get_uuid-Keeps) depth 20
