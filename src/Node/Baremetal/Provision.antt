-- ===== src/Node/Baremetal/Provision.antt =====
-- Power and provision states of an ironic node, its validation, and its way into nova.
pub mod Keeping
pub mod Reached
use ironic_temper.Base.{
  ℕ, String, ◌<>◌, Bool, true, false, ◌&&◌, ◌||◌, List, [], ◌∷◌, ltb, ◌=ₛ◌, if◌then◌else◌,
}
use ironic_temper.Go.{
  Error, conflict, message, Reply, reply, refused, Result, Call, ◌>>=◌, ◌>>◌, pure, fail, inspect,
  branch, unless,
}
use ironic_temper.Node.{Node, St, Method, call, this}
use ironic_temper.Clients.{get_service_client}
use ironic_temper.Node.Baremetal.{
  BaremetalApi, IronicNode, Hypervisor, NodeValidation, DriverValidation,
}
use ironic_temper.Node.Baremetal.Create.{get_uuid}
use ironic_temper.Node.Baremetal.Update.{retry_conflict}

abbrev pub has_state : String → Reply IronicNode → Reply Bool
has_state state (reply r) = reply (r.provision_state =ₛ state)
has_state state (refused e) = refused e

abbrev pub is_powered : Reply IronicNode → Reply Bool
is_powered (reply r) = reply (r.power_state =ₛ "power on")
is_powered (refused e) = refused (message "cannot power on node")

-- A hypervisor of the node is up and has resources.
abbrev pub is_propagated : String → List Hypervisor → Bool
is_propagated uuid [] = false
is_propagated uuid (hv ∷ hvs) =
    ((hv.hostname =ₛ uuid && hv.state =ₛ "up") && (ltb 0 hv.local_gb && ltb 0 hv.memory_mb))
    || is_propagated uuid hvs

abbrev pub propagated : String → Reply (List Hypervisor) → Reply Bool
propagated uuid (reply hvs) = reply (is_propagated uuid hvs)
propagated uuid (refused e) = refused e

module _ {W : Type 0} (api : BaremetalApi W) where
  unfoldable pub power_is_on : String → Call W Bool
  power_is_on uuid w = let (r, w') = api.node_get uuid w in (is_powered r, w')

  accepted_power : String → Reply (Unit {0}) → Method W (Unit {0})
  accepted_power uuid (refused e) = fail (message ("cannot power on node " <> uuid))
  accepted_power uuid (reply u) = call (api.poll 5 120 (power_is_on uuid))

  -- `changePowerState`. Whatever the target, it waits for the node to be on.
  unfoldable pub change_power_state : String → Method W (Unit {0})
  unfolding accepted_power
  change_power_state target = do
    get_service_client api.openstack "baremetal"
    n ← this
    r ← inspect (call (api.change_power_state n.uuid target))
    accepted_power n.uuid r

  -- `powerOn`, `powerOff`
  unfoldable pub power_on : Method W (Unit {0})
  power_on = change_power_state "power on"

  unfoldable pub power_off : Method W (Unit {0})
  power_off = change_power_state "power off"

  check_driver : DriverValidation → Method W (Unit {0})
  check_driver v = unless v.result (fail (message v.reason))

  -- `validate`
  unfoldable pub validate : Method W (Unit {0})
  unfolding check_driver
  validate = do
    get_service_client api.openstack "baremetal"
    get_uuid api
    n ← this
    v ← call (api.node_validate n.uuid)
    check_driver v.inspect_
    check_driver v.power
    check_driver v.management
    check_driver v.network

  -- `psWait`
  unfoldable pub state_is : String → String → Call W Bool
  state_is uuid state w = let (r, w') = api.node_get uuid w in (has_state state r, w')

  -- `changePsWait`
  unfoldable pub try_provision_state : String → String → Call W Bool
  try_provision_state uuid target w =
      let (r, w') = api.change_provision_state uuid target w in (retry_conflict r, w')

  -- `provide`
  unfoldable pub provide : Method W (Unit {0})
  provide = do
    get_service_client api.openstack "baremetal"
    n ← this
    call (api.poll 5 120 (try_provision_state n.uuid "manage"))
    call (api.poll 5 60 (state_is n.uuid "manageable"))
    call (api.poll 5 120 (try_provision_state n.uuid "provide"))
    call (api.poll 5 60 (state_is n.uuid "available"))

  unfoldable pub hypervisor_is_up : String → Call W Bool
  hypervisor_is_up uuid w = let (r, w') = api.hypervisors w in (propagated uuid r, w')

  -- `waitForNovaPropagation`
  unfoldable pub wait_for_nova_propagation : Method W (Unit {0})
  wait_for_nova_propagation = do
    get_service_client api.openstack "compute"
    get_uuid api
    n ← this
    call (api.poll 10 1200 (hypervisor_is_up n.uuid))
