-- ===== src/Node/Redfish/Keeping.antt =====
-- The power switch of a server and the connection to it write neither the status of the node nor its
-- tasks.
use ironic_temper.Base.{String, Bool, Option, none, some, arith}
use ironic_temper.Go.{Call, Reply, reply, refused}
use ironic_temper.Node.{RedfishClient}
use ironic_temper.Node.Keeps.{Keeps, keeps_rules}
use ironic_temper.Node.Remote.{PowerState, on_power, off_power, other_power}
use ironic_temper.Node.Redfish.{
  RedfishApi, set_endpoint_of, set_endpoint, connect, redfish, switch_on, power, polled,
  wait_power_state_on,
}

set_endpoint_of-Keeps :
    {W : Type 0} (ip : String) (r : Option RedfishClient) → Keeps {W = W} (set_endpoint_of ip r)
unfolding set_endpoint_of
set_endpoint_of-Keeps ip none = search keeps_rules depth 20
set_endpoint_of-Keeps ip (some r) = search keeps_rules depth 20

pub set_endpoint-Keeps : {W : Type 0} (ip : String) → Keeps {W = W} (set_endpoint ip)
unfolding set_endpoint
set_endpoint-Keeps ip = search (keeps_rules, set_endpoint_of-Keeps) depth 20

module _ {W : Type 0} (api : RedfishApi W) where
  pub redfish-Keeps : {A : Type 0} (c : Call W A) → Keeps (redfish api c)
  redfish-Keeps c = record { status = λ s. ground arith; tasks = λ s. ground arith }

  pub connect-Keeps : Keeps (connect api)
  unfolding connect
  connect-Keeps = search keeps_rules depth 20

  switch_on-Keeps : (p : PowerState) → Keeps (switch_on api p)
  unfolding switch_on
  switch_on-Keeps on_power = search keeps_rules depth 20
  switch_on-Keeps off_power = search (keeps_rules, redfish-Keeps) depth 20
  switch_on-Keeps other_power = search (keeps_rules, redfish-Keeps) depth 20

  pub power-Keeps : (off restart : Bool) → Keeps (power api off restart)
  unfolding power
  power-Keeps off restart = search (keeps_rules, redfish-Keeps, switch_on-Keeps) depth 20

  polled-Keeps : (r : Reply (Unit {0})) → Keeps (polled api r)
  unfolding polled
  polled-Keeps (reply u) = search keeps_rules depth 20
  polled-Keeps (refused e) = search keeps_rules depth 20

  pub wait_power_state_on-Keeps : Keeps (wait_power_state_on api)
  unfolding wait_power_state_on
  wait_power_state_on-Keeps = search (keeps_rules, redfish-Keeps, polled-Keeps) depth 20
