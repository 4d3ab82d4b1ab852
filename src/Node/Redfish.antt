-- ===== src/Node/Redfish.antt =====
-- pkg/node/redfish.go and pkg/clients/redfish.go: the session with a server's management board,
-- and its power. The calls of gofish are parameters.
pub mod Keeping
pub mod Inventory
pub mod Network
pub mod Media
pub mod Events
use ironic_temper.Base.{◌=ₛ◌, ℕ, String, ◌<>◌, Bool, true, false, Option, none, some, List, [], ◌∷◌}
use ironic_temper.Go.{
  Error, message, error_text, Reply, reply, refused, Result, ok, err, panics, Call, ◌>>=◌, ◌>>◌,
  pure, fail, panic, inspect, deref, at_index, branch, of_reply,
}
use ironic_temper.Go.Polling.{Poll}
use ironic_temper.Node.{Node, RedfishClient, St, Method, call, this, write}
use ironic_temper.Node.Remote.{
  Chassis, ComputerSystem, Drive, NetworkAdapter, NetworkPort, VirtualMedia, PowerState, on_power,
  off_power, other_power,
}
use ironic_temper.Text.{is_empty}

pub data ResetType : Type 0 where
  force_off force_restart on : ResetType

-- The calls of `n.Clients.Redfish.Client`. A resource is named by its place in the listing.
pub record RedfishApi (W : Type 0) : Type 0 where
  pub poll : Poll W
  pub connect : String → Call W (Unit {0})
  pub logout : Call W (Unit {0})
  pub chassis : Call W (List Chassis)
  pub systems : Call W (List ComputerSystem)
  pub memory : Call W (List ℕ)
  pub storages : Call W (List ℕ)
  pub drives : ℕ → Call W (List Drive)
  pub processors : Call W (List String)
  pub network_adapters : Call W (List NetworkAdapter)
  pub network_ports : NetworkAdapter → Call W (List NetworkPort)
  pub reset : ResetType → Call W (Unit {0})
  pub set_boot_from_cd : Call W (Unit {0})
  -- the number of managers
  pub managers : Call W ℕ
  pub import_boot_configuration : Call W (Unit {0})
  pub virtual_media : Call W (List VirtualMedia)
  pub eject_media : Call W (Unit {0})
  -- the image and the method of the request
  pub insert_media : String → String → Call W (Unit {0})
  pub sleep : ℕ → Call W (Unit {0})
  -- `int64(float64(bytes) * 1.074)`
  pub scaled : ℕ → ℕ

abbrev nil_pointer : String
nil_pointer = "nil pointer dereference"

-- `SetEndpoint`; the address is looked at before the client.
set_endpoint_of : {W : Type 0} → String → Option RedfishClient → Method W (Unit {0})
set_endpoint_of ip none = panic nil_pointer
set_endpoint_of ip (some r) =
    write (λ n. record n { redfish = some (record r { endpoint = "https://" <> ip }) })

unfoldable pub set_endpoint : {W : Type 0} → String → Method W (Unit {0})
unfolding set_endpoint_of
set_endpoint ip = do
  n ← this
  branch (is_empty ip) (fail (message "no remote ip address set")) (set_endpoint_of ip n.redfish)

abbrev no_system : String
no_system = "index out of range"

abbrev is_on : PowerState → Bool
is_on on_power = true
is_on _ = false

-- Where there is no system the program indexes an empty slice and panics in the polled condition. The
-- poll hands on the panic as it would an error.
abbrev pub is_powered_on : Reply (List ComputerSystem) → Reply Bool
is_powered_on (refused e) = refused (message "cannot power on node")
is_powered_on (reply []) = refused (message no_system)
is_powered_on (reply (s ∷ ss)) = reply (is_on s.power_state)

abbrev pub is_connected : Option RedfishClient → Bool
is_connected none = false
is_connected (some r) = r.connected

module _ {W : Type 0} (api : RedfishApi W) where
  -- `Connect`
  unfoldable pub connect : Method W (Unit {0})
  connect = do
    n ← this
    r ← deref n.redfish
    call (api.connect r.endpoint)
    write (λ n. record n { redfish = some (record r { connected = true }) })

  -- A call through `n.Clients.Redfish.Client`, a nil pointer before the first `Connect`.
  abbrev pub redfish : {A : Type 0} → Call W A → Method W A
  redfish c s = branch (is_connected s.node.redfish) (call c) (panic nil_pointer) s

  -- A server that is off is switched on, and given a minute to boot.
  switch_on : PowerState → Method W (Unit {0})
  switch_on on_power = pure tt
  switch_on _ = do r ← inspect (redfish (api.reset on)); call (api.sleep 60); of_reply r

  -- `power(forceOff, restart)`
  unfoldable pub power : Bool → Bool → Method W (Unit {0})
  unfolding switch_on
  power off restart = do
    systems ← redfish api.systems
    first ← at_index systems 0
    branch off (redfish (api.reset force_off))
        (branch restart (redfish (api.reset force_restart)) (switch_on first.power_state))

  unfoldable pub power_state_is_on : Call W Bool
  power_state_is_on w = let (r, w') = api.systems w in (is_powered_on r, w')

  polled : Reply (Unit {0}) → Method W (Unit {0})
  polled (reply u) = pure tt
  polled (refused e) = branch (error_text e =ₛ no_system) (panic no_system) (fail e)

  -- `waitPowerStateOn`
  unfoldable pub wait_power_state_on : Method W (Unit {0})
  unfolding polled
  wait_power_state_on = do r ← inspect (redfish (api.poll 10 300 power_state_is_on)); polled r
