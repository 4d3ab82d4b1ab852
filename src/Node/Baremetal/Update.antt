-- ===== src/Node/Baremetal/Update.antt =====
-- Updates of an ironic node and of its ports: `updateNode`, `updatePorts`, `prepare`, `applyRules`.
pub mod Keeping
use ironic_temper.Base.{String, Bool, true, false, List, [], ◌∷◌}
use ironic_temper.Go.{conflict, Reply, reply, refused, Call, ◌>>=◌, ◌>>◌, at_index, for_each}
use ironic_temper.Node.{Method, call, this}
use ironic_temper.Clients.{get_service_client}
use ironic_temper.Node.Baremetal.{BaremetalApi, UpdateOperation, text, flag, Rule}
use ironic_temper.Node.Baremetal.Create.{get_uuid}
use ironic_temper.Text.{split}

-- Any error is a reason to try again.
abbrev pub retry_all : {A : Type 0} → Reply A → Reply Bool
retry_all (reply a) = reply true
retry_all (refused e) = reply false

-- A conflict (409: the node is locked) is a reason to try again, another error ends the poll.
abbrev pub retry_conflict : {A : Type 0} → Reply A → Reply Bool
retry_conflict (reply a) = reply true
retry_conflict (refused (conflict m)) = reply false
retry_conflict (refused e) = refused e

module _ {W : Type 0} (api : BaremetalApi W) where
  unfoldable pub try_update : String → List UpdateOperation → Call W Bool
  try_update uuid opts w = let (r, w') = api.node_update uuid opts w in (retry_all r, w')

  -- `updateNode`
  unfoldable pub update_node : List UpdateOperation → Method W (Unit {0})
  update_node opts = do
    get_service_client api.openstack "baremetal"
    n ← this
    call (api.poll 5 60 (try_update n.uuid opts))

  unfoldable pub try_update_port : List UpdateOperation → String → Call W Bool
  try_update_port opts port w = let (r, w') = api.port_update port opts w in (retry_conflict r, w')

  update_port : List UpdateOperation → String → Method W (Unit {0})
  update_port opts port = call (api.poll 5 60 (try_update_port opts port))

  -- `updatePorts`
  unfoldable pub update_ports : List UpdateOperation → Method W (Unit {0})
  unfolding update_port
  update_ports opts = do
    get_service_client api.openstack "baremetal"
    n ← this
    ports ← call (api.ports_of_node n.uuid)
    for_each ports (update_port opts)

  abbrev prepare_ops : String → List UpdateOperation
  prepare_ops conductor =
      (record { op = "replace"; path = "/conductor_group"; value = text conductor })
      ∷ (record { op = "replace"; path = "/maintenance"; value = flag true })
      ∷ []

  -- `prepare`. A name without a dash has no second part, and the index panics.
  unfoldable pub prepare : Method W (Unit {0})
  prepare = do
    get_uuid api
    n ← this
    conductor ← at_index (split b'-' n.name) 1
    update_node (prepare_ops conductor)

  -- `applyRules`, over the rules that `getRules` makes of the user's template.
  unfoldable pub apply_rules : Method W Rule → Method W (Unit {0})
  apply_rules get_rules = do
    rules ← get_rules
    update_ports rules.port_ops
    update_node rules.node_ops
