-- ===== src/Node/New/Tasks.antt =====
-- The tasks that a new node can be given.
use mathlib.Core.Path.{subst}
use ironic_temper.Base.{◌≡◌, sym, String, none, [], arith, Option-cases, inl, inr}
use ironic_temper.Base.Dict.{lookup}
use ironic_temper.Go.{Reply, ok}
use ironic_temper.Node.{Node, Config}
use ironic_temper.Node.Tasks.{task_execs, init_task_execs, or_nil, execs_of_service, add_task}
use ironic_temper.Node.Tasks.Registry.{IsMap, AllRegistered, add_task-AllRegistered}
use ironic_temper.Node.Tasks.Table.{lookup-IsMap, task_execs-IsMap}
use ironic_temper.Node.New.{new_node, with_netbox}

-- A node that is made without an error has the table of its boot image, and no tasks.
pub new_node_table :
    (tls : Reply (Unit {0})) (name : String) (cfg : Config) (n : Node)
    → new_node tls name cfg ≡ (ok tt, n)
    → (image : String) × (n.tasks_execs ≡ task_execs image) × (n.tasks ≡ [])
unfolding new_node with_netbox init_task_execs
new_node_table tls name cfg n h = elim (Option-cases cfg.redfish_boot_image) [
  | inl e ↦ absurd (ground arith)
  | inr (image, e) ↦ (image, ground arith, ground arith)
]

-- The device of a new node is not loaded.
pub new_node_no_device :
    (tls : Reply (Unit {0})) (name : String) (cfg : Config) (n : Node)
    → new_node tls name cfg ≡ (ok tt, n)
    → n.device_config ≡ none
unfolding new_node with_netbox init_task_execs
new_node_no_device tls name cfg n h = elim (Option-cases cfg.redfish_boot_image) [
  | inl e ↦ absurd (ground arith)
  | inr (image, e) ↦ ground arith
]

-- A node that `New` returns without an error can be given any task of any service, or all of a
-- service: the tasks that it then has run the functions of its table.
pub new_node-AllRegistered :
    (tls : Reply (Unit {0})) (name : String) (cfg : Config) (n : Node)
    → new_node tls name cfg ≡ (ok tt, n)
    → (service task : String) → AllRegistered (add_task service task n).1
unfolding execs_of_service
new_node-AllRegistered tls name cfg n h service task =
    let (image, table, none_yet) = new_node_table tls name cfg n h in
    add_task-AllRegistered service task n
      (subst (λ t. IsMap (or_nil (lookup service t))) (sym table)
        (lookup-IsMap service (task_execs image) (task_execs-IsMap image)))
      (rw none_yet tt)

-- A node has the name that it was made with.
pub new_node_name :
    (tls : Reply (Unit {0})) (name : String) (cfg : Config) → (new_node tls name cfg).1.name ≡ name
unfolding new_node with_netbox init_task_execs
new_node_name tls name cfg = elim (Option-cases cfg.redfish_boot_image) [
  | inl e ↦ ground (arith, e)
  | inr (image, e) ↦ ground (arith, e)
]
