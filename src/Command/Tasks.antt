-- ===== src/Command/Tasks.antt =====
-- The tasks of the nodes that a command tempers.
use mathlib.Core.Path.{subst}
use ironic_temper.Base.{
  ◌≡◌, ℕ, zero, suc, refl, sym, ◌∙◌, String, Bool, true, false, List, [], ◌∷◌, arith, All,
  All-append, Option-cases, Bool-cases, inl, inr, ◌=ₛ◌,
}
use ironic_temper.Base.Dict.{Dict, lookup}
use ironic_temper.Go.{Reply, ok}
use ironic_temper.Node.{Node, Config, TaskExec}
use ironic_temper.Node.New.{new_node}
use ironic_temper.Node.New.Tasks.{new_node_table}
use ironic_temper.Node.Tasks.{task_execs, execs_of_service, or_nil, add_execs, add_task}
use ironic_temper.Node.Tasks.Registry.{IsMap, AllRegistered, add_task-AllRegistered}
use ironic_temper.Node.Tasks.Table.{lookup-IsMap, task_execs-IsMap}
use ironic_temper.Node.Temper.{Methods}
use ironic_temper.Command.{
  Flags, Command, with_task, add_parts, add_arguments, add_complete, begun, launch, skip, end_at,
  remove_at, Move, launches, skips, ends, Moves, stays, goes, when,
}
use ironic_temper.Text.{split}

-- The node's table has every task once, and its tasks run what the table registers for them.
pub record IsReady (n : Node) : Type 0 where
  pub table : (image : String) × (n.tasks_execs ≡ task_execs image)
  pub registered : AllRegistered n

add_execs_table :
    (service : String) (d : Dict (List TaskExec)) (n : Node)
    → (add_execs service d n).tasks_execs ≡ n.tasks_execs
unfolding add_execs
add_execs_table service [] n = refl
add_execs_table service ((t, e) ∷ d) n = add_execs_table service d _

add_task_table :
    (service task : String) (n : Node) → (add_task service task n).1.tasks_execs ≡ n.tasks_execs
unfolding add_task
add_task_table service task n = elim (Bool-cases (task =ₛ "all")) [
  | inl all ↦ ground (arith, all, add_execs_table service (execs_of_service n service) n)
  | inr one ↦ elim (Option-cases (lookup task (execs_of_service n service))) [
    | inl e ↦ ground (arith, one, e)
    | inr (execs, e) ↦ ground (arith, one, e)
  ]
]

with_task-IsReady :
    (service task : String) (n : Node) → IsReady n → IsReady (with_task service task n)
unfolding execs_of_service
with_task-IsReady service task n v = record {
  table = (v.table.0, add_task_table service task n ∙ v.table.1);
  registered =
      add_task-AllRegistered service task n
        (subst (λ t. IsMap (or_nil (lookup service t))) (sym v.table.1)
          (lookup-IsMap service (task_execs v.table.0) (task_execs-IsMap v.table.0)))
        v.registered;
}

add_parts-IsReady : (parts : List String) (n : Node) → IsReady n → IsReady (add_parts parts n)
add_parts-IsReady [] n v = v
add_parts-IsReady (s ∷ []) n v = v
add_parts-IsReady (s ∷ t ∷ []) n v = with_task-IsReady s t n v
add_parts-IsReady (s ∷ t ∷ u ∷ rest) n v = v

-- The arguments of the command "run", also those that are refused, leave a node whose tasks all run
-- what its table registers for them.
pub add_arguments-IsReady : (ts : List String) (n : Node) → IsReady n → IsReady (add_arguments ts n)
unfolding add_arguments
add_arguments-IsReady [] n v = v
add_arguments-IsReady (t ∷ ts) n v =
    add_arguments-IsReady ts (add_parts (split b'.' t) n) (add_parts-IsReady (split b'.' t) n v)

when-IsReady :
    (b : Bool) (f : Node → Node)
    → ((n : Node) → IsReady n → IsReady (f n))
    → (n : Node) → IsReady n
    → IsReady (when b f n)
when-IsReady true f k n v = k n v
when-IsReady false f k n v = v

add_complete-IsReady : (f : Flags) (n : Node) → IsReady n → IsReady (add_complete f n)
unfolding add_complete
add_complete-IsReady f n v =
    when-IsReady f.netbox_status (with_task "netbox" "sync") (with_task-IsReady "netbox" "sync") _ (
      when-IsReady f.baremetal _
        (λ k r. with_task-IsReady "ironic" "prepare" _ (
          with_task-IsReady "ironic" "test" _
            (with_task-IsReady "ironic" "validate" _ (with_task-IsReady "ironic" "create" k r))))
        _
        (when-IsReady f.diag _
          (λ k r.
            with_task-IsReady "diagnostics" "hardwarecheck" _
              (with_task-IsReady "diagnostics" "cablecheck" k r))
          _ (with_task-IsReady "dns" "create" n v)))

new_node-IsReady :
    (tls : Reply (Unit {0})) (name : String) (cfg : Config) (n : Node)
    → new_node tls name cfg ≡ (ok tt, n)
    → IsReady n
new_node-IsReady tls name cfg n h =
    let (image, table, none_yet) = new_node_table tls name cfg n h in
    record { table = (image, table); registered = rw none_yet tt }

remove_at-All : (i : ℕ) (xs : List Node) → All AllRegistered xs → All AllRegistered (remove_at i xs)
remove_at-All i [] v = tt
remove_at-All zero (x ∷ xs) v = v.1
remove_at-All (suc i) (x ∷ xs) v = (v.0, remove_at-All i xs v.1)

module _ {W : Type 0} (m : Methods W) (tls : Reply (Unit {0})) (cfg : Config)
    (netbox_sts : Bool) where
  module _ (prepare : Node → Node) (prepares : (n : Node) → IsReady n → IsReady (prepare n)) where
    Move-AllRegistered :
        (c d : Command)
        → Move m tls cfg netbox_sts prepare c d
        → All AllRegistered c.running
        → All AllRegistered d.running
    unfolding launch skip end_at
    Move-AllRegistered _ _ (launches name rest n c r e) v =
        All-append AllRegistered c.running (prepare n ∷ []) v
          ((prepares n (new_node-IsReady tls name cfg n e)).registered, tt)
    Move-AllRegistered _ _ (skips name rest e n c r x) v = v
    Move-AllRegistered _ _ (ends i k n w c r t) v = remove_at-All i c.running v

    Moves-AllRegistered :
        (c d : Command)
        → Moves m tls cfg netbox_sts prepare c d
        → All AllRegistered c.running
        → All AllRegistered d.running
    Moves-AllRegistered _ _ (stays c) v = v
    Moves-AllRegistered _ _ (goes c d e x xs) v =
        Moves-AllRegistered d e xs (Move-AllRegistered c d x v)

  -- Whatever its arguments are, every node whose goroutine the command "run" has running has only
  -- tasks that run the functions which the node's table registers under their names.
  pub run_command-AllRegistered :
      (args names : List String) (c : Command)
      → Moves m tls cfg netbox_sts (add_arguments args) (begun names) c
      → All AllRegistered c.running
  unfolding begun
  run_command-AllRegistered args names c ms =
      Moves-AllRegistered (add_arguments args) (add_arguments-IsReady args) (begun names) c ms tt

  -- The same of the command "complete", whatever its flags are.
  pub complete_command-AllRegistered :
      (f : Flags) (names : List String) (c : Command)
      → Moves m tls cfg netbox_sts (add_complete f) (begun names) c
      → All AllRegistered c.running
  unfolding begun
  complete_command-AllRegistered f names c ms =
      Moves-AllRegistered (add_complete f) (add_complete-IsReady f) (begun names) c ms tt
