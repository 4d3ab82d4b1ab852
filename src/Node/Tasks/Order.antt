-- ===== src/Node/Tasks/Order.antt =====
-- The order in which `AddTask` visits the table of a service.
use mathlib.Core.List.{Perm, append-nil, append_assoc}
use mathlib.Core.List.Perm
use ironic_temper.Base.{◌∙◌, ◌≡◌, refl, String, List, [], ◌∷◌, ◌++◌, map}
use ironic_temper.Base.Dict.{Dict}
use ironic_temper.Node.{Node, Task, TaskExec}
use ironic_temper.Node.Tasks.{execs_of_service, new_task, add_execs, add_task}

-- The task that an entry of the table promises: its name and functions, with no error and no status.
abbrev pub task_of : String → String × List TaskExec → Task
task_of service e = record { service = service; task = e.0; exec = e.1; error = ""; status = "" }

add_execs-map :
    (service : String) (d : Dict (List TaskExec)) (n : Node)
    → add_execs service d n ≡ record n { tasks = n.tasks ++ map (task_of service) d }
unfolding add_execs new_task
add_execs-map service [] n = rw append-nil refl
add_execs-map service ((t, e) ∷ d) n = add_execs-map service d _ ∙ rw append_assoc refl

-- Adding all tasks of a service changes only the tasks of the node: it appends, for each entry of the
-- service's table and in the order in which the table is visited, a task of that service with the name
-- and the functions of the entry, no error and no status; in another order, the tasks of the node are a
-- permutation of these.
pub add_all-Perm :
    (service : String) (n : Node) (other : Dict (List TaskExec))
    → Perm (execs_of_service n service) other
    → ((add_task service "all" n).1
        ≡ record n { tasks = n.tasks ++ map (task_of service) (execs_of_service n service) })
      × Perm (add_task service "all" n).1.tasks (add_execs service other n).tasks
unfolding add_task
add_all-Perm service n other p =
    let mine = add_execs-map service (execs_of_service n service) n in
    let theirs = add_execs-map service other n in
    (mine, rw (mine, theirs) (Perm.append_left n.tasks (Perm.map (task_of service) p)))
