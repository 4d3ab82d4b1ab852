-- ===== src/Tests/Runs.antt =====
-- Runs of `Temper` and of the task table.
use ironic_temper.Base.{◌≡◌, refl, String, [], ◌∷◌, ◌++◌, List, map}
use ironic_temper.Go.{message, panics}
use mathlib.Core.List.{Perm}
use mathlib.Core.List.Perm
use ironic_temper.Base.Dict.{Dict, lookup}
use ironic_temper.Node.{Node, Task, TaskExec}
use ironic_temper.Node.Tasks.Order.{task_of, add_all-Perm}
use ironic_temper.Node.Tasks.{merge_tasks, add_execs, add_task, execs_of_service}
use ironic_temper.Node.Tasks.Registry.{filled, merge_tasks-filled}
use ironic_temper.Node.Temper.{Methods, goes_on, set_status_to, run_execs}
use ironic_temper.Node.Temper.Failing.{done_despite_error}
use ironic_temper.Node.Temper.Cleanup.{CleanupKeepsStatus}
use ironic_temper.Tests.Data.{
  tempered, failing, passing, two_steps, start, methods, new_not_done, message_not_exists,
}

methods-CleanupKeepsStatus : CleanupKeepsStatus methods
methods-CleanupKeepsStatus = record {
  instance_keeps = λ s. refl;
  node_keeps = λ s. refl;
  status_keeps = λ s. refl;
}

-- Methods whose first call panics.
abbrev panics_first : Methods String
panics_first = record methods { load_infos = λ s. (panics "nil pointer dereference", s) }

panics_first-CleanupKeepsStatus : CleanupKeepsStatus panics_first
panics_first-CleanupKeepsStatus = record {
  instance_keeps = λ s. refl;
  node_keeps = λ s. refl;
  status_keeps = λ s. refl;
}

done_despite_error_example :
    run_execs methods (failing ∷ passing ∷ []) two_steps (start []) ≡ record {
      flow = goes_on;
      task = record two_steps { error = "no node"; status = "done" };
      st = set_status_to "failed" (start []);
    }
done_despite_error_example =
    done_despite_error methods failing passing two_steps (start []) (start [])
      (set_status_to "failed" (start [])) (message "no node") new_not_done
      (message_not_exists "no node") refl refl

unknown : Task
unknown = record two_steps { task = "nothing" }

merge_tasks-filled_example :
    let known = record two_steps { task = "validate" } in
    (merge_tasks (known ∷ two_steps ∷ []) (tempered [])).1 ≡ record (tempered []) {
      tasks = [] ++ filled (tempered []).tasks_execs (known ∷ two_steps ∷ []);
    }
merge_tasks-filled_example =
    merge_tasks-filled (record two_steps { task = "validate" } ∷ two_steps ∷ []) (tempered [])

-- Another order of the tasks of ironic.
abbrev another : Dict (List TaskExec)
another = ("create", []) ∷ ("validate", []) ∷ []

abbrev with_table : Node
with_table = record (tempered []) {
  tasks_execs = ("ironic", ("validate", []) ∷ ("create", []) ∷ []) ∷ [];
}

add_all-Perm_example :
    ((add_task "ironic" "all" with_table).1 ≡ record with_table {
      tasks = [] ++ map (task_of "ironic") (execs_of_service with_table "ironic");
    })
    × Perm
        (add_task "ironic" "all" with_table).1.tasks
        (add_execs "ironic" another with_table).tasks
unfolding execs_of_service lookup
add_all-Perm_example =
    add_all-Perm "ironic" with_table another (Perm.swap ("create", []) ("validate", []) [])
