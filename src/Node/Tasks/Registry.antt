-- ===== src/Node/Tasks/Registry.antt =====
-- Every task of a node runs the functions that its table registers under the task's name.
use mathlib.Core.List.{append-nil, append_assoc}
use ironic_temper.Base.{
  ◌∙◌, ◌≡◌, String, none, some, List, [], ◌∷◌, ◌++◌, All, All-append, arith, eq_iff, ◌≢◌,
  Bool-cases, Option-cases, inl, inr, ◌=ₛ◌,
}
use ironic_temper.Base.Dict.{Dict, lookup}
use ironic_temper.Go.{err, Error}
use ironic_temper.Node.{Node, Task, TaskExec}
use ironic_temper.Node.Tasks.{execs_of_service, or_nil, new_task, add_execs, add_task, merge_tasks}

abbrev pub IsRegistered : Node → Task → Type 0
IsRegistered n t = lookup t.task (execs_of_service n t.service) ≡ some t.exec

abbrev pub AllRegistered : Node → Type 0
AllRegistered n = All (IsRegistered n) n.tasks

-- A Go map has every key once: looking an entry's key up finds that entry.
abbrev pub IsMap : Dict (List TaskExec) → Type 0
IsMap d = All (λ p. lookup p.0 d ≡ some p.1) d

add_execs-AllRegistered :
    (service : String) (d : Dict (List TaskExec)) (n : Node)
    → All (λ p. lookup p.0 (execs_of_service n service) ≡ some p.1) d
    → AllRegistered n
    → AllRegistered (add_execs service d n)
unfolding add_execs execs_of_service
add_execs-AllRegistered service [] n h v = v
add_execs-AllRegistered service ((t, e) ∷ d) n h v =
    add_execs-AllRegistered service d _ h.1
      (All-append (IsRegistered n) n.tasks (new_task service t e ∷ []) v (h.0, tt))

-- Adding a task, or all tasks of a service, leaves every task of the node with the functions that
-- the table registers for it, if the service's entry of the table is a map and it held before.
pub add_task-AllRegistered :
    (service name : String) (n : Node)
    → IsMap (execs_of_service n service)
    → AllRegistered n
    → AllRegistered (add_task service name n).1
unfolding add_task new_task
add_task-AllRegistered service name n m v = elim (Bool-cases (name =ₛ "all")) [
  | inl all ↦ rw all (add_execs-AllRegistered service (execs_of_service n service) n m v)
  | inr one ↦ rw one (elim (Option-cases (lookup name (execs_of_service n service))) [
    | inl e ↦ rw (e, add_task) v
    | inr (execs, e) ↦
        rw (e, add_task)
          (All-append (IsRegistered n) n.tasks (new_task service name execs ∷ []) v (e, tt))
  ])
]

-- Merging the tasks of a configuration context, also where it stops at an unknown task, leaves every
-- task of the node with the functions that the table registers for it, if it held before.
merge_tasks-AllRegistered :
    (ts : List Task) (n : Node) → AllRegistered n → AllRegistered (merge_tasks ts n).1
unfolding merge_tasks
merge_tasks-AllRegistered [] n v = v
merge_tasks-AllRegistered (t ∷ ts) n v =
    elim (Option-cases (lookup t.task (execs_of_service n t.service))) [
      | inl e ↦ rw (e, merge_tasks) v
      | inr (execs, e) ↦
          rw (e, merge_tasks)
            (merge_tasks-AllRegistered ts _
              (All-append (IsRegistered n) n.tasks (record t { exec = execs } ∷ []) v (e, tt)))
    ]

-- The tasks of a configuration context with the functions of the table filled in, up to the first
-- that the table does not have.
pub filled : Dict (Dict (List TaskExec)) → List Task → List Task
filled table [] = []
filled table (t ∷ ts) =
    let rest = filled table ts in
    elim (lookup t.task (or_nil (lookup t.service table))) [
      | none ↦ []
      | some execs ↦ record t { exec = execs } ∷ rest
    ]

-- Merging appends exactly the filled-in tasks before the first unknown one, keeps their order and
-- changes nothing else of the node.
pub merge_tasks-filled :
    (ts : List Task) (n : Node)
    → (merge_tasks ts n).1 ≡ record n { tasks = n.tasks ++ filled n.tasks_execs ts }
unfolding merge_tasks filled execs_of_service
merge_tasks-filled [] n = rw append-nil
merge_tasks-filled (t ∷ ts) n = elim (Option-cases (lookup t.task (execs_of_service n t.service))) [
  | inl e ↦ rw (e, merge_tasks, filled) (rw append-nil)
  | inr (execs, e) ↦ rw (e, merge_tasks, filled) (merge_tasks-filled ts _ ∙ rw append_assoc)
]

-- An addition that is refused was of a name other than "all" that the service's table does not
-- have, and it changes nothing.
add_task-refused :
    (service name : String) (n : Node) (e : Error)
    → (add_task service name n).0 ≡ err e
    → (name ≢ "all")
      × (lookup name (execs_of_service n service) ≡ none)
      × ((add_task service name n).1 ≡ n)
unfolding add_task
add_task-refused service name n e h = ground (arith, eq_iff name "all")
