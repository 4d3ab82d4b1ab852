-- ===== src/Node/Tasks.antt =====
-- pkg/node/task.go: the table of the tasks that a node knows, and the two ways to give it tasks.
pub mod Registry
pub mod Table
pub mod Order
use ironic_temper.Base.{
  ℕ, ◌≡◌, String, Option, none, some, List, [], ◌∷◌, ◌++◌, map, if◌then◌else◌, ◌=ₛ◌,
}
use ironic_temper.Base.Dict.{Dict, lookup, insert}
use ironic_temper.Go.{Error, message, Result, ok, err, panics}
use ironic_temper.Node.{
  Node, Task, TaskExec, Fn, create_dns_records, run_aci_check, run_hardware_checks, boot_image,
  eject_media, reboot, create, check_created, apply_rules, power_on, provide, validate,
  wait_for_nova_propagation, deploy_test_instance, prepare, update, timeout_task,
}
use ironic_temper.Text.{is_empty}

abbrev exec : Fn → String → TaskExec
exec f name = record { fn = f; name = name }

-- The diagnostics without a boot image, and with one.
abbrev diagnostics_plain : Dict (List TaskExec)
diagnostics_plain =
    ("cablecheck", exec run_aci_check "diagnostics.cablecheck.aci" ∷ [])
    ∷ ("hardwarecheck", exec run_hardware_checks "diagnostics.hardwarecheck" ∷ [])
    ∷ ("bootimage", exec boot_image "diagnostics.bootimage" ∷ [])
    ∷ []

abbrev diagnostics_with_image : Dict (List TaskExec)
diagnostics_with_image =
    (
      "cablecheck",
      exec boot_image "diagnostics.cablecheck.bootimage"
          ∷ exec (timeout_task 600) "diagnostics.cablecheck.bootimage.wait"
          ∷ exec run_aci_check "diagnostics.cablecheck.aci"
          ∷ exec eject_media "diagnostics.cablecheck.bootimage.eject"
          ∷ exec reboot "diagnostics.cablecheck.reboot"
          ∷ [],
    )
    ∷ ("hardwarecheck", exec run_hardware_checks "diagnostics.cablecheck.hardwarecheck" ∷ [])
    ∷ []

abbrev ironic_tasks : Dict (List TaskExec)
ironic_tasks =
    (
      "create",
      exec create "ironic.create"
          ∷ exec check_created "ironic.create.check"
          ∷ exec (timeout_task 10) "ironic.create.wait"
          ∷ exec apply_rules "ironic.create.applyRules"
          ∷ exec power_on "ironic.create.powerOn"
          ∷ exec provide "ironic.create.provide"
          ∷ [],
    )
    ∷ ("validate", exec validate "ironic.validate" ∷ [])
    ∷ (
      "test",
      exec wait_for_nova_propagation "ironic.test.waitForNovaPropagation"
          ∷ exec deploy_test_instance "ironic.test.deploy"
          ∷ [],
    )
    ∷ ("prepare", exec prepare "ironic.prepare" ∷ [])
    ∷ []

abbrev no_execs : Dict (List TaskExec)
no_execs = ("profile", []) ∷ ("update", []) ∷ []

-- `initTaskExecs`, by the boot image that the configuration names.
unfoldable pub task_execs : String → Dict (Dict (List TaskExec))
task_execs image =
    ("dns", ("create", exec create_dns_records "dns.create" ∷ []) ∷ [])
    ∷ ("diagnostics", if is_empty image then diagnostics_plain else diagnostics_with_image)
    ∷ ("ironic", ironic_tasks)
    ∷ ("netbox", ("sync", exec update "netbox.sync" ∷ []) ∷ [])
    ∷ ("firmware", no_execs)
    ∷ ("bios", no_execs)
    ∷ []

abbrev nil_pointer : String
nil_pointer = "nil pointer dereference"

-- `*n.cfg.Redfish.BootImage` is read with no test for nil.
unfoldable pub init_task_execs : Node → Result (Unit {0}) × Node
unfolding task_execs
init_task_execs n = elim n.cfg.redfish_boot_image [
  | none ↦ (panics nil_pointer, n)
  | some image ↦ (ok tt, record n { tasks_execs = task_execs image })
]

-- A missing service is a nil map, which has no entry.
abbrev pub or_nil : Option (Dict (List TaskExec)) → Dict (List TaskExec)
or_nil none = []
or_nil (some m) = m

-- `n.tasksExecs[service]`
unfoldable pub execs_of_service : Node → String → Dict (List TaskExec)
execs_of_service n service = or_nil (lookup service n.tasks_execs)

-- A task that has not run.
unfoldable pub new_task : String → String → List TaskExec → Task
new_task service name execs = record {
  service = service;
  task = name;
  exec = execs;
  error = "";
  status = "";
}

unfoldable pub add_execs : String → Dict (List TaskExec) → Node → Node
unfolding new_task
add_execs service [] n = n
add_execs service ((t, e) ∷ rest) n =
    add_execs service rest (record n { tasks = n.tasks ++ (new_task service t e ∷ []) })

abbrev unknown_task : Error
unknown_task = message "unknown task"

-- `AddTask`
unfoldable pub add_task : String → String → Node → Result (Unit {0}) × Node
unfolding execs_of_service
add_task service name n =
    if name =ₛ "all"
    then (ok tt, add_execs service (execs_of_service n service) n)
    else elim (lookup name (execs_of_service n service)) [
      | none ↦ (err unknown_task, n)
      | some execs ↦ (ok tt, record n { tasks = n.tasks ++ (new_task service name execs ∷ []) })
    ]

-- The loop of `MergeTaskWithContext` over the tasks of the configuration context.
unfoldable pub merge_tasks : List Task → Node → Result (Unit {0}) × Node
unfolding execs_of_service
merge_tasks [] n = (ok tt, n)
merge_tasks (t ∷ ts) n = elim (lookup t.task (execs_of_service n t.service)) [
  | none ↦ (err unknown_task, n)
  | some execs ↦ merge_tasks ts (record n { tasks = n.tasks ++ (record t { exec = execs } ∷ []) })
]
