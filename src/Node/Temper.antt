-- ===== src/Node/Temper.antt =====
-- `Temper`, `cleanupHandler` and their helpers of pkg/node/node.go, over the methods that they
-- call. `Node.Methods` fills these in with the program's own.
pub mod Outcome
pub mod Failing
pub mod Cleanup
pub mod Clean
use ironic_temper.Base.{
  ℕ, zero, suc, String, Bool, true, false, not, List, [], ◌∷◌, if◌then◌else◌, ◌=ₛ◌,
}
use ironic_temper.Go.{Error, already_exists, error_text, Result, ok, err, panics, ◌>>=◌, ◌>>◌}
use ironic_temper.Node.{Node, Task, TaskExec, Fn, St, Method}
use ironic_temper.Text.{is_empty}

-- The methods of `*Node` that `Temper` calls.
pub record Methods (W : Type 0) : Type 0 where
  pub load_infos : Method W (Unit {0})
  pub power : Bool → Bool → Method W (Unit {0})
  pub wait_power_state_on : Method W (Unit {0})
  pub run : Fn → Method W (Unit {0})
  pub delete_test_instance : Method W (Unit {0})
  pub delete_node : Method W (Unit {0})
  pub set_status : Method W (Unit {0})

-- How the body of the loop over the tasks ends: it goes on, leaves by `break TasksLoop`, or panics.
pub data Flow : Type 0 where
  goes_on breaks : Flow
  panicking : String → Flow

abbrev pub set_status_to : {W : Type 0} → String → St W → St W
set_status_to status s = record s { node = record s.node { status = status } }

abbrev is_last : {A : Type 0} → List A → Bool
is_last [] = true
is_last (x ∷ xs) = false

module _ {W : Type 0} where
  -- What is done with the result of `exec.Fn()`.
  abbrev pub after_exec :
      Bool → Task → Result (Unit {0}) → St W → record { flow : Flow; task : Task; st : St W }
  after_exec last t (ok u) s = record {
    flow = goes_on;
    task = if last then record t { status = "done" } else t;
    st = s;
  }
  after_exec last t (err already_exists) s = record { flow = breaks; task = t; st = s }
  after_exec last t (err e) s = record {
    flow = goes_on;
    task = record t { error = error_text e; status = "failed" };
    st = set_status_to "failed" s;
  }
  after_exec last t (panics m) s = record { flow = panicking m; task = t; st = s }

module _ {W : Type 0} (m : Methods W) where
  -- One round of `for i, exec := range t.Exec`.
  unfoldable pub exec_step :
      Bool → Fn → Task → St W → record { flow : Flow; task : Task; st : St W }
  exec_step last fn t s =
      if t.status =ₛ "done"
      then record { flow = goes_on; task = t; st = s }
      else let (r, s') = m.run fn s in after_exec last t r s'

  unfoldable pub run_execs :
      List TaskExec → Task → St W → record { flow : Flow; task : Task; st : St W }
  run_execs [] t s = record { flow = goes_on; task = t; st = s }
  run_execs (e ∷ es) t s =
      let step = exec_step (is_last es) e.fn t s in
      elim (step.flow) [
        | goes_on ↦ run_execs es step.task step.st
        | breaks ↦ step
        | panicking p ↦ step
      ]

  -- `for _, t := range n.Tasks`: the tasks as the loop leaves them.
  unfoldable pub run_tasks : List Task → St W → record { flow : Flow; tasks : List Task; st : St W }
  unfolding run_execs exec_step
  run_tasks [] s = record { flow = goes_on; tasks = []; st = s }
  run_tasks (t ∷ ts) s =
      let one = run_execs t.exec t s in
      elim (one.flow) [
        | goes_on ↦
            let rest = run_tasks ts one.st in
            record { flow = rest.flow; tasks = one.task ∷ rest.tasks; st = rest.st }
        | breaks ↦ record { flow = breaks; tasks = one.task ∷ ts; st = one.st }
        | panicking p ↦ record { flow = panicking p; tasks = one.task ∷ ts; st = one.st }
      ]

  -- After the loop: `if n.Status != "failed" { n.Status = "staged" }`.
  abbrev finish : St W → St W
  finish s = if s.node.status =ₛ "failed" then s else set_status_to "staged" s

  abbrev conclude : record { flow : Flow; tasks : List Task; st : St W } → Result (Unit {0}) × St W
  conclude out = elim (out.flow) [
    | goes_on ↦ (ok tt, finish (record out.st { node = record out.st.node { tasks = out.tasks } }))
    | breaks ↦ (ok tt, finish (record out.st { node = record out.st.node { tasks = out.tasks } }))
    | panicking p ↦ (panics p, record out.st { node = record out.st.node { tasks = out.tasks } })
  ]

  unfoldable pub task_loop : Method W (Unit {0})
  task_loop s = conclude (run_tasks s.node.tasks s)

  -- `if err := m(); err != nil { n.Status = "failed"; return }`, and the rest.
  abbrev or_failed : Method W (Unit {0}) → Method W (Unit {0}) → Method W (Unit {0})
  or_failed call next s =
      let (r, s') = call s in
      elim r [
        | ok u ↦ next s'
        | err e ↦ (ok tt, set_status_to "failed" s')
        | panics p ↦ (panics p, s')
      ]

  -- `Temper` up to its deferred function.
  unfoldable pub temper_body : Method W (Unit {0})
  temper_body =
      or_failed m.load_infos
        (or_failed (m.power false false) (or_failed m.wait_power_state_on task_loop))

  -- An error of the call is logged and dropped.
  abbrev logged : Bool → Method W (Unit {0}) → Method W (Unit {0})
  logged false call s = (ok tt, s)
  logged true call s =
      let (r, s') = call s in
      elim r [ ok u ↦ (ok tt, s') | err e ↦ (ok tt, s') | panics p ↦ (panics p, s') ]

  abbrev drop_instance : Method W (Unit {0})
  drop_instance s = logged (not (is_empty s.node.instance_uuid)) m.delete_test_instance s

  abbrev drop_node : Method W (Unit {0})
  drop_node s = logged (s.node.status =ₛ "failed") m.delete_node s

  -- `cleanupHandler`
  unfoldable pub cleanup_handler : Bool → Method W (Unit {0})
  cleanup_handler netbox_sts = do drop_instance; drop_node; logged netbox_sts m.set_status

-- `wg.Done()` of a `sync.WaitGroup`, which panics at zero.
abbrev pub done : ℕ → Result ℕ
done zero = panics "sync: negative WaitGroup counter"
done (suc k) = ok k

abbrev recovered : {W : Type 0} → Result (Unit {0}) → St W → St W
recovered (panics p) s = set_status_to "failed" s
recovered _ s = s

-- How the deferred function ends: with `wg.Done()`, if the clean-up did not panic.
abbrev pub finished : Result (Unit {0}) → ℕ → Result ℕ
finished (ok u) wg = done wg
finished (err e) wg = err e
finished (panics p) wg = panics p

-- `Temper`, with the counter of its wait group: the body, then the deferred function, whose own
-- panics nothing recovers.
unfoldable pub temper : {W : Type 0} → Methods W → Bool → ℕ → St W → Result ℕ × St W
temper m netbox_sts wg s =
    let (r, s') = temper_body m s in
    let (c, s'') = cleanup_handler m netbox_sts (recovered r s') in (finished c wg, s'')
