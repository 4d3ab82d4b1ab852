-- ===== src/Node/Temper/Clean.antt =====
-- What a node that ends as staged tells about its run.
use ironic_temper.Base.{ℕ, ◌≡◌, ◌≢◌, ◌⊎◌, String, Bool, false, arith, eq_iff}
use ironic_temper.Go.{ok, ◌>>◌}
use ironic_temper.Node.{St, Method}
use ironic_temper.Node.Keeps.{Keeps, seq-Keeps}
use ironic_temper.Node.Temper.{
  Methods, or_failed, task_loop, temper_body, logged, drop_instance, drop_node, cleanup_handler,
  recovered, temper,
}
use ironic_temper.Node.Temper.Cleanup.{body-NoError}
use ironic_temper.Node.Temper.Outcome.{Each, SameError, RunKeepsStatus, task_loop-staged}

failed_not_staged : ◌≢◌ {A = String} "failed" "staged"
failed_not_staged = ground (arith, eq_iff "failed" "staged")

module _ {W : Type 0} (m : Methods W) where
  -- The tasks write no status; what runs before them and after them writes neither status nor tasks.
  pub record IsTidy : Type 0 where
    pub tasks_keep : RunKeepsStatus m
    pub load_keeps : Keeps m.load_infos
    pub power_keeps : Keeps (m.power false false)
    pub wait_keeps : Keeps m.wait_power_state_on
    pub instance_keeps : Keeps m.delete_test_instance
    pub node_keeps : Keeps m.delete_node
    pub status_keeps : Keeps m.set_status

  -- The method fails the node, or leaves the errors of its tasks as they were.
  abbrev Clean : Method W (Unit {0}) → Type 0
  Clean call =
      (s : St W)
      → (call s).0 ≡ ok tt
      → ((call s).1.node.status ≡ "failed") ⊎ Each (SameError m) s.node.tasks (call s).1.node.tasks

  task_loop-Clean : RunKeepsStatus m → Clean (task_loop m)
  task_loop-Clean k s h = ground (arith, task_loop-staged m k s h)

  or_failed-Clean :
      (call next : Method W (Unit {0})) → Keeps call → Clean next → Clean (or_failed m call next)
  or_failed-Clean call next k c s h = ground (arith, k.tasks s, c (call s).1)

  temper_body-Clean : IsTidy → Clean (temper_body m)
  unfolding temper_body
  temper_body-Clean t =
      let awaited = or_failed m m.wait_power_state_on (task_loop m) in
      or_failed-Clean m.load_infos (or_failed m (m.power false false) awaited) t.load_keeps (
        or_failed-Clean (m.power false false) awaited t.power_keeps (
          or_failed-Clean m.wait_power_state_on (task_loop m) t.wait_keeps
            (task_loop-Clean t.tasks_keep)))

  logged-Keeps : (b : Bool) (call : Method W (Unit {0})) → Keeps call → Keeps (logged m b call)
  logged-Keeps b call k = record {
    status = λ s. ground (arith, k.status s);
    tasks = λ s. ground (arith, k.tasks s);
  }

  cleanup-Keeps : IsTidy → (b : Bool) → Keeps (cleanup_handler m b)
  unfolding cleanup_handler
  cleanup-Keeps t b =
      seq-Keeps (drop_instance m) (drop_node m >> logged m b m.set_status)
        (record {
          status = λ s. (logged-Keeps _ m.delete_test_instance t.instance_keeps).status s;
          tasks = λ s. (logged-Keeps _ m.delete_test_instance t.instance_keeps).tasks s;
        })
        (seq-Keeps (drop_node m) (logged m b m.set_status)
          (record {
            status = λ s. (logged-Keeps _ m.delete_node t.node_keeps).status s;
            tasks = λ s. (logged-Keeps _ m.delete_node t.node_keeps).tasks s;
          })
          (logged-Keeps b m.set_status t.status_keeps))

  -- Where the tasks write no status, and what runs before and after them writes neither the status
  -- nor the tasks: a node that ends a run as staged has no task with another error text than before
  -- the run.
  pub temper_staged :
      IsTidy
      → (netbox_sts : Bool) (wg : ℕ) (s : St W)
      → (temper m netbox_sts wg s).1.node.status ≡ "staged"
      → Each (SameError m) s.node.tasks (temper m netbox_sts wg s).1.node.tasks
  unfolding temper
  temper_staged t netbox_sts wg s h =
      let (r, s') = temper_body m s in
      let kept = cleanup-Keeps t netbox_sts in
      ground (
        arith,
        temper_body-Clean t s,
        body-NoError m s,
        kept.status (recovered r s'),
        kept.tasks (recovered r s'),
        failed_not_staged,
      )
