-- ===== src/Node/Temper/Failing.antt =====
-- What a failing function leaves of its task.
use ironic_temper.Base.{◌≡◌, refl, ◌≢◌, Bool, true, false, [], ◌∷◌, arith, eq_iff}
use ironic_temper.Go.{Error, already_exists, error_text, ok, err}
use ironic_temper.Node.{Task, TaskExec, Fn, St}
use ironic_temper.Node.Temper.{Methods, goes_on, set_status_to, exec_step, run_execs}
use ironic_temper.Node.Temper.Outcome.{failed_not_done}

module _ {W : Type 0} (m : Methods W) where
  exec_step_failed :
      (last : Bool) (f : Fn) (t : Task) (s s' : St W) (e : Error)
      → t.status ≢ "done"
      → e ≢ already_exists
      → m.run f s ≡ (err e, s')
      → exec_step m last f t s ≡ record {
        flow = goes_on;
        task = record t { error = error_text e; status = "failed" };
        st = set_status_to "failed" s';
      }
  unfolding exec_step
  exec_step_failed last f t s s' e fresh other h = ground (arith, eq_iff t.status "done")

  exec_step_succeeded :
      (f : Fn) (t : Task) (s s' : St W)
      → t.status ≡ "failed"
      → m.run f s ≡ (ok tt, s')
      → exec_step m true f t s
        ≡ record { flow = goes_on; task = record t { status = "done" }; st = s' }
  unfolding exec_step
  exec_step_succeeded f t s s' failed h = ground (arith, eq_iff t.status "done", failed_not_done)

  -- A task of two functions that is not done ends as done, with the error text of a failure, where
  -- its first function fails with another error than AlreadyExists and its second does not fail.
  pub done_despite_error :
      (f g : TaskExec) (t : Task) (s s' s'' : St W) (e : Error)
      → t.status ≢ "done"
      → e ≢ already_exists
      → m.run f.fn s ≡ (err e, s')
      → m.run g.fn (set_status_to "failed" s') ≡ (ok tt, s'')
      → run_execs m (f ∷ g ∷ []) t s ≡ record {
        flow = goes_on;
        task = record t { error = error_text e; status = "done" };
        st = s'';
      }
  unfolding run_execs
  done_despite_error f g t s s' s'' e fresh other first second =
      let t' : Task = record t { error = error_text e; status = "failed" } in
      ground (
        arith,
        exec_step_failed false f.fn t s s' e fresh other first,
        exec_step_succeeded g.fn t' (set_status_to "failed" s') s'' refl second,
      )
