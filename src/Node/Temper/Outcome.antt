-- ===== src/Node/Temper/Outcome.antt =====
-- What `Temper` leaves of a node and of its tasks.
use ironic_temper.Base.{
  ◌≡◌, refl, ◌≢◌, ◌⊎◌, inl, inr, String, Bool, true, false, List, [], ◌∷◌, arith, eq_iff,
}
use ironic_temper.Go.{ok}
use ironic_temper.Node.{Task, TaskExec, Fn, St, Method}
use ironic_temper.Node.Temper.{
  Methods, goes_on, is_last, exec_step, run_execs, run_tasks, task_loop, temper_body, or_failed,
}

-- The two lists have the same length, and `R` holds of the entries at each place.
abbrev pub Each : {A : Type 0} → (A → A → Type 0) → List A → List A → Type 0
Each R [] [] = Unit
Each R [] (y ∷ ys) = ⊥
Each R (x ∷ xs) [] = ⊥
Each R (x ∷ xs) (y ∷ ys) = R x y × Each R xs ys

Each-refl : {A : Type 0} (R : A → A → Type 0) → ((x : A) → R x x) → (xs : List A) → Each R xs xs
Each-refl R r [] = tt
Each-refl R r (x ∷ xs) = (r x, Each-refl R r xs)

pub failed_not_done : ◌≢◌ {A = String} "failed" "done"
failed_not_done = ground (arith, eq_iff "failed" "done")

module _ {W : Type 0} (m : Methods W) where
  -- No function that a task runs writes the node's status.
  abbrev pub RunKeepsStatus : Type 0
  RunKeepsStatus = (f : Fn) (s : St W) → (m.run f s).1.node.status ≡ s.node.status

  -- Nothing of a task is written but its error and its status.
  abbrev pub SameWork : Task → Task → Type 0
  SameWork t t' = (t'.service ≡ t.service) × (t'.task ≡ t.task) × (t'.exec ≡ t.exec)

  exec_step-SameWork :
      (last : Bool) (f : Fn) (t : Task) (s : St W) → SameWork t (exec_step m last f t s).task
  unfolding exec_step
  exec_step-SameWork last f t s = ground arith

  exec_step-status :
      RunKeepsStatus
      → (last : Bool) (f : Fn) (t : Task) (s : St W)
      → let out = exec_step m last f t s in
        ((out.st.node.status ≡ s.node.status) × (out.task.error ≡ t.error))
        ⊎ (out.st.node.status ≡ "failed")
  unfolding exec_step
  exec_step-status k last f t s = ground (arith, k f s)

  exec_step_of_done :
      (last : Bool) (f : Fn) (t : Task) (s : St W)
      → t.status ≡ "done"
      → exec_step m last f t s ≡ record { flow = goes_on; task = t; st = s }
  unfolding exec_step
  exec_step_of_done last f t s h = ground (arith, eq_iff t.status "done")

  run_execs-SameWork :
      (es : List TaskExec) (t : Task) (s : St W) → SameWork t (run_execs m es t s).task
  unfolding run_execs
  run_execs-SameWork [] t s = (refl, refl, refl)
  run_execs-SameWork (e ∷ es) t s =
      let step = exec_step m (is_last es) e.fn t s in
      ground
        (arith, exec_step-SameWork (is_last es) e.fn t s, run_execs-SameWork es step.task step.st)

  -- A task that is done is not run again: none of its functions is called, and nothing changes.
  pub run_execs_of_done :
      (es : List TaskExec) (t : Task) (s : St W)
      → t.status ≡ "done"
      → run_execs m es t s ≡ record { flow = goes_on; task = t; st = s }
  unfolding run_execs
  run_execs_of_done [] t s h = refl
  run_execs_of_done (e ∷ es) t s h =
      ground (arith, exec_step_of_done (is_last es) e.fn t s h, run_execs_of_done es t s h)

  -- Without an error the status and the recorded error stay; with one the node has failed.
  run_execs-status :
      RunKeepsStatus
      → (es : List TaskExec) (t : Task) (s : St W)
      → let out = run_execs m es t s in
        ((out.st.node.status ≡ s.node.status) × (out.task.error ≡ t.error))
        ⊎ (out.st.node.status ≡ "failed")
  unfolding run_execs
  run_execs-status k [] t s = inl (refl, refl)
  run_execs-status k (e ∷ es) t s =
      let step = exec_step m (is_last es) e.fn t s in
      ground
        (arith, exec_step-status k (is_last es) e.fn t s, run_execs-status k es step.task step.st)

  -- After the last function of a task that reported no error, the task is done.
  exec_step-done :
      RunKeepsStatus
      → (f : Fn) (t : Task) (s : St W)
      → let out = exec_step m true f t s in
        out.flow ≡ goes_on → out.st.node.status ≢ "failed" → out.task.status ≡ "done"
  unfolding exec_step
  exec_step-done k f t s g h = ground (arith, eq_iff t.status "done")

  run_execs-done :
      RunKeepsStatus
      → (e : TaskExec) (es : List TaskExec) (t : Task) (s : St W)
      → let out = run_execs m (e ∷ es) t s in
        out.flow ≡ goes_on → out.st.node.status ≢ "failed" → out.task.status ≡ "done"
  unfolding run_execs
  run_execs-done k e [] t s g h = ground (arith, exec_step-done k e.fn t s)
  run_execs-done k e (e' ∷ es) t s g h =
      let step = exec_step m false e.fn t s in
      ground (arith, run_execs-done k e' es step.task step.st)

  run_tasks-SameWork : (ts : List Task) (s : St W) → Each SameWork ts (run_tasks m ts s).tasks
  unfolding run_tasks
  run_tasks-SameWork [] s = tt
  run_tasks-SameWork (t ∷ ts) s =
      let one = run_execs m t.exec t s in
      ground (
        arith,
        run_execs-SameWork t.exec t s,
        run_tasks-SameWork ts one.st,
        Each-refl SameWork (λ x. (refl, refl, refl)) ts,
      )

  abbrev pub SameError : Task → Task → Type 0
  SameError t t' = t'.error ≡ t.error

  -- A task with functions to run is done.
  abbrev pub IsDone : Task → Task → Type 0
  IsDone t t' = (t.exec ≡ []) ⊎ (t'.status ≡ "done")

  run_tasks-status :
      RunKeepsStatus
      → (ts : List Task) (s : St W)
      → let out = run_tasks m ts s in
        ((out.st.node.status ≡ s.node.status) × Each SameError ts out.tasks)
        ⊎ (out.st.node.status ≡ "failed")
  unfolding run_tasks
  run_tasks-status k [] s = inl (refl, tt)
  run_tasks-status k (t ∷ ts) s =
      let one = run_execs m t.exec t s in
      ground (
        arith,
        run_execs-status k t.exec t s,
        run_tasks-status k ts one.st,
        Each-refl SameError (λ x. refl) ts,
      )

  run_execs-IsDone :
      RunKeepsStatus
      → (es : List TaskExec) (t : Task) (s : St W)
      → let out = run_execs m es t s in
        out.flow ≡ goes_on → out.st.node.status ≢ "failed" → (es ≡ []) ⊎ (out.task.status ≡ "done")
  run_execs-IsDone k [] t s g h = inl refl
  run_execs-IsDone k (e ∷ es) t s g h = inr (run_execs-done k e es t s g h)

  -- Where no function of a task writes the node's status, and the loop over the tasks comes to its
  -- end without a failure, every task that has functions is done.
  run_tasks-IsDone :
      RunKeepsStatus
      → (ts : List Task) (s : St W) → (run_tasks m ts s).flow ≡ goes_on
      → (run_tasks m ts s).st.node.status ≢ "failed"
      → Each IsDone ts (run_tasks m ts s).tasks
  unfolding run_tasks
  run_tasks-IsDone k [] s g h = tt
  run_tasks-IsDone k (t ∷ ts) s g h =
      let one = run_execs m t.exec t s in
      ground (
        arith,
        run_execs-IsDone k t.exec t s,
        run_tasks-status k ts one.st,
        run_tasks-IsDone k ts one.st,
      )

  pub task_loop-staged :
      RunKeepsStatus
      → (s : St W) → (task_loop m s).0 ≡ ok tt
      → Each SameWork s.node.tasks (task_loop m s).1.node.tasks
        × (((task_loop m s).1.node.status ≡ "failed")
            ⊎ (((task_loop m s).1.node.status ≡ "staged")
                × Each SameError s.node.tasks (task_loop m s).1.node.tasks))
  unfolding task_loop
  task_loop-staged k s h =
      let ts = s.node.tasks in
      ground (
        arith,
        run_tasks-SameWork ts s,
        run_tasks-status k ts s,
        eq_iff (run_tasks m ts s).st.node.status "failed",
      )

  abbrev pub IsSettled : St W → Type 0
  IsSettled s = (s.node.status ≡ "failed") ⊎ (s.node.status ≡ "staged")

  task_loop-IsSettled : (s : St W) → (task_loop m s).0 ≡ ok tt → IsSettled (task_loop m s).1
  unfolding task_loop
  task_loop-IsSettled s h =
      ground (arith, eq_iff (run_tasks m s.node.tasks s).st.node.status "failed")

  or_failed-IsSettled :
      (call next : Method W (Unit {0}))
      → ((s : St W) → (next s).0 ≡ ok tt → IsSettled (next s).1)
      → (s : St W) → (or_failed m call next s).0 ≡ ok tt
      → IsSettled (or_failed m call next s).1
  or_failed-IsSettled call next h s e = ground (arith, h (call s).1)

  -- The body of a tempering run that does not panic leaves the node failed or staged.
  pub temper_body-IsSettled :
      (s : St W) → (temper_body m s).0 ≡ ok tt → IsSettled (temper_body m s).1
  unfolding temper_body
  temper_body-IsSettled =
      let awaited = or_failed m m.wait_power_state_on (task_loop m) in
      or_failed-IsSettled m.load_infos (or_failed m (m.power false false) awaited) (
        or_failed-IsSettled (m.power false false) awaited
          (or_failed-IsSettled m.wait_power_state_on (task_loop m) task_loop-IsSettled))
