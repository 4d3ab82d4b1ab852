-- ===== src/Node/Temper/Cleanup.antt =====
-- What the deferred function of `Temper` adds: the node's last status, and the wait group.
use ironic_temper.Base.{ℕ, suc, ◌≡◌, refl, ◌⊎◌, inl, inr, String, Bool, true, false, arith, List}
use ironic_temper.Go.{Result, ok, err, panics, continue, ◌>>◌}
use ironic_temper.Node.{Task, St, Method}
use ironic_temper.Node.Temper.{
  Methods, Flow, goes_on, breaks, panicking, run_tasks, conclude, temper_body, logged,
  drop_instance, drop_node, cleanup_handler, recovered, finished, temper, or_failed, task_loop,
}
use ironic_temper.Node.Temper.Outcome.{IsSettled, temper_body-IsSettled}

-- A method that leaves the node's status alone, however it ends.
abbrev pub KeepsStatus : {W : Type 0} → Method W (Unit {0}) → Type 0
KeepsStatus {W} call = (s : St W) → (call s).1.node.status ≡ s.node.status

-- A method that returns or panics, and never returns an error.
abbrev pub IsNoErr : {A : Type 0} → Result A → Type 0
IsNoErr (err e) = ⊥
IsNoErr _ = Unit

abbrev pub NoError : {W : Type 0} → Method W (Unit {0}) → Type 0
NoError {W} call = (s : St W) → IsNoErr (call s).0

module _ {W : Type 0} (m : Methods W) where
  -- The three calls of the clean-up leave the status alone.
  pub record CleanupKeepsStatus : Type 0 where
    pub instance_keeps : KeepsStatus m.delete_test_instance
    pub node_keeps : KeepsStatus m.delete_node
    pub status_keeps : KeepsStatus m.set_status

  logged-KeepsStatus :
      (b : Bool) (call : Method W (Unit {0})) → KeepsStatus call → KeepsStatus (logged m b call)
  logged-KeepsStatus b call k s = ground (arith, k s)

  >>-KeepsStatus :
      (first second : Method W (Unit {0}))
      → KeepsStatus first
      → KeepsStatus second
      → KeepsStatus (first >> second)
  >>-KeepsStatus first second k l s = ground (arith, k s, l (first s).1)

  logged-NoError : (b : Bool) (call : Method W (Unit {0})) → NoError (logged m b call)
  logged-NoError true call s = returns_or_panics (call s).0 (call s).1
    where
      returns_or_panics :
          (r : Result (Unit {0})) (t : St W) → IsNoErr (logged m true (λ _. (r, t)) s).0
      returns_or_panics (ok u) t = tt
      returns_or_panics (err e) t = tt
      returns_or_panics (panics p) t = tt
  logged-NoError false call s = tt

  >>-NoError :
      (first second : Method W (Unit {0}))
      → NoError first
      → NoError second
      → NoError (first >> second)
  >>-NoError first second k l s = both (first s).0 (first s).1 (k s)
    where
      both : (r : Result (Unit {0})) (t : St W) → IsNoErr r → IsNoErr (continue r (λ _. second) t).0
      both (ok u) t h = l t
      both (err e) t h = h
      both (panics p) t h = h

  cleanup-KeepsStatus : CleanupKeepsStatus → (b : Bool) → KeepsStatus (cleanup_handler m b)
  unfolding cleanup_handler
  cleanup-KeepsStatus k b =
      >>-KeepsStatus (drop_instance m) (drop_node m >> logged m b m.set_status)
        (λ s. logged-KeepsStatus _ m.delete_test_instance k.instance_keeps s)
        (>>-KeepsStatus (drop_node m) (logged m b m.set_status)
          (λ s. logged-KeepsStatus _ m.delete_node k.node_keeps s)
          (logged-KeepsStatus b m.set_status k.status_keeps))

  cleanup-NoError : (b : Bool) → NoError (cleanup_handler m b)
  unfolding cleanup_handler
  cleanup-NoError b =
      >>-NoError (drop_instance m) (drop_node m >> logged m b m.set_status)
        (λ s. logged-NoError _ m.delete_test_instance s)
        (>>-NoError (drop_node m) (logged m b m.set_status) (λ s. logged-NoError _ m.delete_node s)
          (logged-NoError b m.set_status))

  or_failed-NoError :
      (call next : Method W (Unit {0})) → NoError next → NoError (or_failed m call next)
  or_failed-NoError call next k s = after (call s).0 (call s).1
    where
      after : (r : Result (Unit {0})) (t : St W) → IsNoErr (or_failed m (λ _. (r, t)) next s).0
      after (ok u) t = k t
      after (err e) t = tt
      after (panics p) t = tt

  task_loop-NoError : NoError (task_loop m)
  unfolding task_loop
  task_loop-NoError s = of_flow (run_tasks m s.node.tasks s)
    where
      of_flow :
          (out : record { flow : Flow; tasks : List Task; st : St W }) → IsNoErr (conclude m out).0
      of_flow out = elim (out.flow) as (λ f. IsNoErr (conclude m (record out { flow = f })).0) [
        | goes_on ↦ tt
        | breaks ↦ tt
        | panicking p ↦ tt
      ]

  pub body-NoError : NoError (temper_body m)
  unfolding temper_body
  body-NoError =
      let awaited = or_failed m m.wait_power_state_on (task_loop m) in
      or_failed-NoError m.load_infos (or_failed m (m.power false false) awaited) (
        or_failed-NoError (m.power false false) awaited
          (or_failed-NoError m.wait_power_state_on (task_loop m) task_loop-NoError))

  -- However a run ends, with a panic of a task or of the clean-up too, the node's last status is
  -- "failed" or "staged", if the calls of the clean-up leave the status alone.
  pub temper-IsSettled :
      CleanupKeepsStatus
      → (netbox_sts : Bool) (wg : ℕ) (s : St W) → IsSettled m (temper m netbox_sts wg s).1
  unfolding temper
  temper-IsSettled k netbox_sts wg s =
      let (r, t) = temper_body m s in
      ground (
        arith,
        temper_body-IsSettled m s,
        body-NoError s,
        cleanup-KeepsStatus k netbox_sts (recovered r t),
      )

  -- If the calls of the clean-up leave the status alone, a run whose body panics ends with a failed
  -- node.
  temper_panicked :
      CleanupKeepsStatus
      → (netbox_sts : Bool) (wg : ℕ) (s : St W) (p : String) → (temper_body m s).0 ≡ panics p
      → (temper m netbox_sts wg s).1.node.status ≡ "failed"
  unfolding temper
  temper_panicked k netbox_sts wg s p h =
      let (r, t) = temper_body m s in
      ground (arith, cleanup-KeepsStatus k netbox_sts (recovered r t))

  -- A run with a wait group that counts at least one takes one from its counter, or ends in a
  -- panic.
  pub temper-done :
      (netbox_sts : Bool) (wg : ℕ) (s : St W)
      → ((temper m netbox_sts (suc wg) s).0 ≡ ok wg)
        ⊎ ((p : String) × ((temper m netbox_sts (suc wg) s).0 ≡ panics p))
  unfolding temper
  temper-done netbox_sts wg s =
      let (r, t) = temper_body m s in
      settled (cleanup_handler m netbox_sts (recovered r t)).0
        (cleanup-NoError netbox_sts (recovered r t))
    where
      settled :
          (c : Result (Unit {0}))
          → IsNoErr c
          → (finished c (suc wg) ≡ ok wg) ⊎ ((p : String) × (finished c (suc wg) ≡ panics p))
      settled (ok u) h = inl refl
      settled (err e) h = absurd h
      settled (panics p) h = inr (p, refl)

  -- With a wait group that counts nothing, every run ends in a panic.
  pub temper_at_zero :
      (netbox_sts : Bool) (s : St W) → (p : String) × ((temper m netbox_sts 0 s).0 ≡ panics p)
  unfolding temper
  temper_at_zero netbox_sts s =
      let (r, t) = temper_body m s in
      failing (cleanup_handler m netbox_sts (recovered r t)).0
        (cleanup-NoError netbox_sts (recovered r t))
    where
      failing : (c : Result (Unit {0})) → IsNoErr c → (p : String) × (finished c 0 ≡ panics p)
      failing (ok u) h = ("sync: negative WaitGroup counter", refl)
      failing (err e) h = absurd h
      failing (panics p) h = (p, refl)
