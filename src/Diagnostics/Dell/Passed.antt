-- ===== src/Diagnostics/Dell/Passed.antt =====
-- What the diagnostics of a dell server have seen where they end without an error.
use ironic_temper.Base.{
  ℕ, zero, suc, ◌≡◌, ◌⊎◌, inl, inr, refl, String, Bool, true, false, Option, none, some, [], ◌∷◌,
  All, ◌≤◌, eq_iff, arith,
}
use ironic_temper.Base.Dict.{Dict}
use ironic_temper.Go.{
  Reply, reply, refused, Result, ok, err, panics, Exec, ◌>>=◌, pure, fail, message, branch,
}
use ironic_temper.Go.Polling.{IsPoll, poll-ReportedTrue}
use ironic_temper.Go.Sequence.{>>=-ok}
use ironic_temper.Diagnostics.Dell.Restarts.{Restarts, begins, restarts}
use ironic_temper.Diagnostics.Results.{Results, all_passed}
use ironic_temper.Diagnostics.Dell.{
  DellApi, IdracJob, Waiting, get_diagnostics_result, seen, job_is_over, await_job, start_job,
  judge, one_round, ended, run,
}

all_passed-All : (m : Dict ℕ) → all_passed m ≡ true → All (λ e. 1 ≤ e.1) m
unfolding all_passed
all_passed-All [] h = tt
all_passed-All ((name, i) ∷ rest) h = (ground arith, all_passed-All rest (ground arith))

module _ {W : Type 0} (api : DellApi W) where
  -- A round from the world `begun` to the world `last`, which has passed: the job that it has started
  -- or found, the report that this job is completed, and the results that were read right after it.
  pub record Passed (begun last : W) : Type 0 where
    pub id : String
    pub with_job : W
    pub before : W
    pub job : IdracJob
    pub after : W
    pub results : Results
    pub started : start_job api begun ≡ (ok id, with_job)
    pub waited : await_job api id with_job ≡ (ok false, after)
    pub reported : api.job id before ≡ (reply job, after)
    pub completed : job.job_state ≡ "Completed"
    pub read : get_diagnostics_result api after ≡ (ok results, last)
    pub grades : All (λ e. 1 ≤ e.1) results.results

  seen_completed :
      (j : Reply IdracJob) (failed : Bool)
      → seen api j failed ≡ (reply true, false)
      → (k : IdracJob) × (j ≡ reply k) × (k.job_state ≡ "Completed")
  seen_completed (refused e) failed h = absurd (ground arith)
  seen_completed (reply k) failed h = (k, refl, ground (arith, eq_iff k.job_state "Completed"))

  -- A job that is over and was started was reported as completed.
  over_completed :
      (id : String) (s t : Waiting W)
      → job_is_over api id s ≡ (reply true, t)
      → t.job_start_failed ≡ false
      → (k : IdracJob) × (api.job id s.world ≡ (reply k, t.world)) × (k.job_state ≡ "Completed")
  unfolding job_is_over
  over_completed id s t h f =
      let (k, e, c) =
        seen_completed (api.job id s.world).0 s.job_start_failed (ground (arith, h, f)) in
      (k, ground (arith, h, e), c)

  Waited : String → W → Type 0
  Waited id w =
      (s : W) × (k : IdracJob) × (api.job id s ≡ (reply k, w)) × (k.job_state ≡ "Completed")

  awaited :
      IsPoll api.poll → (id : String) (w t : W) → await_job api id w ≡ (ok false, t) → Waited id t
  unfolding Waited
  awaited law id w t h = answered polled.0 refl
    where
      start : Waiting W
      start = record { job_start_failed = false; world = w }

      polled : Reply (Unit {0}) × Waiting W
      polled = api.poll 60 14400 (job_is_over api id) start

      answered : (r : Reply (Unit {0})) → polled.0 ≡ r → Waited id t
      answered (refused e) p = absurd (ground (arith, h, p))
      answered (reply u) p =
          let (s, e) =
            poll-ReportedTrue law 60 14400 (job_is_over api id) start polled.1
              (ground (arith, p)) in
          let (k, a, c) = over_completed id s polled.1 e (ground (arith, h, p)) in
          (s.world, k, ground (arith, a, h, p), c)

  judged :
      (w t : W)
      → judge api w ≡ (ok false, t)
      → (r : Results) × (get_diagnostics_result api w ≡ (ok r, t)) × All (λ e. 1 ≤ e.1) r.results
  unfolding judge
  judged w t h =
      let (r, u, e, g) =
        >>=-ok (get_diagnostics_result api)
          (λ r.
            branch (all_passed r.results) (pure false)
              (fail (message "diagnostic tests did not pass")))
          w t false h in
      (r, ground (arith, e, g), all_passed-All r.results (ground (arith, g)))

  passed :
      IsPoll api.poll
      → (id : String) (failed : Bool) (w u v t : W) → start_job api w ≡ (ok id, u)
      → await_job api id u ≡ (ok failed, v)
      → branch failed (pure true) (judge api) v ≡ (ok false, t)
      → Passed w t
  unfolding Waited
  passed law id true w u v t s a h = absurd (ground arith)
  passed law id false w u v t s a h =
      let (x, k, r, c) = awaited law id u v a in
      let (res, e, g) = judged v t h in
      record {
        id = id;
        with_job = u;
        before = x;
        job = k;
        after = v;
        results = res;
        started = s;
        waited = a;
        reported = r;
        completed = c;
        read = e;
        grades = g;
      }

  round-Passed : IsPoll api.poll → (w t : W) → one_round api w ≡ (ok false, t) → Passed w t
  unfolding one_round
  round-Passed law w t h =
      let wait : String → Exec W Bool =
        λ id. await_job api id >>= λ failed. branch failed (pure true) (judge api) in
      let (id, u, s, g) = >>=-ok (start_job api) wait w t false h in
      let (failed, v, e, j) =
        >>=-ok (await_job api id) (λ failed. branch failed (pure true) (judge api)) u t false g in
      passed law id failed w u v t s e j

  ended_ok :
      (out : Result Bool × W) (again : Option (Result (Unit {0}) × W)) (x : W)
      → ended api out again ≡ some (ok tt, x)
      → (out.0 ≡ ok false) ⊎ ((out.0 ≡ ok true) × ((y : W) × (again ≡ some (ok tt, y))))
  ended_ok (ok true, w) none x h = absurd (ground arith)
  ended_ok (ok true, w) (some (ok u, y)) x h = inr (refl, (y, refl))
  ended_ok (ok true, w) (some (err e, y)) x h = absurd (ground arith)
  ended_ok (ok true, w) (some (panics p, y)) x h = absurd (ground arith)
  ended_ok (ok false, w) again x h = inl refl
  ended_ok (err e, w) again x h = absurd (ground arith)
  ended_ok (panics p, w) again x h = absurd (ground arith)

  -- A run with `rounds` rounds whose job could not be started, and then a round that has passed.
  pub record PassedRun (w : W) : Type 0 where
    pub rounds : ℕ
    pub begun : W
    pub connected : W
    pub last : W
    pub again : Restarts api rounds w begun
    pub connects : api.connect begun ≡ (reply tt, connected)
    pub passes : Passed connected last

  one_more :
      (w u v : W)
      → api.connect w ≡ (reply tt, u)
      → one_round api u ≡ (ok true, v)
      → PassedRun v
      → PassedRun w
  one_more w u v c o p = record {
    rounds = suc p.rounds;
    begun = p.begun;
    connected = p.connected;
    last = p.last;
    again = restarts p.rounds w u v p.begun c o p.again;
    connects = p.connects;
    passes = p.passes;
  }

  -- Where the job is polled by `wait.Poll`, a `Run` that ends without an error has, behind some number
  -- of rounds whose job could not be started, a round that passed: the job that it started or found
  -- running was reported as completed, and no result that was read next has a grade below one, that
  -- of a warning.
  pub run-PassedRun :
      IsPoll api.poll → (fuel : ℕ) (w x : W) → run api fuel w ≡ some (ok tt, x) → PassedRun w
  unfolding run
  run-PassedRun law zero w x h = absurd (ground arith)
  run-PassedRun law (suc fuel) w x h =
      behind (api.connect w).0 refl (run-PassedRun law fuel (one_round api (api.connect w).1).1)
    where
      u : W
      u = (api.connect w).1

      v : W
      v = (one_round api u).1

      behind :
          (r : Reply (Unit {0}))
          → (api.connect w).0 ≡ r
          → ((y : W) → run api fuel v ≡ some (ok tt, y) → PassedRun v)
          → PassedRun w
      behind (refused e) c rest = absurd (ground arith)
      behind (reply a) c rest =
          elim (ended_ok (one_round api u) (run api fuel v) x (ground (arith, h, c))) [
            | inl e ↦ record {
              rounds = 0;
              begun = w;
              connected = u;
              last = v;
              again = begins w;
              connects = ground (arith, c);
              passes = round-Passed law u v (ground (arith, e));
            }
            | inr e ↦ one_more w u v (ground (arith, c)) (ground (arith, e)) (rest e.1.0 e.1.1)
          ]
