-- ===== src/Diagnostics/Dell/Unended.antt =====
-- The diagnostics of a dell server that do not end.
use ironic_temper.Base.{ℕ, zero, suc, ◌≡◌, refl, String, Bool, true, false, none, eq_iff, arith}
use ironic_temper.Go.{Reply, reply, refused, Exec, ◌>>=◌, pure, fail, message, branch, ok}
use ironic_temper.Go.Polling.{IsPoll, poll-Held}
use ironic_temper.Go.Sequence.{>>=-ok}
use ironic_temper.Diagnostics.Results.{all_passed}
use ironic_temper.Diagnostics.Dell.Restarts.{Restarts, begins, restarts, run_none}
use ironic_temper.Diagnostics.Dell.{
  DellApi, IdracJob, Waiting, get_diagnostics_result, seen, job_is_over, await_job, start_job,
  judge, one_round, run,
}

module _ {W : Type 0} (api : DellApi W) where
  -- A round between two worlds, whose job, started or found, was last reported without a state.
  pub record Stateless (begun last : W) : Type 0 where
    pub id : String
    pub with_job : W
    pub before : W
    pub job : IdracJob
    pub started : start_job api begun ≡ (ok id, with_job)
    pub reported : api.job id before ≡ (reply job, last)
    pub no_state : job.job_state ≡ ""

  -- `k` rounds in a row, each of which connects.
  pub data Rounds : ℕ → W → W → Type 0 where
    no_round : (w : W) → Rounds zero w w
    one_more :
        (k : ℕ) (w u v x : W)
        → api.connect w ≡ (reply tt, u)
        → Stateless u v
        → Rounds k v x
        → Rounds (suc k) w x

  seen_no_state :
      (j : Reply IdracJob)
      → seen api j false ≡ (reply true, true)
      → (k : IdracJob) × (j ≡ reply k) × (k.job_state ≡ "")
  seen_no_state (refused e) h = absurd (ground arith)
  seen_no_state (reply k) h = (k, refl, ground (arith, eq_iff k.job_state ""))

  seen_goes_on :
      (j : Reply IdracJob) (failed : Bool)
      → (seen api j failed).0 ≡ reply false
      → (seen api j failed).1 ≡ failed
  seen_goes_on (refused e) failed h = refl
  seen_goes_on (reply k) failed h = ground arith

  goes_on :
      (id : String) (s t : Waiting W)
      → s.job_start_failed ≡ false
      → job_is_over api id s ≡ (reply false, t)
      → t.job_start_failed ≡ false
  unfolding job_is_over
  goes_on id s t f h =
      ground
        (arith, f, h, seen_goes_on (api.job id s.world).0 s.job_start_failed (ground (arith, h)))

  over_no_state :
      (id : String) (s t : Waiting W)
      → s.job_start_failed ≡ false
      → job_is_over api id s ≡ (reply true, t)
      → t.job_start_failed ≡ true
      → (k : IdracJob) × (api.job id s.world ≡ (reply k, t.world)) × (k.job_state ≡ "")
  unfolding job_is_over
  over_no_state id s t f h g =
      let (k, e, c) = seen_no_state (api.job id s.world).0 (ground (arith, f, h, g)) in
      (k, ground (arith, h, e), c)

  Unknown : String → W → Type 0
  Unknown id w = (s : W) × (k : IdracJob) × (api.job id s ≡ (reply k, w)) × (k.job_state ≡ "")

  awaited :
      IsPoll api.poll → (id : String) (w t : W) → await_job api id w ≡ (ok true, t) → Unknown id t
  unfolding Unknown
  awaited law id w t h = answered polled.0 refl
    where
      start : Waiting W
      start = record { job_start_failed = false; world = w }

      polled : Reply (Unit {0}) × Waiting W
      polled = api.poll 60 14400 (job_is_over api id) start

      answered : (r : Reply (Unit {0})) → polled.0 ≡ r → Unknown id t
      answered (refused e) p = absurd (ground (arith, h, p))
      answered (reply u) p =
          let (s, f, e) =
            poll-Held (λ s. s.job_start_failed ≡ false) law 60 14400 (job_is_over api id) start
              polled.1 (goes_on id) refl (ground (arith, p)) in
          let (k, a, c) = over_no_state id s polled.1 f e (ground (arith, h, p)) in
          (s.world, k, ground (arith, a, h, p), c)

  -- The judgement never asks for another round.
  judge_ends : (w t : W) → judge api w ≡ (ok true, t) → ⊥
  unfolding judge
  judge_ends w t h =
      let (r, u, e, g) =
        >>=-ok (get_diagnostics_result api)
          (λ r.
            branch (all_passed r.results) (pure false)
              (fail (message "diagnostic tests did not pass")))
          w t true h in
      ground (arith, g)

  stateless :
      IsPoll api.poll
      → (id : String) (failed : Bool) (w u v t : W) → start_job api w ≡ (ok id, u)
      → await_job api id u ≡ (ok failed, v)
      → branch failed (pure true) (judge api) v ≡ (ok true, t)
      → Stateless w t
  unfolding Unknown
  stateless law id false w u v t s a h = absurd (judge_ends v t h)
  stateless law id true w u v t s a h =
      let (x, k, r, c) = awaited law id u v a in
      record {
        id = id;
        with_job = u;
        before = x;
        job = k;
        started = s;
        reported = ground (arith, r, h);
        no_state = c;
      }

  round-Stateless : IsPoll api.poll → (w t : W) → one_round api w ≡ (ok true, t) → Stateless w t
  unfolding one_round
  round-Stateless law w t h =
      let wait : String → Exec W Bool =
        λ id. await_job api id >>= λ failed. branch failed (pure true) (judge api) in
      let (id, u, s, g) = >>=-ok (start_job api) wait w t true h in
      let (failed, v, e, j) =
        >>=-ok (await_job api id) (λ failed. branch failed (pure true) (judge api)) u t true g in
      stateless law id failed w u v t s e j

  Restarts-Rounds : IsPoll api.poll → (k : ℕ) (w x : W) → Restarts api k w x → Rounds k w x
  Restarts-Rounds law _ w x (begins _) = no_round w
  Restarts-Rounds law _ w x (restarts k _ u v _ c o r) =
      one_more k w u v x c (round-Stateless law u v o) (Restarts-Rounds law k v x r)

  -- Where the job is polled by `wait.Poll`: if `Run` has not ended within a number of rounds, each of
  -- these rounds connected, started or found a job, and was last told, of the job with this id, a state
  -- that is empty.
  pub run_unended :
      IsPoll api.poll → (fuel : ℕ) (w : W) → run api fuel w ≡ none → (x : W) × Rounds fuel w x
  run_unended law fuel w h =
      let (x, r) = run_none api fuel w h in (x, Restarts-Rounds law fuel w x r)
