-- ===== src/Clients/Awx/Success.antt =====
-- What AWX has reported where the template ended without an error.
use ironic_temper.Base.{◌≡◌, String, true, false, eq_iff, arith, refl}
use ironic_temper.Go.{Reply, reply, refused, ok, of_reply}
use ironic_temper.Go.Polling.{IsPoll, ReportedTrue, poll-ReportedTrue}
use ironic_temper.Go.Sequence.{>>=-ok}
use ironic_temper.Clients.Awx.{
  AwxApi, AwxAuth, Response, status_of, failed_of, reported, job_is_done, job_url, check_job_status,
  exec_template, exec_templates, ask,
}

module _ {W Raw : Type 0} (api : AwxApi W Raw) (cfg : AwxAuth) where
  -- A response that reports the job as successful and as not failed, as the last thing that was asked.
  pub record Succeeded (job : String) (last : W) : Type 0 where
    pub before : W
    pub response : Response
    pub answered : api.get (job_url api cfg job) before ≡ (reply response, last)
    pub status : status_of api cfg response.body ≡ "successful"
    pub not_failed : failed_of api cfg response.body ≡ false

  reported_success :
      (r : Reply Response)
      → reported api cfg r ≡ reply true
      → (q : Response) × (r ≡ reply q)
        × (status_of api cfg q.body ≡ "successful")
        × (failed_of api cfg q.body ≡ false)
  reported_success (refused e) h = absurd (ground arith)
  reported_success (reply q) h = (
    q,
    refl,
    ground (arith, h, eq_iff (status_of api cfg q.body) "successful"),
    ground (arith, h),
  )

  done-Succeeded :
      (job : String) (w : W)
      → ReportedTrue (job_is_done api cfg (job_url api cfg job)) w
      → Succeeded job w
  unfolding job_is_done
  done-Succeeded job w (s, e) =
      let (q, a, t, f) = reported_success (api.get (job_url api cfg job) s).0 (ground arith) in
      record {
        before = s;
        response = q;
        answered = ground (arith, e, a);
        status = t;
        not_failed = f;
      }

  -- Where the job is polled by `wait.Poll`, templates that end without an error have launched a job,
  -- and the last answer about that job was that it is successful and has not failed.
  pub exec_templates-Succeeded :
      IsPoll api.poll
      → (host : String) (w t : W) → exec_templates api cfg host w ≡ (ok tt, t)
      → (job : String) × (u : W) × (exec_template api cfg
            (record { inventory = 94; limit = host })
            ""
            w
          ≡ (ok job, u))
        × Succeeded job t
  unfolding exec_templates check_job_status
  exec_templates-Succeeded law host w t h =
      let (job, u, e, g) =
        >>=-ok (exec_template api cfg (record { inventory = 94; limit = host }) "")
          (check_job_status api cfg) w t tt h in
      let cond = job_is_done api cfg (job_url api cfg job) in
      let (_, v, _, k) =
        >>=-ok (of_reply (api.new_request (job_url api cfg job)))
          (λ _. ask api cfg (api.poll 5 1200 cond)) u t tt g in
      (job, u, e, done-Succeeded job t (poll-ReportedTrue law 5 1200 cond v t (ground (arith, k))))
