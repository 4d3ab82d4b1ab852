-- ===== src/Diagnostics/Dell.antt =====
-- pkg/diagnostics/dell.go: the remote diagnostics of a dell server. Its requests are parameters.
pub mod Restarts
pub mod Passed
pub mod Unended
use ironic_temper.Base.{
  ℕ, zero, suc, String, ◌<>◌, Bool, true, false, ◌&&◌, not, Option, none, some, List, [], ◌∷◌,
  last_or, ◌==◌, ◌=ₛ◌, ltb, leb, if◌then◌else◌,
}
use ironic_temper.Base.Dict.{Dict, lookup, insert}
use ironic_temper.Go.{
  Error, message, error_text, Reply, reply, refused, Result, ok, err, panics, Exec, Call, ◌>>=◌,
  ◌>>◌, pure, fail, panic, inspect, of_reply, branch, gets, modify, at_index,
}
use ironic_temper.Go.Polling.{Poll}
use ironic_temper.Diagnostics.Results.{Results, no_results, scan, of_result, all_passed}
use ironic_temper.Text.{contains, split}
use ironic_temper.Text.Cut.{part_1, between, remove_first}

-- `iDRACJob`, the fields that are read.
pub record IdracJob : Type 0 where
  pub job_type : String
  pub job_state : String
  pub id : String

-- The answer to the request to run the diagnostics: its status and its header `Location`.
pub record Started : Type 0 where
  pub status_code : ℕ
  pub location : String

-- The poll runs on the world and on the captured variable `jobStartFailed`.
pub record Waiting (W : Type 0) : Type 0 where
  pub job_start_failed : Bool
  pub world : W

pub record DellApi (W : Type 0) : Type 0 where
  pub connect : Call W (Unit {0})
  pub logout : Call W (Unit {0})
  pub poll : Poll (Waiting W)
  pub run_diagnostics : Call W Started
  -- the messages of an error that the server wrote as JSON
  pub unmarshal_error : String → Reply (List String)
  -- a job by its id, and the urls of the jobs
  pub job : String → Call W IdracJob
  pub jobs : Call W (List String)
  -- the location of the exported result, and the lines of what is read there
  pub export_result : Call W String
  pub result_lines : String → Call W (List String)

abbrev is_running : IdracJob → Bool
is_running j = j.job_type =ₛ "RemoteDiagnostics" && j.job_state =ₛ "Running"

-- What follows the last slash.
abbrev last_part : String → String
last_part text = last_or "" (split b'/' text)

abbrev no_job : IdracJob
no_job = record { job_type = ""; job_state = ""; id = "" }

module _ {W : Type 0} (api : DellApi W) where
  abbrev ask : {A : Type 0} → Call W A → Exec W A
  ask c w = let (r, w') = c w in of_reply r w'

  -- The loop of `findDiagnosticJob`: the first running job of the kind, and no job at the end.
  unfoldable pub find_job : List String → Exec W IdracJob
  find_job [] = pure no_job
  find_job (url ∷ urls) = do
    j ← ask (api.job (last_part url))
    branch (is_running j) (pure j) (find_job urls)

  -- `findDiagnosticJob`
  unfoldable pub find_diagnostic_job : Exec W IdracJob
  find_diagnostic_job = do urls ← ask api.jobs; find_job urls

  -- `getDiagnosticsResult`
  unfoldable pub get_diagnostics_result : Exec W Results
  get_diagnostics_result = do
    location ← ask api.export_result
    lines ← ask (api.result_lines location)
    of_result (scan lines no_results)

  -- A request that was refused: the job of before, if that is the reason.
  job_of_before : String → Exec W String
  job_of_before text =
      branch (text =ₛ "A Remote Diagnostic (ePSA) job already exists.")
        (do j ← find_diagnostic_job; pure j.id) (fail (message text))

  refused_start : Error → Exec W String
  unfolding job_of_before
  refused_start e = do
    texts ← of_reply (api.unmarshal_error (remove_first "400: " (error_text e)))
    text ← at_index texts 0
    job_of_before text

  started_job : Started → Exec W String
  started_job s =
      branch (s.status_code == 202) (pure (last_part s.location))
        (fail (message "run remote diags not successful"))

  job_id : Reply Started → Exec W String
  unfolding refused_start started_job
  job_id (refused e) = refused_start e
  job_id (reply s) = started_job s

  -- The id of the job: a new one, or the one that runs.
  unfoldable pub start_job : Exec W String
  unfolding job_id
  start_job = do r ← inspect (ask api.run_diagnostics); job_id r

  abbrev seen : Reply IdracJob → Bool → Reply Bool × Bool
  seen (refused e) failed = (refused e, failed)
  seen (reply j) failed =
      if j.job_state =ₛ "Completed"
      then (reply true, failed)
      else if j.job_state =ₛ ""
      then (reply true, true)
      else (reply false, failed)

  -- The condition that is polled.
  unfoldable pub job_is_over : String → Call (Waiting W) Bool
  job_is_over id s =
      let (r, w) = api.job id s.world in
      let (answer, failed) = seen r s.job_start_failed in
      (answer, record { job_start_failed = failed; world = w })

  -- Whether the job could not be started.
  abbrev await_job : String → Exec W Bool
  await_job id w =
      let (r, s) =
        api.poll 60 14400 (job_is_over id) (record { job_start_failed = false; world = w }) in
      let (r', w') = of_reply r s.world in
      elim r' [
        | ok u ↦ (ok s.job_start_failed, w')
        | err e ↦ (err e, w')
        | panics p ↦ (panics p, w')
      ]

  judge : Exec W Bool
  judge = do
    r ← get_diagnostics_result
    branch (all_passed r.results) (pure false) (fail (message "diagnostic tests did not pass"))

  -- One round of `Run` behind the connection: whether to run again.
  unfoldable pub one_round : Exec W Bool
  unfolding judge
  one_round = do id ← start_job; failed ← await_job id; branch failed (pure true) judge

  -- `defer client.Logout()`
  abbrev logged_out : Result (Unit {0}) × W → Result (Unit {0}) × W
  logged_out (r, w) = let (_, w') = api.logout w in (r, w')

  abbrev logged_out_later : Option (Result (Unit {0}) × W) → Option (Result (Unit {0}) × W)
  logged_out_later none = none
  logged_out_later (some out) = some (logged_out out)

  abbrev ended : Result Bool × W → Option (Result (Unit {0}) × W) → Option (Result (Unit {0}) × W)
  ended (ok true, w) again = logged_out_later again
  ended (ok false, w) again = some (logged_out (ok tt, w))
  ended (err e, w) again = some (logged_out (err e, w))
  ended (panics p, w) again = some (logged_out (panics p, w))

  -- `Run`, which calls itself where the job could not be started: at most `fuel` times. A connection
  -- that fails leaves no client, and the deferred `Logout` panics.
  unfoldable pub run : ℕ → W → Option (Result (Unit {0}) × W)
  run zero w = none
  run (suc fuel) w =
      let (r, connected) = api.connect w in
      let out = one_round connected in
      let again = run fuel out.1 in
      elim r [
        | reply u ↦ ended out again
        | refused e ↦ some (panics "nil pointer dereference", connected)
      ]
