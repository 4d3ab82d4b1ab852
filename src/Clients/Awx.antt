-- ===== src/Clients/Awx.antt =====
-- pkg/clients/awx.go: the template that AWX runs on a host. The requests are parameters.
pub mod Success
use ironic_temper.Base.{
  ◌≡◌, ℕ, String, ◌<>◌, Bool, true, false, not, Option, none, some, [], ◌==◌, ◌=ₛ◌, if◌then◌else◌,
}
use ironic_temper.Base.Dict.{Dict, lookup}
use ironic_temper.Go.{
  Error, message, Reply, reply, refused, Result, ok, err, panics, Exec, Call, ◌>>=◌, ◌>>◌, pure,
  fail, panic, of_reply, branch,
}
use ironic_temper.Go.Polling.{Poll}

-- `AwxAuth`
pub record AwxAuth : Type 0 where
  pub password : String
  pub user : String
  pub host : String

-- `launchBody`
pub record LaunchBody : Type 0 where
  pub inventory : ℕ
  pub limit : String

-- A response: its status, what was read of its body, and the error of the reading.
pub record Response : Type 0 where
  pub status_code : ℕ
  pub body : String
  pub read_error : Option Error

-- The outer world, with the transport and the decoders of JSON. A missing field is a nil message.
pub record AwxApi (W Raw : Type 0) : Type 0 where
  pub new_request : String → Reply (Unit {0})
  pub post : String → LaunchBody → Call W Response
  pub get : String → Call W Response
  pub poll : Poll W
  pub unmarshal_map : String → Reply (Dict Raw)
  pub unmarshal_text : Option Raw → Reply String
  pub unmarshal_bool : Option Raw → Reply Bool

-- A request that could not be made is a nil pointer, which `SetBasicAuth` follows.
abbrev authorised : {W : Type 0} → Reply (Unit {0}) → Exec W (Unit {0})
authorised (reply u) w = (ok tt, w)
authorised (refused e) w = (panics "nil pointer dereference", w)

abbrev unless_error : {W : Type 0} → Option Error → Exec W (Unit {0})
unless_error none w = (ok tt, w)
unless_error (some e) w = (err e, w)

-- A variable that is left at its first value where its decoding fails.
abbrev or_else : {A : Type 0} → A → Reply A → A
or_else a (reply b) = b
or_else a (refused e) = a

module _ {W Raw : Type 0} (api : AwxApi W Raw) (cfg : AwxAuth) where
  abbrev ask : {A : Type 0} → Call W A → Exec W A
  ask c w = let (r, w') = c w in of_reply r w'

  abbrev launch_url : String → String
  launch_url temp = cfg.host <> ("/job_templates/" <> (temp <> "/launch"))

  -- What is left of `execTemplate` behind the response.
  job_of : Response → Exec W String
  job_of r = branch (not (r.status_code == 201)) (fail (message "error exec template")) (do
    unless_error r.read_error
    fields ← of_reply (api.unmarshal_map r.body)
    of_reply (api.unmarshal_text (lookup "job" fields)))

  -- `execTemplate`
  unfoldable pub exec_template : LaunchBody → String → Exec W String
  unfolding job_of
  exec_template l temp = do
    authorised (api.new_request (launch_url temp))
    r ← ask (api.post (launch_url temp) l)
    job_of r

  -- What the condition reads of a body; the errors are dropped.
  abbrev pub fields_of : String → Dict Raw
  fields_of body = or_else [] (api.unmarshal_map body)

  abbrev pub status_of : String → String
  status_of body = or_else "" (api.unmarshal_text (lookup "status" (fields_of body)))

  abbrev pub failed_of : String → Bool
  failed_of body = or_else false (api.unmarshal_bool (lookup "failed" (fields_of body)))

  abbrev pub job_failed : Error
  job_failed = message "job exec failed"

  abbrev reported : Reply Response → Reply Bool
  reported (refused e) = refused e
  reported (reply r) =
      if not (status_of r.body =ₛ "successful")
      then reply false
      else if failed_of r.body
      then refused job_failed
      else reply true

  -- The condition that is polled.
  unfoldable pub job_is_done : String → Call W Bool
  job_is_done url w = let (r, w') = api.get url w in (reported r, w')

  abbrev pub job_url : String → String
  job_url job = cfg.host <> ("/jobs/" <> (job <> "/stdout/"))

  -- `checkJobStatus`
  unfoldable pub check_job_status : String → Exec W (Unit {0})
  check_job_status job = do
    of_reply (api.new_request (job_url job))
    ask (api.poll 5 1200 (job_is_done (job_url job)))

  -- `ExecTemplates`: the template has no name.
  unfoldable pub exec_templates : String → Exec W (Unit {0})
  exec_templates host = do
    job ← exec_template (record { inventory = 94; limit = host }) ""
    check_job_status job
