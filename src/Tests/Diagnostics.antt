-- ===== src/Tests/Diagnostics.antt =====
-- Diagnostics of a dell server that pass, an aci controller that answers, and a template that succeeds.
use ironic_temper.Base.{
  ◌≡◌, ◌↔◌, ℕ, zero, suc, refl, String, true, false, Option, none, some, List, [], ◌∷◌, ◌++◌,
}
use ironic_temper.Base.Dict.{Dict}
use ironic_temper.Go.{Reply, reply, refused, message, ok}
use ironic_temper.Go.Polling.{attempts, IsPoll}
use ironic_temper.Diagnostics.Dell.{DellApi, run}
use ironic_temper.Diagnostics.Dell.Unended.{Rounds, run_unended}
use ironic_temper.Diagnostics.Dell.Passed.{PassedRun, run-PassedRun}
use ironic_temper.Diagnostics.Aci.{AciApi, AciClient, new_aci, get_container, after}
use ironic_temper.Diagnostics.Aci.Cached.{get_container_once}
use ironic_temper.Clients.Awx.{AwxApi, AwxAuth, exec_template, exec_templates}
use ironic_temper.Tests.Data.{answer}

abbrev job_of_state : String → DellApi String
job_of_state state = record {
  connect = answer tt;
  logout = answer tt;
  poll = λ interval timeout c. attempts 3 c;
  run_diagnostics = answer (record { status_code = 202; location = "/redfish/Jobs/JID_1" });
  unmarshal_error = λ text. reply [];
  job = λ id. answer (record { job_type = "RemoteDiagnostics"; job_state = state; id = id });
  jobs = answer [];
  export_result = answer "/result";
  result_lines =
      λ l. answer ("**CPU**" ∷ "Test Results : Pass" ∷ "**Fan**" ∷ "Test Results : Warning" ∷ []);
}

unknown-IsPoll : IsPoll ((job_of_state "").poll)
unknown-IsPoll = record { runs = λ interval timeout c s. (3, refl) }

it_goes_on : run (job_of_state "") 2 "w" ≡ none
unfolding run ironic_temper.Diagnostics.Dell.one_round ironic_temper.Diagnostics.Dell.start_job
    attempts ironic_temper.Diagnostics.Dell.job_is_over
it_goes_on = refl

-- The state of the job is not known, so that the diagnostics are started again.
run_unended_example : (x : String) × Rounds (job_of_state "") 2 "w" x
run_unended_example = run_unended (job_of_state "") unknown-IsPoll 2 "w" it_goes_on

completed-IsPoll : IsPoll ((job_of_state "Completed").poll)
completed-IsPoll = record { runs = λ interval timeout c s. (3, refl) }

it_passes : run (job_of_state "Completed") 1 "w" ≡ some (ok tt, "w")
unfolding run ironic_temper.Diagnostics.Dell.one_round ironic_temper.Diagnostics.Dell.start_job
    attempts ironic_temper.Diagnostics.Dell.job_is_over
    ironic_temper.Diagnostics.Dell.get_diagnostics_result ironic_temper.Diagnostics.Results.scan
    ironic_temper.Text.contains ironic_temper.Text.Cut.between
    ironic_temper.Diagnostics.Results.grade_test ironic_temper.Base.Dict.lookup
    ironic_temper.Base.Dict.insert ironic_temper.Text.Cut.part_1
    ironic_temper.Diagnostics.Results.all_passed ironic_temper.Diagnostics.Results.grade
it_passes = refl

run-PassedRun_example : PassedRun (job_of_state "Completed") "w"
run-PassedRun_example =
    run-PassedRun (job_of_state "Completed") completed-IsPoll 1 "w" "w" it_passes

-- A controller whose container is the name of its host; the world is the requests that were made.
abbrev controller : AciApi String (List String)
controller = record {
  new_client = λ h w. w;
  poll = λ interval timeout c. attempts 3 c;
  make_rest_request = λ h w. (reply tt, w);
  do_request = λ h w. (record { container = some h; status_code = some 200 }, h ∷ w);
  check_for_errors = λ c. ok tt;
}

abbrev asked : AciClient String (List String)
asked = record { c = ("leaf", tt) ∷ []; co = ("leaf", some "leaf") ∷ []; world = "leaf" ∷ [] }

answered : get_container controller "leaf" (new_aci []) ≡ (ok (some "leaf"), asked)
unfolding get_container ironic_temper.Base.Dict.lookup attempts
    ironic_temper.Diagnostics.Aci.request ironic_temper.Diagnostics.Aci.get_client
    ironic_temper.Base.Dict.insert
answered = refl

get_container_once_example :
    get_container controller "leaf" (after controller ("spine" ∷ "leaf" ∷ []) asked)
    ≡ (ok (some "leaf"), after controller ("spine" ∷ "leaf" ∷ []) asked)
get_container_once_example =
    get_container_once controller "leaf" ("spine" ∷ "leaf" ∷ []) (new_aci []) asked (some "leaf")
      answered

-- An AWX whose messages are texts.
abbrev awx : AwxApi String String
awx = record {
  new_request = λ url. reply tt;
  post = λ url b. answer (record { status_code = 201; body = "launch"; read_error = none });
  get = λ url. answer (record { status_code = 200; body = "job"; read_error = none });
  poll = λ interval timeout c. attempts 3 c;
  unmarshal_map = λ b. reply (("job", "17") ∷ ("status", "successful") ∷ []);
  unmarshal_text = λ m. text_of m;
  unmarshal_bool = λ m. reply false;
}
  where
    text_of : Option String → Reply String
    text_of none = refused (message "unexpected end of JSON input")
    text_of (some t) = reply t

abbrev auth : AwxAuth
auth = record { password = "secret"; user = "temper"; host = "https://awx" }

it_succeeds : exec_templates awx auth "node001" "w" ≡ (ok tt, "w")
unfolding exec_templates exec_template ironic_temper.Base.Dict.lookup
    ironic_temper.Clients.Awx.check_job_status attempts ironic_temper.Clients.Awx.job_is_done
it_succeeds = refl
