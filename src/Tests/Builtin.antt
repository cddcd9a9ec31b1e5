-- ===== src/Tests/Builtin.antt =====
-- The built-in endpoints at concrete inputs: services that change nothing, and a queue with one job
-- that waits.
use quick_api.Base.{
  codes, null, true, false, some, [], ◌≡◌, refl, ok, str_beq, if◌then◌else◌, ◌==◌, text_eq,
}
use quick_api.Http.{Request, build}
use quick_api.Response.{value}
use quick_api.Jobs.{cancel, acquire, enter, hand_over, attach, new}
use quick_api.App.Builtin.{endpoint_of, Switches, job}
use quick_api.App.Builtin.Serve.{Backend, Services, handle_builtin}
use quick_api.App.Builtin.Queue.{handle_builtin-cancels}
use quick_api.Tests.Jobs.{assigned_queue}

abbrev switches : Switches
switches = record {
  docs_on = true;
  plugins_enabled = true;
  llm_gateway_enabled = true;
  local_tools_enabled = false;
  webhooks_enabled = true;
  agent_backend_enabled = false;
}

abbrev services : Services Unit
services = record {
  show = λ p b. ok (value null);
  post = λ service body req b. (ok (true, null), b);
  run_agent = λ body b. (ok null, b);
}

abbrev backend : Backend Unit
backend = record {
  jobs = assigned_queue;
  plugins = record { manifests = []; handlers = []; granted_permissions = [] };
  outer = tt;
}

abbrev cancelling_request : Request
cancelling_request =
    build (codes "DELETE") (codes "/quick/jobs/j1") null [] [] (codes "10.0.0.1") (codes "req_1") []

endpoint : endpoint_of cancelling_request ≡ some (job (codes "j1"))
unfolding endpoint_of build codes str_beq
endpoint = refl

-- A request for a job that waits cancels it.
cancels :
    (handle_builtin (codes "req_2") 2 switches services cancelling_request backend).1.jobs
    ≡ (cancel assigned_queue (codes "j1") 2).0
unfolding handle_builtin build acquire enter hand_over attach new codes str_beq
cancels = refl

handle_builtin-cancels_example :
    (handle_builtin (codes "req_2") 2 switches services cancelling_request backend).1 ≡ (
      if cancelling_request.method == codes "DELETE"
      then record backend { jobs = (cancel backend.jobs (codes "j1") 2).0 }
      else backend)
unfolding build codes
handle_builtin-cancels_example =
    handle_builtin-cancels (codes "req_2") 2 switches services cancelling_request backend
      (codes "j1") refl refl
