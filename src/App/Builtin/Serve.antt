-- ===== src/App/Builtin/Serve.antt =====
-- What the built-in endpoints of quickapi/app/application.py answer and change, over the job queue
-- and the plugin manager.
use quick_api.Base.{
  ℕ, Text, codes, get, Dict, Value, class_name, str, obj, obj_of, arr_of, to_dict, truthy, Bool,
  Option, none, some, [], ◌∷◌, ◌++◌, map, if◌then◌else◌, ◌==◌, text_eq, str_beq, Raised, Result, ok,
  raise,
}
use quick_api.Http.{Request}
use quick_api.Response
use quick_api.Response.{Answer, value, failure, not_found, success}
use quick_api.Jobs
use quick_api.Jobs.{JobQueue, JobRecord, cancel}
use quick_api.Jobs.Listing.{list_jobs}
use quick_api.Plugins.{PluginManager}
use quick_api.Plugins.Listing.{list_plugins, describe}
use quick_api.App.Builtin.{
  Service, Page, Endpoint, page, job_list, plugin_list, plugin_named, posted, agents, job,
  endpoint_of, Switches, refused, wrapped_result,
}

pub record Backend (V : Type 0) : Type 0 where
  pub jobs : JobQueue
  pub plugins : PluginManager
  pub outer : V

-- What a page shows, what a service does with a body, and what an agent answers to one.
pub record Services (V : Type 0) : Type 0 where
  pub show : Page → Backend V → Result Answer
  pub post : Service → Dict Value → Request → Backend V → Result (Bool × Value) × Backend V
  pub run_agent : Dict Value → Backend V → Result Value × Backend V

-- `request.body or {}`, of which a field is read
unfoldable pub body_of : Value → Result (Dict Value)
unfolding truthy class_name codes
body_of (obj fields) = ok (to_dict fields)
body_of v =
    if truthy v
    then raise (record {
      kind = codes "AttributeError";
      message = codes "'" ++ (class_name v ++ codes "' object has no attribute 'get'");
    })
    else ok []

abbrev answered : Dict Value → Result (Option Answer)
answered d = ok (some (value (obj_of d)))

abbrev shown : Result Answer → Result (Option Answer)
shown (raise e) = raise e
shown (ok a) = ok (some a)

abbrev plugin_answer : Text → Text → Option (Dict Value) → Dict Value
plugin_answer new_id name none =
    failure new_id not_found (some (codes "Plugin not found"))
      (obj_of ((codes "plugin", str name) ∷ []))
plugin_answer new_id name (some d) = success new_id Response.ok (obj_of d) (codes "Success")

abbrev job_missing : Text → Text → Dict Value
job_missing new_id id =
    failure new_id not_found (some (codes "Job not found")) (obj_of ((codes "job_id", str id) ∷ []))

abbrev no_record : Raised
no_record = record {
  kind = codes "AttributeError";
  message = codes "'NoneType' object has no attribute 'to_dict'";
}

abbrev cancel_answer : Text → Option JobRecord → Result (Option Answer)
cancel_answer new_id none = raise no_record
cancel_answer new_id (some r) =
    answered (success new_id Response.ok (obj_of (Jobs.to_dict r)) (codes "Job cancel requested"))

abbrev pub Served : Type 0 → Type 0
Served V = Result (Option Answer) × Backend V

module _ {V : Type 0} (new_id : Text) (now : ℕ) where
  -- `/quick/jobs/{id}`
  unfoldable pub serve_job : Text → Request → Backend V → Served V
  unfolding get success failure cancel Jobs.to_dict codes str_beq
  serve_job id req b = elim (get b.jobs.jobs id) [
    | none ↦ (answered (job_missing new_id id), b)
    | some r ↦
        let (jobs, cancelled) = cancel b.jobs id now in
        if req.method == codes "GET"
        then (
          answered (success new_id Response.ok (obj_of (Jobs.to_dict r)) (codes "Job status")),
          b,
        )
        else if req.method == codes "DELETE"
        then (cancel_answer new_id cancelled, record b { jobs = jobs })
        else (ok none, b)
  ]

  abbrev pub posted_answer : Service → Result (Bool × Value) × Backend V → Served V
  posted_answer service (raise e, b) = (raise e, b)
  posted_answer service (ok result, b) = (answered (wrapped_result new_id service result), b)

  abbrev pub agent_answer : Result Value × Backend V → Served V
  agent_answer (raise e, b) = (raise e, b)
  agent_answer (ok v, b) = (answered (success new_id Response.ok v (codes "Success")), b)

  abbrev pub with_body : Result (Dict Value) → (Dict Value → Served V) → Backend V → Served V
  with_body (raise e) f b = (raise e, b)
  with_body (ok body) f b = f body

  -- an endpoint whose service is on
  unfoldable pub serve_endpoint : Services V → Endpoint → Request → Backend V → Served V
  unfolding serve_job list_jobs list_plugins describe wrapped_result body_of success failure codes
  serve_endpoint services (page p) req b = (shown (services.show p b), b)
  serve_endpoint services job_list req b = (
    answered (
        success new_id Response.ok
          (obj_of ((codes "jobs", arr_of (map obj_of (list_jobs b.jobs))) ∷ [])) (codes "Success")),
    b,
  )
  serve_endpoint services plugin_list req b = (
    answered (
        success new_id Response.ok
          (obj_of ((codes "plugins", arr_of (map obj_of (list_plugins b.plugins))) ∷ []))
          (codes "Success")),
    b,
  )
  serve_endpoint services (plugin_named name) req b =
      (answered (plugin_answer new_id name (describe b.plugins name)), b)
  serve_endpoint services (posted service) req b =
      with_body (body_of req.body)
        (λ body. posted_answer service (services.post service body req b)) b
  serve_endpoint services agents req b =
      with_body (body_of req.body) (λ body. agent_answer (services.run_agent body b)) b
  serve_endpoint services (job id) req b = serve_job id req b

  abbrev pub gated : Option (Dict Value) → Served V → Backend V → Served V
  gated none served b = served
  gated (some answer) served b = (answered answer, b)

  -- `_handle_builtin`
  unfoldable pub handle_builtin : Switches → Services V → Request → Backend V → Served V
  unfolding endpoint_of refused serve_endpoint
  handle_builtin s services req b = elim (endpoint_of req) [
    | none ↦ (ok none, b)
    | some e ↦ gated (refused new_id s e) (serve_endpoint services e req b) b
  ]
