-- ===== src/App/Builtin.antt =====
-- `_handle_builtin` of quickapi/app/application.py: which built-in endpoint a request asks for,
-- whether its service is switched on, and what it answers. What is only read or rendered, and the
-- services that leave the program, are fields of `Services`.
pub mod Serve
pub mod Queue
use quick_api.Base.{
  ℕ, Text, codes, split, starts_with, str_beq, Dict, get, Value, class_name, null, str, bool, arr,
  obj, obj_of, arr_of, to_dict, truthy, Bool, true, false, not, ◌&&◌, ◌||◌, Option, none, some,
  or_else, List, [], ◌∷◌, ◌++◌, map, if◌then◌else◌, mem, ◌==◌, text_eq, Raised, Result, ok, raise,
  ◌>>=◌,
}
use quick_api.Http.{Request}
use quick_api.Http.Header.{get_header}
use quick_api.Response
use quick_api.Response.{Answer, value, failure, forbidden, not_found, success, format_error}
use quick_api.Jobs
use quick_api.Jobs.{JobQueue, JobRecord, cancel}
use quick_api.Jobs.Listing.{list_jobs}
use quick_api.Plugins.{PluginManager}
use quick_api.Plugins.Listing.{list_plugins, describe}

-- The endpoints that post a body to a service and wrap its result.
pub data Service : Type 0 where
  plugin_call llm_complete tool_run ffmpeg webhook : Service

-- The endpoints that show something.
pub data Page : Type 0 where
  docs openapi runtime llm_providers databases schemas dependencies : Page

pub data Endpoint : Type 0 where
  page : Page → Endpoint
  job_list : Endpoint
  plugin_list : Endpoint
  plugin_named : Text → Endpoint
  posted : Service → Endpoint
  agents : Endpoint
  job : Text → Endpoint

abbrev last_of : List Text → Text → Text
last_of [] t = t
last_of (u ∷ us) t = last_of us u

-- `path.rsplit("/", 1)[-1]`
unfoldable pub last_part : Text → Text
unfolding split
last_part path = last_of (split b'/' path) []

abbrev is_get : Request → Bool
is_get req = req.method == codes "GET"

abbrev is_post : Request → Bool
is_post req = req.method == codes "POST"

-- The endpoint of a request, by the tests in their order.
unfoldable pub endpoint_of : Request → Option Endpoint
unfolding last_part starts_with codes str_beq
endpoint_of req =
    if is_get req && mem req.path (codes "/docs" ∷ codes "/quick" ∷ [])
    then some (page docs)
    else if is_get req && req.path == codes "/openapi.json"
    then some (page openapi)
    else if is_get req && req.path == codes "/quick/runtime"
    then some (page runtime)
    else if is_get req && req.path == codes "/quick/jobs"
    then some job_list
    else if is_get req && req.path == codes "/quick/plugins"
    then some plugin_list
    else if is_get req && starts_with req.path (codes "/quick/plugins/")
    then some (plugin_named (last_part req.path))
    else if is_post req && req.path == codes "/quick/plugins/call"
    then some (posted plugin_call)
    else if is_get req && req.path == codes "/quick/llm/providers"
    then some (page llm_providers)
    else if is_post req && req.path == codes "/quick/llm/complete"
    then some (posted llm_complete)
    else if is_get req && req.path == codes "/quick/databases"
    then some (page databases)
    else if is_get req && req.path == codes "/quick/schemas"
    then some (page schemas)
    else if is_get req && req.path == codes "/quick/dependencies"
    then some (page dependencies)
    else if is_post req && req.path == codes "/quick/tools/run"
    then some (posted tool_run)
    else if is_post req && req.path == codes "/quick/tools/ffmpeg"
    then some (posted ffmpeg)
    else if is_post req && req.path == codes "/quick/webhooks/dispatch"
    then some (posted webhook)
    else if is_post req && req.path == codes "/quick/agents/run"
    then some agents
    else if starts_with req.path (codes "/quick/jobs/")
    then some (job (last_part req.path))
    else none

pub record Switches : Type 0 where
  pub docs_on : Bool
  pub plugins_enabled : Bool
  pub llm_gateway_enabled : Bool
  pub local_tools_enabled : Bool
  pub webhooks_enabled : Bool
  pub agent_backend_enabled : Bool

abbrev refusal : Text → Text → Value → Dict Value
refusal new_id message detail = failure new_id forbidden (some message) detail

abbrev hinted : Text → Text → Text → Dict Value
hinted new_id message hint = refusal new_id message (obj_of ((codes "hint", str hint) ∷ []))

abbrev unless : Bool → Dict Value → Option (Dict Value)
unless true answer = none
unless false answer = some answer

abbrev tools_off : Text → Dict Value
tools_off new_id = hinted new_id (codes "Local tool runner is disabled") (
    codes
      "Enable QuickAPI(..., local_tools_enabled=True) only for trusted local/internal services.")

-- The answer of an endpoint whose service is switched off.
unfoldable pub refused : Text → Switches → Endpoint → Option (Dict Value)
unfolding failure codes
refused new_id s (page docs) = unless s.docs_on (failure new_id not_found none null)
refused new_id s (page openapi) = unless s.docs_on (failure new_id not_found none null)
refused new_id s (page llm_providers) =
    unless s.llm_gateway_enabled (refusal new_id (codes "LLM gateway is disabled") null)
refused new_id s (page other) = none
refused new_id s job_list = none
refused new_id s plugin_list =
    unless s.plugins_enabled (refusal new_id (codes "Plugin runtime is disabled") null)
refused new_id s (plugin_named name) =
    unless s.plugins_enabled (refusal new_id (codes "Plugin runtime is disabled") null)
refused new_id s (posted plugin_call) =
    unless s.plugins_enabled (refusal new_id (codes "Plugin runtime is disabled") null)
refused new_id s (posted llm_complete) =
    unless s.llm_gateway_enabled (refusal new_id (codes "LLM gateway is disabled") null)
refused new_id s (posted tool_run) = unless s.local_tools_enabled (tools_off new_id)
refused new_id s (posted ffmpeg) = unless s.local_tools_enabled (tools_off new_id)
refused new_id s (posted webhook) =
    unless s.webhooks_enabled (refusal new_id (codes "Webhook runtime is disabled") null)
refused new_id s agents = unless s.agent_backend_enabled (
    hinted new_id (codes "Agent backend is disabled") (
      codes
        "Enable QuickAPI(..., agent_backend_enabled=True) only after configuring plugin/tool permissions."))
refused new_id s (job id) = none

-- The status is 400 but for the gateway's, and the code and the message are the service's.
abbrev failed_status : Service → ℕ
failed_status llm_complete = 502
failed_status other = 400

abbrev failed_code : Service → Text
failed_code plugin_call = codes "PLUGIN_CALL_FAILED"
failed_code llm_complete = codes "LLM_GATEWAY_FAILED"
failed_code tool_run = codes "TOOL_RUN_FAILED"
failed_code ffmpeg = codes "FFMPEG_FAILED"
failed_code webhook = codes "WEBHOOK_FAILED"

abbrev failed_message : Service → Text
failed_message plugin_call = codes "Plugin call failed"
failed_message llm_complete = codes "LLM provider failed"
failed_message tool_run = codes "Tool execution failed"
failed_message ffmpeg = codes "FFmpeg conversion failed"
failed_message webhook = codes "Webhook dispatch failed"

-- `q.ok(result.to_dict()) if result.ok else q.error(...)`
unfoldable pub wrapped_result : Text → Service → Bool × Value → Dict Value
unfolding success format_error codes
wrapped_result new_id service (true, result) = success new_id Response.ok result (codes "Success")
wrapped_result new_id service (false, result) =
    format_error new_id (failed_status service) (failed_code service) (failed_message service)
      result (codes "api_error")
