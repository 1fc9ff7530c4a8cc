-- ===== src/Dashboard/Client/Calls.antt =====
-- The functions of `api` in client.ts: the method, the path behind `/api`, and the body of each.
use go_php.Prelude.Text.{◌++◌}
use go_php.Prelude.{String, List, Option, none, some, if◌then◌else◌, str_eq}
use go_php.Dashboard.Types.{Site, SiteCreateRequest, GatewayConfig}
use go_php.Dashboard.Client.Encoding.{encode_uri_component}

pub data Method : Type 0 where
  get post put delete : Method

-- The value that `JSON.stringify` is given.
pub data Body : Type 0 where
  no_body : Body
  site_request : SiteCreateRequest → Body
  site : Site → Body
  config : GatewayConfig → Body
  new_release : String → Option String → Body
  release_id : String → Body
  site_extensions : List String → String → Body

pub record Call : Type 0 where
  pub method : Method
  pub path : String
  pub body : Body

abbrev base : String
base = "/api"

-- request(path, options): the URL is `${BASE}${path}`.
abbrev pub request_to : Method → String → Body → Call
request_to m path b = record { method = m; path = base ++ path; body = b }

unfoldable pub get_status : Call
get_status = request_to get "/status" no_body

unfoldable pub get_system : Call
get_system = request_to get "/system" no_body

unfoldable pub get_sites : Call
get_sites = request_to get "/sites" no_body

unfoldable pub create_site : SiteCreateRequest → Call
create_site r = request_to post "/sites" (site_request r)

unfoldable pub update_site : String → Site → Call
update_site id s = request_to put ("/sites/" ++ id) (site s)

unfoldable pub delete_site : String → Call
delete_site id = request_to delete ("/sites/" ++ id) no_body

unfoldable pub get_runtimes : Call
get_runtimes = request_to get "/runtimes" no_body

unfoldable pub get_logs : Call
get_logs = request_to get "/logs" no_body

unfoldable pub get_config : Call
get_config = request_to get "/config" no_body

unfoldable pub save_config : GatewayConfig → Call
save_config c = request_to post "/config/save" (config c)

unfoldable pub health_check : Call
health_check = request_to get "/health" no_body

unfoldable pub get_deployments : Call
get_deployments = request_to get "/deploy/list" no_body

unfoldable pub create_deployment : String → Option String → Call
create_deployment version src_dir = request_to post "/deploy/create" (new_release version src_dir)

unfoldable pub activate_deployment : String → Call
activate_deployment id = request_to post "/deploy/activate" (release_id id)

unfoldable pub rollback_deployment : Call
rollback_deployment = request_to post "/deploy/rollback" no_body

unfoldable pub get_doctor : Call
get_doctor = request_to get "/doctor" no_body

-- path ? `?path=${encodeURIComponent(path)}` : ''
compat_query : Option String → String
compat_query none = ""
compat_query (some p) = if str_eq p "" then "" else "?path=" ++ encode_uri_component p

unfoldable pub get_doctor_compat : Option String → Call
unfolding compat_query
get_doctor_compat path = request_to get ("/doctor/compat" ++ compat_query path) no_body

unfoldable pub explain_request : String → Call
explain_request url = request_to get ("/explain?url=" ++ encode_uri_component url) no_body

unfoldable pub get_metrics_history : Call
get_metrics_history = request_to get "/metrics/history" no_body

unfoldable pub get_extensions : Call
get_extensions = request_to get "/extensions" no_body

unfoldable pub get_profiles : Call
get_profiles = request_to get "/profiles" no_body

unfoldable pub get_site_extensions : String → Call
get_site_extensions id = request_to get ("/sites/" ++ (id ++ "/extensions")) no_body

unfoldable pub update_site_extensions : String → List String → String → Call
update_site_extensions id extensions profile =
    request_to put ("/sites/" ++ (id ++ "/extensions")) (site_extensions extensions profile)
