-- ===== src/Server/Mux.antt =====
-- The routes of internal/ui/server.go, and the methods that the handlers of internal/ui/handlers.go go
-- on with. `http.ServeMux` matches a pattern without a final slash exactly, and one with it as a
-- prefix; "/" takes what is left. The optional metrics path is not configured here.
pub mod Contract
use Prim.Native.Char.{code}
use go_php.Prelude.{
  String, Option, none, some, Bool, true, false, List, [], ◌∷◌, ◌==◌, if◌then◌else◌,
}
use go_php.Prelude.Text.{same, starts_with, has_suffix}
use go_php.Dashboard.Client.Calls.{Method, get, post, put, delete, Call}

pub data Handler : Type 0 where
  status sites site_by_id site_extensions extensions profiles config config_validate config_save
        runtimes logs :
      Handler
  recent_logs ws_logs health system doctor doctor_compat explain deploy_list deploy_create : Handler
  deploy_activate deploy_rollback metrics_history static_files : Handler

-- The patterns that match exactly.
abbrev pub exact_routes : List (String × Handler)
exact_routes =
    ("/api/status", status)
    ∷ ("/api/sites", sites)
    ∷ ("/api/extensions", extensions)
    ∷ ("/api/profiles", profiles)
    ∷ ("/api/config", config)
    ∷ ("/api/config/validate", config_validate)
    ∷ ("/api/config/save", config_save)
    ∷ ("/api/runtimes", runtimes)
    ∷ ("/api/logs", logs)
    ∷ ("/api/logs/recent", recent_logs)
    ∷ ("/api/ws/logs", ws_logs)
    ∷ ("/api/health", health)
    ∷ ("/api/system", system)
    ∷ ("/api/doctor", doctor)
    ∷ ("/api/doctor/compat", doctor_compat)
    ∷ ("/api/explain", explain)
    ∷ ("/api/deploy/list", deploy_list)
    ∷ ("/api/deploy/create", deploy_create)
    ∷ ("/api/deploy/activate", deploy_activate)
    ∷ ("/api/deploy/rollback", deploy_rollback)
    ∷ ("/api/metrics/history", metrics_history)
    ∷ []

lookup_route : String → List (String × Handler) → Option Handler
unfolding same
lookup_route path [] = none
lookup_route path ((p, h) ∷ rs) = if same p path then some h else lookup_route path rs

unfoldable pub route : String → Handler
unfolding lookup_route starts_with
route path = elim (lookup_route path exact_routes) [
  | none ↦ if starts_with path "/api/sites/" then site_by_id else static_files
  | some h ↦ h
]

-- handleSiteByID hands a path that ends in /extensions on to handleExtensionsSite.
unfoldable pub hand_on : Handler → String → Handler
unfolding has_suffix
hand_on site_by_id path = if has_suffix path "/extensions" then site_extensions else site_by_id
hand_on h path = h

-- The methods that a handler goes on with: the others are answered 405.
abbrev get_only : Method → Bool
get_only get = true
get_only _ = false

abbrev post_only : Method → Bool
post_only post = true
post_only _ = false

abbrev get_or_post : Method → Bool
get_or_post get = true
get_or_post post = true
get_or_post _ = false

abbrev site_methods : Method → Bool
site_methods post = false
site_methods _ = true

abbrev site_extensions_methods : Method → Bool
site_extensions_methods get = true
site_extensions_methods put = true
site_extensions_methods _ = false

-- The path of a URL: what stands before its query.
unfoldable pub url_path : String → String
url_path String.[] = ""
url_path (String.◌∷◌ c s) =
    let rest = url_path s in if code c == b'?' then "" else String.◌∷◌ c rest

-- The test of r.Method in each handler; those without one go on with all.
unfoldable pub accepts : Handler → Method → Bool
accepts status m = get_only m
accepts sites m = get_or_post m
accepts site_by_id m = site_methods m
accepts site_extensions m = site_extensions_methods m
accepts extensions m = get_or_post m
accepts profiles m = get_only m
accepts config m = get_only m
accepts config_validate m = get_or_post m
accepts config_save m = post_only m
accepts runtimes m = get_only m
accepts system m = get_only m
accepts deploy_create m = post_only m
accepts deploy_activate m = post_only m
accepts deploy_rollback m = post_only m
accepts _ m = true

-- The handler that a call of the dashboard comes to, if it goes on with the call's method.
unfoldable pub reaches : Call → Option Handler
unfolding route url_path hand_on accepts
reaches c =
    let path = url_path c.path in
    let h = hand_on (route path) path in if accepts h c.method then some h else none
