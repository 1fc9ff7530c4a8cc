-- ===== src/Server/Mux/Contract.antt =====
-- Which handlers the dashboard's calls come to.
use go_php.Prelude.Text.{◌++◌, same, has_suffix-++}
use go_php.Server.SitePath.{generate_id}
use go_php.Server.SitePath.Laws.{url_path-slug, url_path-slug_append, no_suffix, generate_id-slug}
use go_php.Prelude.{Bool, ◌||◌, arith, true, false, String, ◌≡◌, refl, Option, some, List}
use go_php.Dashboard.Types.{Site, SiteCreateRequest, GatewayConfig}
use go_php.Dashboard.Client.Calls.{
  get_status, get_system, get_sites, create_site, update_site, delete_site, get_runtimes, get_logs,
  get_config, save_config, health_check, get_deployments, create_deployment, activate_deployment,
  rollback_deployment, get_doctor, explain_request, get_metrics_history, get_extensions,
  get_profiles, get_site_extensions, update_site_extensions,
}
use go_php.Server.Mux.{
  status, sites, site_by_id, site_extensions, extensions, profiles, config, config_save, runtimes,
  logs, health, system, doctor, explain, deploy_list, deploy_create, deploy_activate,
  deploy_rollback, metrics_history, reaches, url_path,
}

-- The handler that each call is meant for is the one that it reaches.
abbrev CallsReach :
    String
    → String
    → String
    → String
    → Option String
    → Site
    → SiteCreateRequest
    → GatewayConfig
    → List String
    → String
    → Type 0
CallsReach id version url release dir s r c exts profile =
    (reaches get_status ≡ some status)
    × (reaches get_system ≡ some system)
    × (reaches get_sites ≡ some sites)
    × (reaches (create_site r) ≡ some sites)
    × (reaches (update_site id s) ≡ some site_by_id)
    × (reaches (delete_site id) ≡ some site_by_id)
    × (reaches get_runtimes ≡ some runtimes)
    × (reaches get_logs ≡ some logs)
    × (reaches get_config ≡ some config)
    × (reaches (save_config c) ≡ some config_save)
    × (reaches health_check ≡ some health)
    × (reaches get_deployments ≡ some deploy_list)
    × (reaches (create_deployment version dir) ≡ some deploy_create)
    × (reaches (activate_deployment release) ≡ some deploy_activate)
    × (reaches rollback_deployment ≡ some deploy_rollback)
    × (reaches get_doctor ≡ some doctor)
    × (reaches (explain_request url) ≡ some explain)
    × (reaches get_metrics_history ≡ some metrics_history)
    × (reaches get_extensions ≡ some extensions)
    × (reaches get_profiles ≡ some profiles)
    × (reaches (get_site_extensions id) ≡ some site_extensions)
    × (reaches (update_site_extensions id exts profile) ≡ some site_extensions)

either_true : (a b : Bool) → b ≡ true → (a || b) ≡ true
either_true a b h = ground arith

-- These 22 calls of the client reach the handler that is meant for them, which goes on with their
-- method: those that name a site, for every id that the server generates but "extensions", and the
-- others whatever their arguments.
calls_reach :
    (name version url release : String) (dir : Option String) (s : Site) (r : SiteCreateRequest)
    (c : GatewayConfig) (exts : List String) (profile : String)
    → same (generate_id name) "extensions" ≡ false
    → CallsReach (generate_id name) version url release dir s r c exts profile
unfolding reaches get_status get_system get_sites create_site update_site delete_site get_runtimes
    get_logs get_config save_config health_check get_deployments create_deployment
    activate_deployment rollback_deployment get_doctor explain_request get_metrics_history
    get_extensions get_profiles get_site_extensions update_site_extensions
calls_reach name version url release dir s r c exts profile other =
    let id = generate_id name in
    let slug = (generate_id-slug name).0 in
    let suffix : url_path (id ++ "/extensions") ≡ id ++ "/extensions" =
      url_path-slug_append id "/extensions" slug in
    let ends =
      either_true (same (id ++ "/extensions") "extensions") _ (has_suffix-++ id "/extensions") in
    (
      refl,
      refl,
      refl,
      refl,
      rw (url_path-slug id slug, other, no_suffix id slug) refl,
      rw (url_path-slug id slug, other, no_suffix id slug) refl,
      refl,
      refl,
      refl,
      refl,
      refl,
      refl,
      refl,
      refl,
      refl,
      refl,
      refl,
      refl,
      refl,
      refl,
      rw (suffix, ends) refl,
      rw (suffix, ends) refl,
    )
