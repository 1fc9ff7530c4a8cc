-- ===== src/Witnesses/Api.antt =====
-- Calls of the management API at concrete inputs.
use go_php.Prelude.{some, true, ℕ, ◌≡◌, refl, String, none, false, List, [], ◌∷◌, last_n, arith}
use go_php.Prelude.Text.{AllChars}
use go_php.Prelude.Int.{pos}
use go_php.Prelude.Names.{contains}
use go_php.Dashboard.Types.{Site, active}
use go_php.Dashboard.Client.Calls.{explain_request}
use go_php.Prelude.Bytes.{bytes}
use go_php.Server.Query.{query_value, utf8_bytes}
use go_php.Server.Query.Received.{explain_request-query_value}
use go_php.Server.Mux.{reaches, explain}
use go_php.Server.SitePath.{generate_id, by_id, unless_empty}
use go_php.Server.SitePath.Laws.{is_slug_char, generate_id-slug}
use go_php.Server.SiteManager.{opens, not_dir}
use go_php.Server.Sites
use go_php.Server.Sites.{
  listed, SiteConfig, LogLine, State, System, Request, creates, updates, deletes,
}
use go_php.Server.Sites.Overlap.{overlap-Lost}
use go_php.Server.SiteManager.{start_site, is_running}
use go_php.Server.Sites.Create.{CreateOutcome, create_site-CreateOutcome}
use go_php.Server.Sites.Ids.{has_id}
use go_php.Server.Sites.Running.{Hosted, run-Hosted}
use go_php.Server.LogBuffer.{LogBuffer, new_log_buffer, add_all, recent, recent-add_all}

explain_request-query_value_example :
    (reaches (explain_request "/a b?x=1&y") ≡ some explain)
    × (query_value (bytes "url") (explain_request "/a b?x=1&y").path ≡ utf8_bytes "/a b?x=1&y")
explain_request-query_value_example = explain_request-query_value "/a b?x=1&y"

generate_id-slug_example :
    AllChars is_slug_char (generate_id "My Blog 2")
    × (unless_empty by_id (generate_id "My Blog 2") ≡ by_id (generate_id "My Blog 2"))
generate_id-slug_example = generate_id-slug "My Blog 2"

abbrev blog : Site
blog = record {
  id = "extensions";
  name = "Extensions";
  port = pos 8085;
  webroot = "/srv/x";
  domain = "";
  php_version = "8.3";
  status = active;
  routes = 0;
  ssl = false;
  created_at = "";
  updated_at = "";
  extensions = none;
  profile = none;
}

abbrev empty_buffer : LogBuffer ℕ
empty_buffer = new_log_buffer 2

abbrev logged : List ℕ
logged = 1 ∷ 2 ∷ 3 ∷ []

recent-add_all_example :
    ((add_all logged empty_buffer).entries ≡ last_n 2 logged)
    × (recent 1 (add_all logged empty_buffer) ≡ last_n 1 (last_n 2 logged))
unfolding new_log_buffer
recent-add_all_example = recent-add_all 1 logged empty_buffer (omega arith)

abbrev shop : SiteConfig
shop = record {
  id = "";
  name = "Shop";
  port = pos 8090;
  webroot = "";
  domain = "";
  root = "";
  php_version = "8.3";
  status = "";
  routes = pos 0;
  ssl = false;
  headers = [];
  extensions = [];
  profile = "";
  created_at = "";
  updated_at = "";
}

abbrev system : System
system = record {
  now = "10:00";
  default_webroot = λ id. id;
  mkdir_error = none;
  listen = opens;
  quoted = λ t. t;
}

abbrev no_sites : State
no_sites = record { sites = none; servers = []; logs = record { entries = []; max = 9 } }

abbrev requests : List Request
requests =
    creates system (some shop)
    ∷ updates (record system { listen = not_dir }) "shop" (some (record shop { status = "active" }))
    ∷ deletes "shop"
    ∷ []

run-Hosted_example : Hosted (Sites.run no_sites requests)
run-Hosted_example =
    run-Hosted no_sites requests (record { distinct = tt; known = λ k h. nothing k h })
  where
    nothing : (k : String) → contains k [] ≡ true → has_id k [] ≡ true
    nothing k h = unfold contains in absurd (cc)

create_site-CreateOutcome_example :
    CreateOutcome no_sites (Sites.create_site system (some shop) no_sites)
create_site-CreateOutcome_example = create_site-CreateOutcome system (some shop) no_sites

abbrev press : SiteConfig
press = record shop { id = "press"; name = "Press"; port = pos 8091; webroot = "/srv/press" }

abbrev books : SiteConfig
books = record shop { id = "books"; name = "Books"; webroot = "/srv/books" }

overlap-Lost_example :
    let t = (Sites.create_over system press [] (Sites.create_over system books [] no_sites).0).0 in
    (t.servers ≡ "books" ∷ "press" ∷ []) × (listed t ≡ press ∷ [])
unfolding Sites.create_over start_site is_running contains Sites.log
overlap-Lost_example = overlap-Lost system system books press no_sites refl refl
