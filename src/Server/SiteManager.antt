-- ===== src/Server/SiteManager.antt =====
-- `SiteManager` of internal/ui/siteManager.go: which sites have a server. Its lock makes every method
-- one step. The configuration that it keeps beside a server is read by nothing, so its map is the list
-- of its keys.
use mathlib.Core.List
use go_php.Prelude.{String, List, [], ◌∷◌, Bool, str_eq, if◌then◌else◌}
use go_php.Prelude.Text.{◌++◌}
use go_php.Prelude.Names.{contains, remove}

-- What the system answers while a server is started: the webroot is missing, or is no directory, or
-- the listener reports an error within 200 ms, or it does not.
pub data Listen : Type 0 where
  stat_fails listen_fails : String → Listen
  not_dir opens : Listen

-- An error's text, or the servers afterwards.
pub data Started : Type 0 where
  start_error : String → Started
  started : List String → Started

unfoldable pub is_running : String → List String → Bool
unfolding contains
is_running id servers = contains id servers

-- The end of StartSite, by what the system answers.
abbrev pub opened : Listen → String → String → List String → Started
opened (stat_fails e) id webroot servers = start_error ("webroot " ++ (webroot ++ (": " ++ e)))
opened (listen_fails e) id webroot servers = start_error ("start site " ++ (id ++ (": " ++ e)))
opened not_dir id webroot servers = start_error ("webroot " ++ (webroot ++ " is not a directory"))
opened opens id webroot servers = started (List.◌++◌ servers (id ∷ []))

unfoldable pub start_site : Listen → String → String → List String → Started
start_site answer id webroot servers =
    if is_running id servers
    then start_error ("site " ++ (id ++ " is already running"))
    else if str_eq webroot ""
    then start_error "webroot is required"
    else opened answer id webroot servers

-- StopSite answers nil always: an error of Shutdown is logged only.
unfoldable pub stop_site : String → List String → List String
unfolding remove
stop_site id servers = remove id servers
