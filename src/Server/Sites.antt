-- ===== src/Server/Sites.antt =====
-- `handleSites` and `handleSiteByID` of internal/ui/handlers.go: the list of sites, their servers and
-- the log. The handlers hold no lock: a request is one step where no other one overlaps it. A list that the
-- code changes in place is a new list.
pub mod Ids
pub mod Running
pub mod Create
pub mod Overlap
use mathlib.Core.List
use go_php.Prelude.{
  ℕ, String, Option, none, some, List, [], ◌∷◌, map, Bool, true, false, not, ◌&&◌, ◌||◌, str_eq,
  ltb, ◌==◌, if◌then◌else◌,
}
use go_php.Prelude.Text.{◌++◌}
use go_php.Prelude.Int.{ℤ, pos, negsuc}
use go_php.Prelude.Decimal.{print_ℤ}
use go_php.Server.LogBuffer.{LogBuffer, add}
use go_php.Server.SiteManager.{
  Listen, Started, start_error, started, is_running, start_site, stop_site,
}
use go_php.Server.SitePath.{generate_id}

pub record SiteConfig : Type 0 where
  pub id : String
  pub name : String
  pub port : ℤ
  pub webroot : String
  pub domain : String
  pub root : String
  pub php_version : String
  pub status : String
  pub routes : ℤ
  pub ssl : Bool
  pub headers : List (String × String)
  pub extensions : List String
  pub profile : String
  pub created_at : String
  pub updated_at : String

pub record LogLine : Type 0 where
  pub level : String
  pub message : String

-- `sites` is the atomic pointer, `none` while it is nil; `servers` are the keys of the site manager.
pub record State : Type 0 where
  pub sites : Option (List SiteConfig)
  pub servers : List String
  pub logs : LogBuffer LogLine

-- What the system answers during one request: the clock, the default webroot of an id, the error of
-- MkdirAll, the start of a server, and Go's quoting of a text.
pub record System : Type 0 where
  pub now : String
  pub default_webroot : String → String
  pub mkdir_error : Option String
  pub listen : Listen
  pub quoted : String → String

pub data Response : Type 0 where
  site_list : List SiteConfig → Response
  one_site : SiteConfig → Response
  deleted : Response
  failed : ℕ → String → Response

unfoldable pub log : String → String → State → State
unfolding add
log level message s = record s { logs = add (record { level = level; message = message }) s.logs }

abbrev pub listed : State → List SiteConfig
listed s = elim s.sites [ none ↦ [] | some ss ↦ ss ]

-- GET: the status that is shown.
unfoldable pub annotate : List String → SiteConfig → SiteConfig
unfolding is_running
annotate servers c =
    if is_running c.id servers
    then record c { status = "active" }
    else if str_eq c.status "active"
    then record c { status = "stopped" }
    else c

unfoldable pub list_sites : State → Response
unfolding annotate
list_sites s = site_list (map (annotate s.servers) (listed s))

unfoldable pub is_port : ℤ → Bool
is_port (pos n) = ltb 0 n && ltb n 65536
is_port (negsuc n) = false

abbrev same_int : ℤ → ℤ → Bool
same_int (pos m) (pos n) = m == n
same_int (negsuc m) (negsuc n) = m == n
same_int _ _ = false

-- The first site with the port.
abbrev port_owner : ℤ → List SiteConfig → Option SiteConfig
port_owner p [] = none
port_owner p (c ∷ cs) = let rest = port_owner p cs in if same_int c.port p then some c else rest

-- The request's site, completed.
abbrev completed : System → SiteConfig → SiteConfig
completed y c =
    let id = generate_id c.name in
    record c {
      id = id;
      created_at = y.now;
      updated_at = y.now;
      status = if str_eq c.status "" then "active" else c.status;
      webroot = if str_eq c.webroot "" then y.default_webroot id else c.webroot;
    }

-- The end of POST, once the server has been started or not; `loaded` is the list that was loaded before.
abbrev pub created : List SiteConfig → SiteConfig → Started → State → State × Response
created loaded c (start_error e) s = (
  log "error" ("failed to start site " ++ (c.name ++ (": " ++ e))) s,
  failed 500 ("failed to start site server: " ++ e),
)
created loaded c (started servers) s = (
  log "info"
      ("site created and started: "
        ++ (c.name ++ (" (port " ++ (print_ℤ c.port ++ (", webroot: " ++ (c.webroot ++ ")"))))))
      (record s { sites = some (List.◌++◌ loaded (c ∷ [])); servers = servers }),
  one_site c,
)

abbrev pub unless_taken :
    System → SiteConfig → List SiteConfig → State → Option SiteConfig → State × Response
unless_taken y c loaded s (some o) = (
  s,
  failed 409 ("port " ++ (print_ℤ c.port ++ (" is already in use by site " ++ y.quoted o.name))),
)
unless_taken y c loaded s none = created loaded c (start_site y.listen c.id c.webroot s.servers) s

-- POST from the check for port conflicts on. No lock is held between the load and the store, so that
-- the state may have changed since.
unfoldable pub create_over : System → SiteConfig → List SiteConfig → State → State × Response
create_over y c loaded s = unless_taken y c loaded s (port_owner c.port loaded)

-- POST, with no other request in between; the body is `none` if it does not decode.
unfoldable pub create_site : System → Option SiteConfig → State → State × Response
create_site y none s = (s, failed 400 "invalid request body")
create_site y (some body) s =
    let c = completed y body in
    if not (is_port c.port) then (s, failed 400 "invalid port number") else elim y.mkdir_error [
      | some e ↦ (s, failed 500 ("failed to create webroot: " ++ e))
      | none ↦ create_over y c (listed s) s
    ]

-- The first site with the id, and the list with that place changed or cut out.
unfoldable pub lookup_site : String → List SiteConfig → Option SiteConfig
lookup_site id [] = none
lookup_site id (c ∷ cs) = let rest = lookup_site id cs in if str_eq c.id id then some c else rest

unfoldable pub replace_site : String → SiteConfig → List SiteConfig → List SiteConfig
replace_site id d [] = []
replace_site id d (c ∷ cs) =
    let rest = replace_site id d cs in if str_eq c.id id then d ∷ cs else c ∷ rest

unfoldable pub cut_site : String → List SiteConfig → List SiteConfig
cut_site id [] = []
cut_site id (c ∷ cs) = let rest = cut_site id cs in if str_eq c.id id then cs else c ∷ rest

unfoldable pub get_site : String → State → Response
unfolding lookup_site
get_site id s = elim (lookup_site id (listed s)) [
  | none ↦ failed 404 "site not found"
  | some c ↦ one_site c
]

-- PUT: the site that is stored unless its server cannot be started.
abbrev merged : System → String → SiteConfig → SiteConfig → SiteConfig
merged y id old body = record body { id = id; created_at = old.created_at; updated_at = y.now }

abbrev needs_restart : SiteConfig → SiteConfig → Bool
needs_restart new old =
    not (same_int new.port old.port)
    || not (str_eq new.webroot old.webroot)
    || not (str_eq new.status old.status)

unfoldable pub store : String → SiteConfig → State → State
unfolding replace_site
store id c s = record s { sites = some (replace_site id c (listed s)) }

abbrev updated : String → SiteConfig → State → State × Response
updated id c s = (log "info" ("site updated: " ++ c.name) (store id c s), one_site c)

abbrev restarted : String → SiteConfig → Started → State → State × Response
restarted id c (start_error e) s = (
  store id (record c { status = "error" })
      (log "error" ("failed to start site " ++ (c.name ++ (": " ++ e))) s),
  failed 500 ("failed to start site server: " ++ e),
)
restarted id c (started servers) s = updated id c (record s { servers = servers })

abbrev stopped : String → State → State
stopped id s = record s {
  servers = if is_running id s.servers then stop_site id s.servers else s.servers;
}

unfoldable pub replace_with : System → String → SiteConfig → SiteConfig → State → State × Response
replace_with y id c old s =
    if needs_restart c old
    then (if str_eq c.status "active"
        then restarted id c (start_site y.listen id c.webroot (stopped id s).servers) (stopped id s)
        else updated id c (stopped id s))
    else updated id c s

unfoldable pub update_site : System → String → Option SiteConfig → State → State × Response
update_site y id body s = elim (lookup_site id (listed s)) [
  | none ↦ (s, failed 404 "site not found")
  | some old ↦ elim body [
    | none ↦ (s, failed 400 "invalid request body")
    | some b ↦ replace_with y id (merged y id old b) old s
  ]
]

unfoldable pub delete_site : String → State → State × Response
delete_site id s = elim (lookup_site id (listed s)) [
  | none ↦ (s, failed 404 "site not found")
  | some c ↦ (
    log "info" ("site deleted: " ++ c.name)
        (record s { servers = stop_site c.id s.servers; sites = some (cut_site id (listed s)) }),
    deleted,
  )
]

-- Requests that change the state. A step is a whole request: the next one begins when it has ended.
pub data Request : Type 0 where
  creates : System → Option SiteConfig → Request
  updates : System → String → Option SiteConfig → Request
  deletes : String → Request

unfoldable pub step : State → Request → State
step s (creates y b) = (create_site y b s).0
step s (updates y id b) = (update_site y id b s).0
step s (deletes id) = (delete_site id s).0

unfoldable pub run : State → List Request → State
run s [] = s
run s (r ∷ rs) = run (step s r) rs
