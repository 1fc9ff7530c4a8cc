-- ===== src/Dashboard/Json.antt =====
-- JavaScript values, as far as the configuration page walks them, and the object that
-- `GET /api/config` yields for a configuration (dashboard/src/types/index.ts, GatewayConfig).
use go_php.Prelude.{String, Option, none, some, Bool, List, [], ◌∷◌, str_eq, if◌then◌else◌}
use go_php.Prelude.Int.{ℤ, pos}
use go_php.Dashboard.Types.{
  Site, SiteStatus, active, stopped, error, GatewayConfig, ServerSection, PhpSection,
  LoggingSection, SecuritySection, ConfigRoute,
}

mutual
  pub data Json : Type 0 where
    undefined : Json
    text : String → Json
    num : ℤ → Json
    bool : Bool → Json
    array : Items → Json
    object : Fields → Json

  pub data Items : Type 0 where
    nil : Items
    cons : Json → Items → Items

  pub data Fields : Type 0 where
    end : Fields
    field : String → Json → Fields → Fields

-- obj[k]
unfoldable pub get_field : String → Fields → Json
get_field k end = undefined
get_field k (field j v m) = if str_eq j k then v else get_field k m

-- obj[k] = v: a key that is there keeps its place, a new one goes to the end.
unfoldable pub set_field : String → Json → Fields → Fields
set_field k v end = field k v end
set_field k v (field j w m) = if str_eq j k then field j v m else field j w (set_field k v m)

abbrev texts : List String → Items
texts [] = nil
texts (s ∷ ss) = cons (text s) (texts ss)

-- A member that is undefined is left out.
abbrev optional : String → Option String → Fields → Fields
optional k none m = m
optional k (some s) m = field k (text s) m

abbrev status_name : SiteStatus → String
status_name active = "active"
status_name stopped = "stopped"
status_name error = "error"

abbrev optional_texts : String → Option (List String) → Fields → Fields
optional_texts k none m = m
optional_texts k (some ss) m = field k (array (texts ss)) m

abbrev site_json : Site → Json
site_json s = object (
    field "id" (text s.id) (
      field "name" (text s.name) (
        field "port" (num s.port) (
          field "webroot" (text s.webroot) (
            field "domain" (text s.domain) (
              field "php_version" (text s.php_version) (
                field "status" (text (status_name s.status)) (
                  field "routes" (num (pos s.routes)) (
                    field "ssl" (bool s.ssl) (
                      field "created_at" (text s.created_at) (
                        field "updated_at" (text s.updated_at) (
                          optional_texts "extensions" s.extensions
                            (optional "profile" s.profile end)))))))))))))

abbrev sites_json : List Site → Items
sites_json [] = nil
sites_json (s ∷ ss) = cons (site_json s) (sites_json ss)

abbrev route_json : ConfigRoute → Json
route_json r = object (
    optional "host" r.host (
      optional "path" r.path (
        optional "path_prefix" r.path_prefix
          (optional "target" r.target (optional "type" r.type end)))))

abbrev routes_json : List ConfigRoute → Items
routes_json [] = nil
routes_json (r ∷ rs) = cons (route_json r) (routes_json rs)

abbrev optional_routes : Option (List ConfigRoute) → Fields → Fields
optional_routes none m = m
optional_routes (some rs) m = field "routes" (array (routes_json rs)) m

abbrev server_json : ServerSection → Json
server_json s = object (
    field "addr" (text s.addr) (
      field "read_timeout" (text s.read_timeout)
        (field "write_timeout" (text s.write_timeout) end)))

abbrev php_json : PhpSection → Json
php_json p = object (
    field "binary" (text p.binary) (
      field "socket_path" (text p.socket_path) (
        field "max_children" (num p.max_children)
          (field "request_timeout" (text p.request_timeout) end))))

abbrev logging_json : LoggingSection → Json
logging_json l = object (field "format" (text l.format) (field "level" (text l.level) end))

abbrev security_json : SecuritySection → Json
security_json s = object (
    field "symlink_mode" (text s.symlink_mode) (
      field "max_body_size" (text s.max_body_size)
        (field "protected_patterns" (array (texts s.protected_patterns)) end)))

abbrev pub config_json : GatewayConfig → Json
config_json c = object (
    field "schema" (text c.schema) (
      field "server" (server_json c.server) (
        field "php" (php_json c.php) (
          field "logging" (logging_json c.logging) (
            field "security" (security_json c.security)
              (optional_routes c.routes (field "sites" (array (sites_json c.sites)) end)))))))
