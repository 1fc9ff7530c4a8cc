-- ===== src/Dashboard/Nav.antt =====
-- The shell of the dashboard: the routes of dashboard/src/App.tsx, the sidebar, header and theme of
-- dashboard/src/components/Layout.tsx, and dashboard/src/components/CommandPalette.tsx.
pub mod Laws
pub mod View
use go_php.Prelude.{
  String, Option, none, some, Bool, true, false, ◌||◌, ◌&&◌, not, List, [], ◌∷◌, map, find, filter,
  str_eq, if◌then◌else◌,
}
use go_php.Prelude.Text.{starts_with, includes}

-- The pages that the router mounts, by their paths (App.tsx).
pub data PageName : Type 0 where
  dashboard sites deployments routes runtimes extensions config logs doctor explorer : PageName

abbrev pub app_routes : List (String × PageName)
app_routes =
    ("/", dashboard)
    ∷ ("/sites", sites)
    ∷ ("/deployments", deployments)
    ∷ ("/routes", routes)
    ∷ ("/runtimes", runtimes)
    ∷ ("/extensions", extensions)
    ∷ ("/config", config)
    ∷ ("/logs", logs)
    ∷ ("/doctor", doctor)
    ∷ ("/explorer", explorer)
    ∷ []

pub record NavItem : Type 0 where
  pub to : String
  pub label : String

abbrev item : String → String → NavItem
item t l = record { to = t; label = l }

abbrev pub home : NavItem
home = item "/" "Dashboard"

abbrev pub sections : List NavItem
sections =
    item "/sites" "Sites"
    ∷ item "/deployments" "Deployments"
    ∷ item "/routes" "Routes"
    ∷ item "/runtimes" "Runtimes"
    ∷ item "/extensions" "Extensions"
    ∷ item "/config" "Configuration"
    ∷ item "/logs" "Logs"
    ∷ item "/doctor" "Diagnostics"
    ∷ item "/explorer" "Explorer"
    ∷ []

abbrev pub nav_items : List NavItem
nav_items = home ∷ sections

-- location.pathname === item.to || (item.to !== '/' && location.pathname.startsWith(item.to))
unfoldable pub is_active : String → NavItem → Bool
is_active pathname i = str_eq pathname i.to || (not (str_eq i.to "/") && starts_with pathname i.to)

unfoldable pub active_items : String → List NavItem
unfolding is_active
active_items pathname = filter (is_active pathname) nav_items

-- navItems.find((n) => n.to === location.pathname)?.label || 'Dashboard'
unfoldable pub header_title : String → String
header_title pathname = elim (find (λ (i : NavItem). str_eq i.to pathname) nav_items) [
  | none ↦ "Dashboard"
  | some i ↦ if str_eq i.label "" then "Dashboard" else i.label
]

-- The state of Layout, with the query of the palette that it renders, and what the theme effect
-- leaves outside: the `dark` class and localStorage's "theme".
pub record Shell : Type 0 where
  pub sidebar_open : Bool
  pub palette_open : Bool
  pub dark_mode : Bool
  pub query : String
  pub pathname : String
  pub dark_class : Bool
  pub stored_theme : Option String

-- The effect on [darkMode].
unfoldable pub theme_effect : Shell → Shell
theme_effect s =
    if s.dark_mode
    then record s { dark_class = true; stored_theme = some "dark" }
    else record s { dark_class = false; stored_theme = some "light" }

abbrev is_dark : Option String → Bool
is_dark none = false
is_dark (some t) = str_eq t "dark"

-- The first render at a path, over what localStorage holds.
abbrev pub first_render : Option String → String → Shell
first_render stored at = record {
  sidebar_open = false;
  palette_open = false;
  dark_mode = is_dark stored;
  query = "";
  pathname = at;
  dark_class = false;
  stored_theme = stored;
}

unfoldable pub start : Option String → String → Shell
unfolding theme_effect
start stored at = theme_effect (first_render stored at)

unfoldable pub toggle_theme : Shell → Shell
unfolding theme_effect
toggle_theme s = theme_effect (record s { dark_mode = not s.dark_mode })

-- What an entry of the palette does.
pub data Action : Type 0 where
  navigate : String → Action
  switch_theme : Action

pub record Command : Type 0 where
  pub label : String
  pub action : Action

abbrev go : String → String → Command
go l t = record { label = l; action = navigate t }

unfoldable pub commands : Bool → List Command
commands dark =
    go "Go to Dashboard" "/"
    ∷ go "Manage Sites" "/sites"
    ∷ go "Deployments & Releases" "/deployments"
    ∷ go "Route Inspector" "/routes"
    ∷ go "PHP Runtimes" "/runtimes"
    ∷ go "PHP Extensions" "/extensions"
    ∷ go "Configuration" "/config"
    ∷ go "System Logs" "/logs"
    ∷ go "System Doctor & Health" "/doctor"
    ∷ go "Request Decision Explorer" "/explorer"
    ∷ record {
      label = if dark then "Switch to Light Theme" else "Switch to Dark Theme";
      action = switch_theme;
    }
    ∷ []

-- i.label.toLowerCase().includes(query.toLowerCase()); `lower` is toLowerCase
unfoldable pub matching : (String → String) → Shell → List Command
unfolding commands
matching lower s =
    filter (λ (c : Command). includes (lower c.label) (lower s.query)) (commands s.dark_mode)

-- handleSelect: the action, then onClose.
act : Action → Shell → Shell
act (navigate t) s = record s { pathname = t }
act switch_theme s = toggle_theme s

unfoldable pub select : Action → Shell → Shell
unfolding act
select a s = let t = act a s in record t { palette_open = false }

-- The palette's key handler; `modifier` is metaKey || ctrlKey.
unfoldable pub key_down : Bool → String → Shell → Shell
key_down modifier key s =
    let t =
      if modifier && str_eq key "k"
      then (if s.palette_open then record s { palette_open = false } else record s { query = "" })
      else s in
    if str_eq key "Escape" && s.palette_open then record t { palette_open = false } else t

pub data Event : Type 0 where
  opens_sidebar closes_sidebar opens_palette closes_palette toggles_theme : Event
  follows types : String → Event
  selects : Action → Event
  presses : Bool → String → Event

unfoldable pub step : Shell → Event → Shell
unfolding select key_down toggle_theme
step s opens_sidebar = record s { sidebar_open = true }
step s closes_sidebar = record s { sidebar_open = false }
step s opens_palette = record s { palette_open = true }
step s closes_palette = record s { palette_open = false }
step s toggles_theme = toggle_theme s
step s (follows t) = record s { pathname = t; sidebar_open = false }
step s (types q) = if s.palette_open then record s { query = q } else s
step s (selects a) = if s.palette_open then select a s else s
step s (presses m k) = key_down m k s

unfoldable pub run : Shell → List Event → Shell
run s [] = s
run s (e ∷ es) = run (step s e) es
