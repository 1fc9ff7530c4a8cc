-- ===== src/Dashboard/Sites/View.antt =====
-- What dashboard/src/pages/Sites.tsx renders, without its styling: the heading of the card, its
-- body by the state of the fetch, and a row for each site.
use Prim.Native.String.{◌++◌}
use go_php.Prelude.{
  String, Option, none, some, List, [], ◌∷◌, map, length, str_eq, ◌==◌, if◌then◌else◌,
}
use go_php.Prelude.Decimal.{print_ℤ, print_ℕ}
use go_php.Dashboard.Types.{Site, SiteStatus, active, stopped, error}
use go_php.Dashboard.Sites.{Page, sites}

-- The cell of the extensions: a count, the profile's name, or "default".
unfoldable pub extensions_cell : Option (List String) → Option String → String
extensions_cell (some (x ∷ xs)) profile =
    print_ℕ (length (x ∷ xs)) ++ (" ext" ++ (if length (x ∷ xs) == 1 then "" else "s"))
extensions_cell _ none = "default"
extensions_cell _ (some p) = if str_eq p "" then "default" else p

abbrev pub status_text : SiteStatus → String
status_text active = "active"
status_text stopped = "stopped"
status_text error = "error"

-- The classes of the status badge and of its dot.
abbrev pub status_class : SiteStatus → String
status_class active = "bg-success/10 text-success"
status_class stopped = "bg-bg text-text-muted"
status_class error = "bg-error/10 text-error"

abbrev pub toggle_title : SiteStatus → String
toggle_title active = "Stop"
toggle_title _ = "Start"

pub record Row : Type 0 where
  pub key : String
  pub name : String
  pub port : String
  pub webroot : String
  pub php_version : String
  pub extensions : String
  pub badge : String
  pub badge_class : String
  pub href : String
  pub toggle : String

unfoldable pub row : Site → Row
unfolding extensions_cell
row s = record {
  key = s.id;
  name = s.name;
  port = print_ℤ s.port;
  webroot = s.webroot;
  php_version = s.php_version;
  extensions = extensions_cell s.extensions s.profile;
  badge = status_text s.status;
  badge_class = status_class s.status;
  href = "http://127.0.0.1:" ++ print_ℤ s.port;
  toggle = toggle_title s.status;
}

pub data CardBody : Type 0 where
  loading_text : String → CardBody
  empty_text : String → String → CardBody
  table : List Row → CardBody

-- `${sites.length} site${sites.length !== 1 ? 's' : ''}`
unfoldable pub card_title : Page → String
card_title p =
    print_ℕ (length (sites p)) ++ (" site" ++ (if length (sites p) == 1 then "" else "s"))

body_of : List Site → CardBody
body_of [] = empty_text "No sites yet" "Create your first site to get started"
body_of (s ∷ ss) = table (map row (s ∷ ss))

unfoldable pub card_body : Page → CardBody
unfolding body_of row
card_body p = if p.data_.loading then loading_text "Loading sites..." else body_of (sites p)
