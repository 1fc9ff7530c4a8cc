-- ===== src/Dashboard/Tester/View.antt =====
-- What RequestExplorer.tsx and Routes.tsx render of an explanation and of the configured routes,
-- without the styling.
use Prim.Native.String.{◌++◌}
use go_php.Prelude.{
  String, Option, none, some, Bool, true, false, List, [], ◌∷◌, map, length, if◌then◌else◌,
}
use go_php.Prelude.Decimal.{print_ℕ}
use go_php.Dashboard.Types.{Explanation, ConfigRoute, GatewayConfig}
use go_php.Dashboard.Client.{or_else}
use go_php.Dashboard.Sites.{or_empty}

-- A line of a card: its label, its text, and whether it is marked as an error.
pub record Line : Type 0 where
  pub label : String
  pub text : String
  pub bad : Bool

abbrev plain : String → String → Line
plain l t = record { label = l; text = t; bad = false }

abbrev bool_text : Bool → String
bool_text true = "true"
bool_text false = "false"

-- The summary box and the four cards of the explorer.
unfoldable pub normalization_card : Explanation → List Line
normalization_card r =
    plain "Raw Target:" r.path_normalization.raw
    ∷ plain "Normalized:" r.path_normalization.normalized
    ∷ (if r.path_normalization.valid
        then plain "Status:" "Valid (No Traversal)"
        else record { label = "Status:"; text = "Rejected"; bad = true })
    ∷ []

-- result.policy_check.matched_rules?.length || 0
unfoldable pub policy_card : Explanation → List Line
policy_card r =
    plain "WAF Decision:" r.policy_check.decision
    ∷ plain "Matched Rules:" (print_ℕ (length (or_empty r.policy_check.matched_rules)) ++ " rules")
    ∷ []

unfoldable pub file_card : Explanation → List Line
file_card r =
    (if r.file_check.protected
      then record { label = "Protected File Check:"; text = "Protected (Denied)"; bad = true }
      else plain "Protected File Check:" "Allowed")
    ∷ plain "File Target Found:" (bool_text r.file_check.found)
    ∷ []

unfoldable pub script_card : Explanation → List Line
script_card r =
    plain "SCRIPT_NAME:" r.script_check.script_name
    ∷ plain "SCRIPT_FILENAME:" r.script_check.script_path
    ∷ []

-- The result box of the route tester.
unfoldable pub test_result : Explanation → String × List Line
test_result r = (
  r.summary,
  plain "Normalized Path:" r.path_normalization.normalized
      ∷ plain "Policy Decision:" r.policy_check.decision
      ∷ [],
)

-- The routes that are listed while the configuration has none.
default_routes : List ConfigRoute
default_routes =
    record {
      host = some "*";
      path = some "/*";
      path_prefix = none;
      target = some "index.php";
      type = some "php_front_controller";
    }
    ∷ record {
      host = some "*";
      path = some "/assets/*";
      path_prefix = none;
      target = some "public/assets";
      type = some "static";
    }
    ∷ []

-- config?.routes || [...]; an empty list is truthy
unfoldable pub listed_routes : Option GatewayConfig → List ConfigRoute
unfolding default_routes
listed_routes none = default_routes
listed_routes (some c) = elim c.routes [ none ↦ default_routes | some rs ↦ rs ]

pub record Row : Type 0 where
  pub host : String
  pub pattern_ : String
  pub target : Option String
  pub type : String

-- r.host || '*', r.path || r.path_prefix || '/*', r.type || 'front_controller'
unfoldable pub route_row : ConfigRoute → Row
route_row r = record {
  host = or_else r.host "*";
  pattern_ = or_else r.path (or_else r.path_prefix "/*");
  target = r.target;
  type = or_else r.type "front_controller";
}

unfoldable pub route_rows : Option GatewayConfig → List Row
unfolding listed_routes route_row
route_rows c = map route_row (listed_routes c)
