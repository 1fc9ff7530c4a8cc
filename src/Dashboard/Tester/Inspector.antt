-- ===== src/Dashboard/Tester/Inspector.antt =====
-- dashboard/src/pages/Routes.tsx as a page: the configuration that it fetches, and the route tester,
-- whose handler does what the request explorer's does.
use Prim.Native.String.{◌++◌}
use mathlib.Core.Path.{subst}
use go_php.Prelude.{String, Bool, Option, none, some, List, [], ◌∷◌, length, ◌≡◌, refl, sym}
use go_php.Prelude.Decimal.{print_ℕ}
use go_php.Dashboard.Types.{Explanation, GatewayConfig}
use go_php.Dashboard.Hooks.{Fetch}
use go_php.Dashboard.Hooks as Hooks
use go_php.Dashboard.Tester.{Page, initial}
use go_php.Dashboard.Tester as Tester
use go_php.Dashboard.Tester.Laws.{OneTrace, run-initial-OneTrace}
use go_php.Dashboard.Tester.View.{Line, Row, test_result, route_rows}

pub record Inspector : Type 0 where
  pub config : Fetch GatewayConfig
  pub tester : Page

-- testUrl, testResult and testing are the tester's url, result and loading.
unfoldable first : Inspector
first = record { config = Hooks.initial; tester = initial }

pub data Event : Type 0 where
  fetches : Hooks.Event GatewayConfig → Event
  tests : Tester.Event → Event

unfoldable step : Inspector → Event → Inspector
step p (fetches e) = record p { config = Hooks.step p.config e }
step p (tests e) = record p { tester = Tester.step p.tester e }

unfoldable run : Inspector → List Event → Inspector
run p [] = p
run p (e ∷ es) = run (step p e) es

box : Option Explanation → Option (String × List Line)
box none = none
box (some r) = some (test_result r)

pub record Shown : Type 0 where
  pub input : String
  pub test_disabled : Bool
  pub result : Option (String × List Line)
  pub table_title : String
  pub rows : List Row

unfoldable shown : Inspector → Shown
unfolding box
shown p =
    let rs = route_rows p.config.value in
    record {
      input = p.tester.url;
      test_disabled = p.tester.loading;
      result = box p.tester.result;
      table_title = "Configured Routes (" ++ (print_ℕ (length rs) ++ ")");
      rows = rs;
    }

tests_of : List Event → List Tester.Event
tests_of [] = []
tests_of (fetches e ∷ es) = tests_of es
tests_of (tests e ∷ es) = e ∷ tests_of es

-- The page's tester runs as the explorer does on the events that concern it.
run-tester :
    (p : Inspector) (es : List Event) → (run p es).tester ≡ Tester.run p.tester (tests_of es)
unfolding run step tests_of Tester.run
run-tester p [] = refl
run-tester p (fetches e ∷ es) = run-tester (step p (fetches e)) es
run-tester p (tests e ∷ es) = run-tester (step p (tests e)) es

-- Whatever is fetched, typed, clicked and answered, at most one route test is in flight, and exactly
-- while the button is disabled.
run-first-OneTrace : (es : List Event) → OneTrace (run first es).tester
unfolding first
run-first-OneTrace es =
    subst (λ t. OneTrace t) (sym (run-tester _ es)) (run-initial-OneTrace (tests_of es))
