-- ===== src/Dashboard/Overview.antt =====
-- dashboard/src/pages/Dashboard.tsx, Doctor.tsx and Runtimes.tsx, and the stat card of
-- dashboard/src/components/StatCard.tsx: what they show of the data that they fetch, without the
-- styling that does not depend on it. `toLocaleString` of a count is the parameter `locale`, and
-- `toFixed(1)` of a number with a fraction is `fixed`.
pub mod Uptime
pub mod Home
use Prim.Native.String.{◌++◌}
use go_php.Prelude.{
  ℕ, String, Option, none, some, Bool, true, false, List, [], ◌∷◌, map, length, str_eq, ltb, ◌==◌,
  if◌then◌else◌,
}
use mathlib.Core.List
use go_php.Prelude.Decimal.{print_ℕ}
use go_php.Dashboard.Types.{
  GatewayStatus, SystemInfo, MetricPoint, Runtime, CheckResult, CheckStatus, ok, warn, fail,
  DoctorReport, CompatIssue, CompatReport,
}
use go_php.Dashboard.Hooks.{Fetch}
use go_php.Dashboard.Client.{or_else, or_text}
use go_php.Dashboard.Sites.{or_empty}
use Uptime.{format_uptime}

-- 'accent' | 'success' | 'error' | 'info'
pub data Color : Type 0 where
  accent success error info : Color

unfoldable pub color_map : Color → String
color_map accent = "text-accent bg-accent/10"
color_map success = "text-success bg-success/10"
color_map error = "text-error bg-error/10"
color_map info = "text-info bg-info/10"

pub record StatCard : Type 0 where
  pub label : String
  pub value : String
  pub trend : Option String
  pub color : Color

unfoldable pub stat_cards : (ℕ → String) → GatewayStatus → List StatCard
unfolding format_uptime
stat_cards locale s =
    record { label = "Uptime"; value = format_uptime s.uptime_seconds; trend = none; color = info }
    ∷ record {
      label = "Total Requests";
      value = locale s.total_requests;
      trend = some (print_ℕ s.active_requests ++ " active");
      color = accent;
    }
    ∷ record {
      label = "Configured Sites";
      value = print_ℕ s.sites_count;
      trend = none;
      color = success;
    }
    ∷ record {
      label = "Total Errors";
      value = locale s.total_errors;
      trend = none;
      color = if ltb 0 s.total_errors then error else success;
    }
    ∷ []

-- xs.join(', ')
unfoldable pub join : List String → String
join [] = ""
join (x ∷ []) = x
join (x ∷ y ∷ xs) = x ++ (", " ++ join (y ∷ xs))

abbrev framework_row : String → List (String × String)
framework_row f = if str_eq f "" then [] else ("Detected Framework", f) ∷ []

-- The rows of the engine's table.
unfoldable pub engine_rows : GatewayStatus → List (String × String)
unfolding join
engine_rows s =
    ("Gateway Version", s.version)
    ∷ ("Process PID", print_ℕ s.pid)
    ∷ ("Listening Address", s.addr)
    ∷ ("Document Root", s.doc_root)
    ∷ List.◌++◌ (framework_row s.framework) (
        ("PHP Runtimes", or_text (join s.runtimes) "None detected")
        ∷ ("Active Goroutines", print_ℕ s.goroutines)
        ∷ [])

unfoldable pub system_rows :
    {Float : Type 0} → (Float → String) → SystemInfo Float → List (String × String)
system_rows fixed s =
    ("Hostname", s.hostname)
    ∷ ("OS / Architecture", s.os ++ (" / " ++ s.arch))
    ∷ ("Go Runtime", s.go_version)
    ∷ ("CPU Cores", print_ℕ s.num_cpu)
    ∷ ("Memory (Allocated)", fixed s.mem_alloc_mb ++ " MB")
    ∷ ("Memory (System Sys)", fixed s.mem_sys_mb ++ " MB")
    ∷ ("PID", print_ℕ s.pid)
    ∷ []

-- if (loading || !status): the loading text stands in place of the whole page.
unfoldable pub shows_dashboard : Fetch GatewayStatus → Bool
shows_dashboard f = if f.loading then false else elim f.value [ none ↦ false | some s ↦ true ]

-- Doctor.tsx: the icon and the class of a check.
pub data Icon : Type 0 where
  check_circle alert_triangle x_circle : Icon

unfoldable pub check_icon : CheckStatus → Icon
check_icon ok = check_circle
check_icon warn = alert_triangle
check_icon fail = x_circle

unfoldable pub check_class : CheckStatus → String
check_class ok = "bg-success/10 text-success"
check_class warn = "bg-warning/10 text-warning"
check_class fail = "bg-error/10 text-error"

abbrev check_text : CheckStatus → String
check_text ok = "ok"
check_text warn = "warn"
check_text fail = "fail"

pub record CheckRow : Type 0 where
  pub icon : Icon
  pub name : String
  pub message : String
  pub badge : String
  pub badge_class : String

unfoldable pub check_row : CheckResult → CheckRow
unfolding check_icon check_class
check_row c = record {
  icon = check_icon c.status;
  name = c.name;
  message = c.message;
  badge = check_text c.status;
  badge_class = check_class c.status;
}

abbrev checks_of : Option DoctorReport → List CheckResult
checks_of none = []
checks_of (some r) = r.checks

-- `none` while the checks are loading
unfoldable pub checks_card : Fetch DoctorReport → Option (List CheckRow)
unfolding check_row
checks_card f = if f.loading then none else some (map check_row (checks_of f.value))

-- A recommendation: `[category] message`, and the suggestion if it has one.
unfoldable pub recommendation : CompatIssue → String × Option String
recommendation w = (
  "[" ++ (w.category ++ ("] " ++ w.message)),
  elim w.suggestion [ none ↦ none | some s ↦ if str_eq s "" then none else some s ],
)

pub record CompatCard : Type 0 where
  pub framework : String
  pub score : String
  pub recommendations : List (String × Option String)

unfoldable pub compat_card : CompatReport → CompatCard
unfolding recommendation
compat_card r = record {
  framework = or_else r.framework "Plain PHP";
  score = print_ℕ r.score ++ "/100";
  recommendations = map recommendation (or_empty r.warnings);
}

-- Runtimes.tsx.
pub record RuntimeRow : Type 0 where
  pub title : String
  pub is_active : Bool
  pub binary : String
  pub origin : String
  pub is_ready : Bool
  pub status : String

unfoldable pub runtime_row : Runtime → RuntimeRow
runtime_row r = record {
  title = "PHP " ++ r.version;
  is_active = r.active;
  binary = r.binary;
  origin = if r.managed then "Managed" else "System";
  is_ready = str_eq r.status "ready";
  status = r.status;
}

pub data RuntimesBody : Type 0 where
  scanning no_runtimes : RuntimesBody
  rows : List RuntimeRow → RuntimesBody

rows_of : List Runtime → RuntimesBody
rows_of [] = no_runtimes
rows_of (r ∷ rs) = rows (map runtime_row (r ∷ rs))

-- `${n} runtime${n !== 1 ? 's' : ''} detected`, and the body of the card.
unfoldable pub runtimes_card : Fetch (List Runtime) → String × RuntimesBody
unfolding rows_of runtime_row
runtimes_card f =
    let rs = or_empty f.value in
    (
      print_ℕ (length rs) ++ (" runtime" ++ ((if length rs == 1 then "" else "s") ++ " detected")),
      if f.loading then scanning else rows_of rs,
    )
