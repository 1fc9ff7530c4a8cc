-- ===== src/Dashboard/Overview/Home.antt =====
-- dashboard/src/pages/Dashboard.tsx: the three fetches of the page, its poll, its quick actions, and
-- what it shows of them. The charts are drawn by a library from the fields that `Chart` names.
use go_php.Prelude.{ℕ, String, Option, none, some, true, List, [], ◌∷◌, ◌≡◌, refl, if◌then◌else◌}
use go_php.Dashboard.Types.{GatewayStatus, SystemInfo, MetricPoint}
use go_php.Dashboard.Hooks.{Fetch, load, settle, resolved}
use go_php.Dashboard.Overview.{StatCard, stat_cards, engine_rows, system_rows}

-- The answer of /metrics/history.
pub record Metrics (Float : Type 0) : Type 0 where
  pub history : List (MetricPoint Float)

pub record Page (Float : Type 0) : Type 0 where
  pub status : Fetch GatewayStatus
  pub system : Fetch (SystemInfo Float)
  pub metrics : Fetch (Metrics Float)

pub data Mark : Type 0 where
  area bar : Mark

pub record Chart (Float : Type 0) : Type 0 where
  pub title : String
  pub points : List (MetricPoint Float)
  pub mark : Mark
  pub x_key : String
  pub y_key : String

pub record Overview (Float : Type 0) : Type 0 where
  pub cards : List StatCard
  pub throughput : Chart Float
  pub latency : Chart Float
  pub engine : List (String × String)
  pub host : Option (List (String × String))

pub data Body (Float : Type 0) : Type 0 where
  loading_text : Body Float
  overview : Overview Float → Body Float

-- A quick action: its text, and the page that it opens.
abbrev quick_actions : List (String × String)
quick_actions =
    ("Run Doctor", "/doctor") ∷ ("Trace Request", "/explorer") ∷ ("Manage Sites", "/sites") ∷ []

module _ {Float : Type 0} where
  -- useInterval's callback, every 5000 milliseconds: the host is not asked again.
  unfoldable poll : Page Float → Page Float
  poll p = record p { status = load p.status; metrics = load p.metrics }

  -- metricsData?.history || []
  abbrev history_of : Option (Metrics Float) → List (MetricPoint Float)
  history_of none = []
  history_of (some m) = m.history

  abbrev throughput_chart : List (MetricPoint Float) → Chart Float
  throughput_chart ps = record {
    title = "Request Throughput (Req/sec)";
    points = ps;
    mark = area;
    x_key = "timestamp";
    y_key = "requests";
  }

  abbrev latency_chart : List (MetricPoint Float) → Chart Float
  latency_chart ps = record {
    title = "Latency Distribution (ms)";
    points = ps;
    mark = bar;
    x_key = "timestamp";
    y_key = "latency_ms";
  }

  module _ (locale : ℕ → String) (fixed : Float → String) where
    host_rows : Option (SystemInfo Float) → Option (List (String × String))
    host_rows none = none
    host_rows (some s) = some (system_rows fixed s)

    unfoldable overview_of :
        GatewayStatus → Option (SystemInfo Float) → List (MetricPoint Float) → Overview Float
    unfolding host_rows
    overview_of s h ps = record {
      cards = stat_cards locale s;
      throughput = throughput_chart ps;
      latency = latency_chart ps;
      engine = engine_rows s;
      host = host_rows h;
    }

    shown : Option GatewayStatus → Page Float → Body Float
    shown none p = loading_text
    shown (some s) p = overview (overview_of s p.system.value (history_of p.metrics.value))

    -- if (loading || !status), and what follows it
    unfoldable body : Page Float → Body Float
    unfolding shown
    body p = if p.status.loading then loading_text else shown p.status.value p

    -- Every poll takes the page away until the status has answered.
    body-poll : (p : Page Float) → body (poll p) ≡ loading_text
    unfolding body poll load
    body-poll p = refl

    -- Once a poll of a mounted page has been answered, with a status and with metrics, the page shows
    -- that status and those metrics, beside what it knew of the host.
    body-poll-resolved :
        (p : Page Float) (s : GatewayStatus) (m : Metrics Float)
        → p.status.mounted ≡ true
        → p.metrics.mounted ≡ true
        → let q = poll p in
          body (record q {
            status = settle (resolved s) q.status;
            metrics = settle (resolved m) q.metrics;
          })
          ≡ overview (overview_of s p.system.value m.history)
    unfolding body shown poll load settle
    body-poll-resolved p s m hs hm = rw (hs, hm)
