-- ===== src/Witnesses/Operations.antt =====
-- Releases, canaries and the watchdog at concrete inputs.
use go_php.Prelude.{
  ℕ, str_eq, if◌then◌else◌, ltb, ◌-◌, ◌+◌, ◌*◌, ◌/◌, ◌≤◌, ◌<◌, ◌≡◌, refl, String, List, [], ◌∷◌,
  none, some, true, false, arith,
}
use go_php.Prelude.Text.{◌++◌}
use go_php.Prelude.Int.{pos, negsuc, pos_part}
use go_php.Gateway.Deploy.{System, new_manager, release_id}
use go_php.Gateway.Deploy.Switcher.{directory, regular, status}
use go_php.Gateway.Deploy.Machine
use go_php.Gateway.Deploy.Machine.{
  Op, creates, activates, deactivates, rolls_back, archives, deploys,
}
use go_php.Gateway.Deploy.Active.{OneActive}
use go_php.Gateway.Deploy.Active.Runs.{run-new_manager-OneActive}
use go_php.Gateway.Deploy.History.{InOrder}
use go_php.Gateway.Deploy.History.Refines.{Refines}
use go_php.Gateway.Deploy.Canary.{current_weight}
use go_php.Gateway.Deploy.Canary.Share
use go_php.Gateway.Deploy.Canary.Share.{
  Event, starts, increases, routed, routed-run, ClockOnlyOnFailure,
}
use go_php.Gateway.RateLimit.{Floats, new_per_route}
use go_php.Gateway.RateLimit.Bounds
use go_php.Gateway.RateLimit.Bounds.{
  Event as RateEvent, requests, sets_route, cleans, AllBounded, run-new_per_route-AllBounded,
}
use go_php.Gateway.Watchdog.{
  WatchdogConfig, ready, full_delay, backoff, doubled, check, is_circuit_open, record_healthy,
  restart, kept,
}
use go_php.Gateway.Watchdog.Backoff.{power, least, backoff_bounds}
use go_php.Gateway.Watchdog.Rate
use go_php.Gateway.Watchdog.Rate.{Check, fresh, last_time, recent}
use go_php.Gateway.Watchdog.Limits.Promises.{recent-run-le, run-restarts_again}

-- A system on which everything succeeds, at a time.
abbrev at : ℕ → System
at t = record {
  stop_time = t;
  now = t + 1;
  archive_dir = λ id. "/srv/releases/archive/" ++ id;
  copy_error = none;
  save_error = none;
  symlink_error = none;
  rename_error = none;
  removes = true;
}

abbrev no_link : System
no_link = record (at 40) { symlink_error = some "read-only file system" }

abbrev one : String
one = release_id "1" 11

abbrev two : String
two = release_id "2" 21

-- Two releases, a switch, a rollback, and a deployment whose link cannot be made.
abbrev operations : List Op
operations =
    creates (at 10) "1" "8.3" []
    ∷ activates (at 12) one
    ∷ creates (at 20) "2" "8.3" []
    ∷ activates (at 22) two
    ∷ rolls_back (at 30)
    ∷ deploys no_link (record { health_url = ""; entrypoints = [] })
        (record { stat = λ p. directory; join = λ ps. ""; health = status 200 })
        (record { pre_activate = none; applier = none; post_activate = none }) "3" "8.3" [] []
    ∷ archives (λ rs. rs) 1
    ∷ []

run-new_manager-OneActive_example : OneActive (Machine.run new_manager operations)
run-new_manager-OneActive_example = run-new_manager-OneActive operations

abbrev there_and_back : List Op
there_and_back =
    creates (at 10) "1" "8.3" []
    ∷ activates (at 12) one
    ∷ deploys (at 20) (record { health_url = ""; entrypoints = [] })
        (record {
          stat = λ p. if str_eq p "index" then regular else directory;
          join = λ ps. "index";
          health = status 200;
        })
        (record { pre_activate = none; applier = none; post_activate = none }) "2" "8.3" [] []
    ∷ rolls_back (at 30)
    ∷ deactivates (at 40)
    ∷ []

abbrev events : List Event
events = starts "a" "b" (pos 10) ∷ increases (pos 25) ∷ increases (negsuc 4) ∷ []

routed-run_example :
    (routed 100 (Share.run (record { canary = none; manager = new_manager }) events).canary
      ≡ pos_part (
          current_weight
            (Share.run (record { canary = none; manager = new_manager }) events).canary))
    × ClockOnlyOnFailure (Share.run (record { canary = none; manager = new_manager }) events).canary
routed-run_example = routed-run events new_manager (omega arith, tt)

-- Two restarts in ten units of time, and a cooldown of ten.
abbrev small : WatchdogConfig
small = record {
  interval = 1;
  min_backoff = 1;
  max_backoff = 8;
  max_restarts = 2;
  restart_window = 10;
  circuit_cooldown = 10;
}

abbrev fails_at : ℕ → Check
fails_at t = record { now = t; state = ready; healthy = false }

-- The circuit opens at 3, and is closed by the healthy check at 16, between two restarts and two.
abbrev checks : List Check
checks =
    fails_at 1
    ∷ fails_at 2
    ∷ fails_at 3
    ∷ fails_at 14
    ∷ fails_at 15
    ∷ record { now = 16; state = ready; healthy = true }
    ∷ fails_at 17
    ∷ fails_at 18
    ∷ []

checks-InOrder : Rate.InOrder 0 checks
checks-InOrder = (
  omega arith,
  (
    omega arith,
    (omega arith, (omega arith, (omega arith, (omega arith, (omega arith, (omega arith, tt)))))),
  ),
)

recent-run-le_example : recent 10 (last_time 0 checks) (Rate.run small fresh checks).log ≤ 4
recent-run-le_example = recent-run-le small checks (omega arith) checks-InOrder

run-restarts_again_example :
    (Rate.step small (Rate.run small fresh checks) (fails_at 28)).log
    ≡ 28 ∷ (Rate.run small fresh checks).log
run-restarts_again_example =
    run-restarts_again small checks (fails_at 28) (omega arith) (omega arith) checks-InOrder refl
      refl (omega arith)

-- The fourth attempt waits for half of eight at least.
draw_below : 3 < full_delay small 3 / 2
unfolding full_delay doubled
draw_below = omega arith

backoff_bounds_example :
    (backoff small 3 (some 3) ≤ least (1 * power 3) 8)
    × (least (1 * power 3) 8 ≤ 2 * backoff small 3 (some 3) + 1)
backoff_bounds_example = backoff_bounds small 3 (some 3) draw_below

-- The bound is reached: 14, 15, 17 and 18 are in one window.
checks-log : recent 10 (last_time 0 checks) (Rate.run small fresh checks).log ≡ 4
unfolding Rate.run Rate.step check is_circuit_open record_healthy restart kept
checks-log = refl

-- Whole tokens in the place of float64.
abbrev whole : Floats ℕ
whole = record {
  of_int = pos_part;
  add = λ a b. a + b;
  sub = λ a b. a - b;
  mul = λ a b. a * b;
  div = λ a b. a / b;
  less = ltb;
  one = 1;
  sixty = 60;
  seconds = λ a b. (b - a) / 1000000000;
}

abbrev visits : List RateEvent
visits =
    sets_route "/login" (pos 1) (pos 0)
    ∷ requests 5 "/login" "10.0.0.1"
    ∷ requests 6 "/login" "10.0.0.1"
    ∷ requests 7 "/" "10.0.0.2"
    ∷ cleans 400000000000
    ∷ []

run-new_per_route-AllBounded_example : AllBounded (Bounds.run whole (new_per_route (pos 60)) visits)
run-new_per_route-AllBounded_example = run-new_per_route-AllBounded whole (pos 60) visits
