-- ===== src/Gateway/Watchdog.antt =====
-- internal/supervisor/watchdog.go: health checks, restarts with back-off, and the circuit that stops
-- them. Times are nanoseconds; the clock is read once in each check. Subtractions of durations are
-- written as additions on the other side.
pub mod Backoff
pub mod Rate
pub mod Limits
use go_php.Prelude.{
  ℕ, zero, suc, ◌+◌, ◌-◌, ◌*◌, ◌/◌, Option, none, some, List, [], ◌∷◌, ◌++◌, Bool, true, false,
  ◌&&◌, ltb, leb, length, filter, if◌then◌else◌, ◌==◌,
}

pub record WatchdogConfig : Type 0 where
  pub interval : ℕ
  pub min_backoff : ℕ
  pub max_backoff : ℕ
  pub max_restarts : ℕ
  pub restart_window : ℕ
  pub circuit_cooldown : ℕ

abbrev pub default_config : WatchdogConfig
default_config = record {
  interval = 5000000000;
  min_backoff = 500000000;
  max_backoff = 30000000000;
  max_restarts = 5;
  restart_window = 60000000000;
  circuit_cooldown = 120000000000;
}

-- The configuration that NewWatchdog keeps.
unfoldable pub configured : WatchdogConfig → WatchdogConfig
configured cfg = if cfg.interval == 0 then default_config else cfg

pub record Watchdog : Type 0 where
  pub circuit_open : Bool
  pub circuit_until : ℕ
  pub restarts : List ℕ
  pub total_restart : ℕ

abbrev pub new_watchdog : Watchdog
new_watchdog = record { circuit_open = false; circuit_until = 0; restarts = []; total_restart = 0 }

pub data SupervisorState : Type 0 where
  absent starting ready draining stopping stopped failed : SupervisorState

abbrev pub watched : SupervisorState → Bool
watched ready = true
watched failed = true
watched _ = false

-- CircuitOpen()
unfoldable pub is_circuit_open : ℕ → Watchdog → Bool
is_circuit_open now w = w.circuit_open && ltb now w.circuit_until

unfoldable pub record_healthy : ℕ → Watchdog → Watchdog
record_healthy now w =
    if w.circuit_open && ltb w.circuit_until now
    then record w { circuit_open = false; restarts = [] }
    else w

-- The restarts that have not aged out of the window.
unfoldable pub kept : WatchdogConfig → ℕ → List ℕ → List ℕ
kept cfg now [] = []
kept cfg now (t ∷ ts) =
    let rest = kept cfg now ts in if ltb now (t + cfg.restart_window) then t ∷ rest else rest

-- The first half of restart, under the lock: the attempt that is made, if one is. The back-off, Stop
-- and Start follow.
unfoldable pub restart : WatchdogConfig → ℕ → Watchdog → Watchdog × Option ℕ
restart cfg now w =
    let recent = kept cfg now w.restarts in
    if leb cfg.max_restarts (length recent)
    then (
      record w {
        restarts = recent;
        circuit_open = true;
        circuit_until = now + cfg.circuit_cooldown;
      },
      none,
    )
    else (
      record w { restarts = recent ++ now ∷ []; total_restart = w.total_restart + 1 },
      some (length recent),
    )

-- `healthy` is whether HealthCheck gives no error.
unfoldable pub check : WatchdogConfig → ℕ → SupervisorState → Bool → Watchdog → Watchdog × Option ℕ
check cfg now state healthy w =
    if watched state
    then (if healthy
        then (record_healthy now w, none)
        else if is_circuit_open now w
        then (w, none)
        else restart cfg now w)
    else (w, none)

-- The loop of backoff: `rest` more rounds.
unfoldable pub doubled : ℕ → ℕ → ℕ → ℕ
doubled max zero delay = delay
doubled max (suc rest) delay =
    let next = doubled max rest (delay * 2) in if ltb delay max then next else delay

unfoldable pub full_delay : WatchdogConfig → ℕ → ℕ
full_delay cfg attempt =
    let delay = doubled cfg.max_backoff attempt cfg.min_backoff in
    if ltb cfg.max_backoff delay then cfg.max_backoff else delay

-- `drawn` is the random number below half the delay, or an error.
unfoldable pub backoff : WatchdogConfig → ℕ → Option ℕ → ℕ
backoff cfg attempt drawn =
    let delay = full_delay cfg attempt in
    if delay / 2 == 0 then delay else elim drawn [ none ↦ delay | some n ↦ delay / 2 + n ]
