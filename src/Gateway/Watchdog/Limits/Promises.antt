-- ===== src/Gateway/Watchdog/Limits/Promises.antt =====
-- The watchdog, from its start, over sequences of checks.
use go_php.Prelude.{ℕ, ◌+◌, ◌*◌, ◌≤◌, ◌<◌, ◌≡◌, refl, List, [], ◌∷◌, true, false, arith, leb}
use go_php.Gateway.Watchdog.{WatchdogConfig, watched, is_circuit_open, kept, restart, check}
use go_php.Gateway.Watchdog.Rate.{
  Check, Logged, noted, step, run, fresh, InOrder, last_time, recent, recent-le_length,
  kept_of_UpTo,
}
use go_php.Gateway.Watchdog.Limits.{Tracks, check-Tracks}

run-Tracks :
    (cfg : WatchdogConfig)
    → cfg.restart_window ≤ cfg.circuit_cooldown
    → (cs : List Check) (now : ℕ) (s : Logged) (forgotten : List ℕ) → InOrder now cs
    → Tracks cfg now s forgotten
    → (f : List ℕ) × Tracks cfg (last_time now cs) (run cfg s cs) f
unfolding run step
run-Tracks cfg long [] now s forgotten k v = (forgotten, v)
run-Tracks cfg long (c ∷ cs) now s forgotten k v =
    let (f, v') =
      check-Tracks cfg long now c.now s.watchdog s.log forgotten k.0 v c.state c.healthy in
    run-Tracks cfg long cs c.now (noted c.now s.log (check cfg c.now c.state c.healthy s.watchdog))
      f k.1 v'

fresh-Tracks : (cfg : WatchdogConfig) → Tracks cfg 0 fresh []
fresh-Tracks cfg = record {
  counts = λ later l. refl;
  few_forgotten = omega arith;
  few_kept = omega arith;
  past_forgotten = tt;
  past_kept = tt;
  open_before = λ opened. absurd (cc);
  open_until = omega arith;
}

-- If the cooldown is not shorter than the window, then after any checks in the order of time, the
-- window that ends at the last has at most twice as many restarts as the configuration allows.
pub recent-run-le :
    (cfg : WatchdogConfig) (cs : List Check)
    → cfg.restart_window ≤ cfg.circuit_cooldown
    → InOrder 0 cs
    → recent cfg.restart_window (last_time 0 cs) (run cfg fresh cs).log ≤ 2 * cfg.max_restarts
recent-run-le cfg cs long k =
    let (f, v) = run-Tracks cfg long cs 0 fresh [] k (fresh-Tracks cfg) in
    let s = run cfg fresh cs in
    omega (
      arith,
      v.counts (last_time 0 cs) (omega arith),
      v.few_forgotten,
      v.few_kept,
      recent-le_length cfg.restart_window (last_time 0 cs) s.watchdog.restarts,
    )

-- A failing check of a supervisor that is watched, by which every restart has aged and no circuit is
-- open, restarts the process.
restarts :
    (cfg : WatchdogConfig) (s : Logged) (c : Check)
    → watched c.state ≡ true
    → c.healthy ≡ false
    → is_circuit_open c.now s.watchdog ≡ false
    → kept cfg c.now s.watchdog.restarts ≡ []
    → 0 < cfg.max_restarts
    → (step cfg s c).log ≡ c.now ∷ s.log
unfolding step check restart
restarts cfg s c ours ill closed aged room =
    let allowed : leb cfg.max_restarts 0 ≡ false = ground arith in
    rw (ours, ill, closed, restart, aged, allowed) refl

-- If the cooldown is not shorter than the window and a restart is allowed at all, then whatever checks
-- have been made, a failing check that comes the cooldown or more after the last of them restarts a
-- process that is ready or failed.
pub run-restarts_again :
    (cfg : WatchdogConfig) (cs : List Check) (c : Check)
    → cfg.restart_window ≤ cfg.circuit_cooldown
    → 0 < cfg.max_restarts
    → InOrder 0 cs
    → watched c.state ≡ true
    → c.healthy ≡ false
    → last_time 0 cs + cfg.circuit_cooldown ≤ c.now
    → (step cfg (run cfg fresh cs) c).log ≡ c.now ∷ (run cfg fresh cs).log
run-restarts_again cfg cs c long room k ours ill later =
    let (f, v) = run-Tracks cfg long cs 0 fresh [] k (fresh-Tracks cfg) in
    let s = run cfg fresh cs in
    let closed : is_circuit_open c.now s.watchdog ≡ false =
      unfold is_circuit_open in ground (arith, v.open_until) in
    let aged =
      kept_of_UpTo cfg c.now (last_time 0 cs) s.watchdog.restarts (omega arith) v.past_kept in
    restarts cfg s c ours ill closed aged room
