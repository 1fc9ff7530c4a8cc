-- ===== src/Gateway/Watchdog/Limits.antt =====
-- The circuit and the restarts over sequences of checks.
pub mod Promises
use go_php.Prelude.{
  ℕ, zero, suc, ◌+◌, ◌*◌, ◌≤◌, ◌<◌, ◌≡◌, refl, Option, none, some, List, [], ◌∷◌, ◌++◌, Bool, true,
  false, ◌&&◌, arith, ltb, leb, length, length-append, inl, inr, Bool-cases, Option-cases,
  if◌then◌else◌, ◌∙◌, ap, sym, All,
}
use go_php.Gateway.Watchdog.{
  WatchdogConfig, Watchdog, new_watchdog, SupervisorState, watched, is_circuit_open, record_healthy,
  kept, restart, check,
}
use go_php.Gateway.Watchdog.Rate.{
  Check, Logged, noted, step, run, fresh, InOrder, last_time, recent, recent-le_length,
  recent-append_one, recent-kept, UpTo, UpTo-le, kept-UpTo, append_one-UpTo, recent_of_UpTo,
  kept_of_UpTo, recent_later, length-kept-le,
}

-- Between checks, at a time `now`: the restarts that the watchdog has forgotten are at most as many as
-- it may keep, and are older than an open circuit.
pub record Tracks (cfg : WatchdogConfig) (now : ℕ) (s : Logged) (forgotten : List ℕ) : Type 0 where
  pub counts :
      (later : ℕ)
      → now ≤ later
      → recent cfg.restart_window later s.log
        ≡ recent cfg.restart_window later forgotten
          + recent cfg.restart_window later s.watchdog.restarts
  pub few_forgotten : recent cfg.restart_window now forgotten ≤ cfg.max_restarts
  pub few_kept : length s.watchdog.restarts ≤ cfg.max_restarts
  pub past_forgotten : UpTo now forgotten
  pub past_kept : UpTo now s.watchdog.restarts
  pub open_before :
      s.watchdog.circuit_open ≡ true
      → (b : ℕ) × (b + cfg.circuit_cooldown ≡ s.watchdog.circuit_until) × UpTo b forgotten
  pub open_until : s.watchdog.circuit_until ≤ now + cfg.circuit_cooldown

module _ (cfg : WatchdogConfig) (long : cfg.restart_window ≤ cfg.circuit_cooldown) (before : ℕ)
    (now : ℕ) (w : Watchdog) (log forgotten : List ℕ) (forward : before ≤ now)
    (v : Tracks cfg before (record { watchdog = w; log = log }) forgotten) where
  unchanged-Tracks : Tracks cfg now (record { watchdog = w; log = log }) forgotten
  unchanged-Tracks = record {
    counts = λ later l. v.counts later (omega (arith, l));
    few_forgotten =
        omega
          (arith, v.few_forgotten, recent_later cfg.restart_window before now forgotten forward);
    few_kept = v.few_kept;
    past_forgotten = UpTo-le before now forgotten forward v.past_forgotten;
    past_kept = UpTo-le before now w.restarts forward v.past_kept;
    open_before = v.open_before;
    open_until = omega (arith, v.open_until);
  }

  cleared-Tracks :
      w.circuit_open ≡ true
      → w.circuit_until < now
      → Tracks cfg now
          (record { watchdog = record w { circuit_open = false; restarts = [] }; log = log })
          w.restarts
  cleared-Tracks opened over =
      let (b, at, old) = v.open_before opened in
      record {
        counts = λ later l.
            let gone = recent_of_UpTo cfg.restart_window later b forgotten (omega arith) old in
            omega (arith, v.counts later (omega (arith, l)), gone);
        few_forgotten =
            omega (arith, recent-le_length cfg.restart_window now w.restarts, v.few_kept);
        few_kept = omega arith;
        past_forgotten = UpTo-le before now w.restarts forward v.past_kept;
        past_kept = tt;
        open_before = λ no_circuit. absurd (cc);
        open_until = omega (arith, v.open_until);
      }

  opened-Tracks :
      Tracks cfg now
        (record {
          watchdog = record w {
            restarts = kept cfg now w.restarts;
            circuit_open = true;
            circuit_until = now + cfg.circuit_cooldown;
          };
          log = log;
        })
        forgotten
  opened-Tracks = record {
    counts = λ later l.
        v.counts later (omega (arith, l))
        ∙ ap (λ k. recent cfg.restart_window later forgotten + k)
            (sym (recent-kept cfg now later w.restarts l));
    few_forgotten =
        omega
          (arith, v.few_forgotten, recent_later cfg.restart_window before now forgotten forward);
    few_kept = omega (arith, length-kept-le cfg now w.restarts, v.few_kept);
    past_forgotten = UpTo-le before now forgotten forward v.past_forgotten;
    past_kept =
        kept-UpTo cfg now now w.restarts (UpTo-le before now w.restarts forward v.past_kept);
    open_before = λ _. (now, refl, UpTo-le before now forgotten forward v.past_forgotten);
    open_until = omega arith;
  }

  restarted-Tracks :
      length (kept cfg now w.restarts) < cfg.max_restarts
      → (total : ℕ)
      → Tracks cfg now
          (record {
            watchdog = record w {
              restarts = kept cfg now w.restarts ++ now ∷ [];
              total_restart = total;
            };
            log = now ∷ log;
          })
          forgotten
  restarted-Tracks room total = record {
    counts = λ later l. ground (
      arith,
      v.counts later (omega (arith, l)),
      recent-kept cfg now later w.restarts l,
      recent-append_one cfg.restart_window later now (kept cfg now w.restarts),
    );
    few_forgotten =
        omega
          (arith, v.few_forgotten, recent_later cfg.restart_window before now forgotten forward);
    few_kept = omega (arith, length-append (kept cfg now w.restarts) (now ∷ []), room);
    past_forgotten = UpTo-le before now forgotten forward v.past_forgotten;
    past_kept =
        append_one-UpTo now now (kept cfg now w.restarts) (omega arith)
          (kept-UpTo cfg now now w.restarts (UpTo-le before now w.restarts forward v.past_kept));
    open_before = v.open_before;
    open_until = omega (arith, v.open_until);
  }

  restart-Tracks : (f : List ℕ) × Tracks cfg now (noted now log (restart cfg now w)) f
  unfolding restart
  restart-Tracks = elim (Bool-cases (leb cfg.max_restarts (length (kept cfg now w.restarts)))) [
    | inl full ↦ (forgotten, rw full opened-Tracks)
    | inr room ↦ (forgotten, rw room (restarted-Tracks (ground arith) (w.total_restart + 1)))
  ]

  healthy-Tracks :
      (f : List ℕ) × Tracks cfg now (record { watchdog = record_healthy now w; log = log }) f
  unfolding record_healthy
  healthy-Tracks = elim (Bool-cases (w.circuit_open && ltb w.circuit_until now)) [
    | inl over ↦ (w.restarts, rw over (cleared-Tracks (ground arith) (ground arith)))
    | inr still ↦ (forgotten, rw still unchanged-Tracks)
  ]

  pub check-Tracks :
      (state : SupervisorState) (healthy : Bool)
      → (f : List ℕ) × Tracks cfg now (noted now log (check cfg now state healthy w)) f
  unfolding check
  check-Tracks state healthy = elim (Bool-cases (watched state)) [
    | inr other ↦ (forgotten, rw other unchanged-Tracks)
    | inl ours ↦ elim (Bool-cases healthy) [
      | inl well ↦ rw (ours, well) healthy-Tracks
      | inr ill ↦ elim (Bool-cases (is_circuit_open now w)) [
        | inl opened ↦ (forgotten, rw (ours, ill, opened) unchanged-Tracks)
        | inr closed ↦ rw (ours, ill, closed) restart-Tracks
      ]
    ]
  ]
