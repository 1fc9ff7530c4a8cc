-- ===== src/Gateway/Watchdog/Rate.antt =====
-- How often a process is restarted.
use go_php.Prelude.{
  ℕ, suc, ◌+◌, ◌≤◌, ◌≡◌, refl, Option, none, some, List, [], ◌∷◌, ◌++◌, Bool, arith, ltb, length,
  inl, inr, Bool-cases, if◌then◌else◌, All,
}
use go_php.Gateway.Watchdog.{WatchdogConfig, Watchdog, new_watchdog, SupervisorState, kept, check}

-- A check: when, the state of the supervisor and whether the process is healthy.
pub record Check : Type 0 where
  pub now : ℕ
  pub state : SupervisorState
  pub healthy : Bool

-- The watchdog with the times of all restarts.
pub record Logged : Type 0 where
  pub watchdog : Watchdog
  pub log : List ℕ

abbrev pub noted : ℕ → List ℕ → Watchdog × Option ℕ → Logged
noted now log (w, none) = record { watchdog = w; log = log }
noted now log (w, some attempt) = record { watchdog = w; log = now ∷ log }

unfoldable pub step : WatchdogConfig → Logged → Check → Logged
step cfg s c = noted c.now s.log (check cfg c.now c.state c.healthy s.watchdog)

unfoldable pub run : WatchdogConfig → Logged → List Check → Logged
run cfg s [] = s
run cfg s (c ∷ cs) = run cfg (step cfg s c) cs

abbrev pub fresh : Logged
fresh = record { watchdog = new_watchdog; log = [] }

-- The checks come in the order of time, from a time on.
abbrev pub InOrder : ℕ → List Check → Type 0
InOrder now [] = Unit
InOrder now (c ∷ cs) = (now ≤ c.now) × InOrder c.now cs

abbrev pub last_time : ℕ → List Check → ℕ
last_time now [] = now
last_time now (c ∷ cs) = last_time c.now cs

-- How many of the times are in the window that ends now.
abbrev pub recent : ℕ → ℕ → List ℕ → ℕ
recent window now [] = 0
recent window now (t ∷ ts) =
    let rest = recent window now ts in if ltb now (t + window) then suc rest else rest

pub recent-le_length : (window now : ℕ) (ts : List ℕ) → recent window now ts ≤ length ts
recent-le_length window now [] = omega arith
recent-le_length window now (t ∷ ts) = ground (arith, recent-le_length window now ts)

pub recent-append_one :
    (window now u : ℕ) (ts : List ℕ) → recent window now (ts ++ u ∷ []) ≡ recent window now (u ∷ ts)
recent-append_one window now u [] = refl
recent-append_one window now u (t ∷ ts) = ground (arith, recent-append_one window now u ts)

-- What has aged out is not recent later.
pub recent-kept :
    (cfg : WatchdogConfig) (now later : ℕ) (ts : List ℕ)
    → now ≤ later
    → recent cfg.restart_window later (kept cfg now ts) ≡ recent cfg.restart_window later ts
unfolding kept
recent-kept cfg now later [] h = refl
recent-kept cfg now later (t ∷ ts) h = ground (arith, recent-kept cfg now later ts h)

-- No time is after a bound.
abbrev pub UpTo : ℕ → List ℕ → Type 0
UpTo b ts = All (λ t. t ≤ b) ts

pub UpTo-le : (a b : ℕ) (ts : List ℕ) → a ≤ b → UpTo a ts → UpTo b ts
UpTo-le a b [] l h = tt
UpTo-le a b (t ∷ ts) l h = (omega (arith, h.0), UpTo-le a b ts l h.1)

pub kept-UpTo :
    (cfg : WatchdogConfig) (now b : ℕ) (ts : List ℕ) → UpTo b ts → UpTo b (kept cfg now ts)
unfolding kept
kept-UpTo cfg now b [] h = tt
kept-UpTo cfg now b (t ∷ ts) h = elim (Bool-cases (ltb now (t + cfg.restart_window))) [
  | inl within ↦ rw within (h.0, kept-UpTo cfg now b ts h.1)
  | inr aged ↦ rw aged (kept-UpTo cfg now b ts h.1)
]

pub append_one-UpTo : (b u : ℕ) (ts : List ℕ) → u ≤ b → UpTo b ts → UpTo b (ts ++ u ∷ [])
append_one-UpTo b u [] l h = (l, tt)
append_one-UpTo b u (t ∷ ts) l h = (h.0, append_one-UpTo b u ts l h.1)

pub recent_of_UpTo :
    (window now b : ℕ) (ts : List ℕ) → b + window ≤ now → UpTo b ts → recent window now ts ≡ 0
recent_of_UpTo window now b [] l h = refl
recent_of_UpTo window now b (t ∷ ts) l h = ground (arith, recent_of_UpTo window now b ts l h.1, h.0)

pub kept_of_UpTo :
    (cfg : WatchdogConfig) (now b : ℕ) (ts : List ℕ)
    → b + cfg.restart_window ≤ now
    → UpTo b ts
    → kept cfg now ts ≡ []
unfolding kept
kept_of_UpTo cfg now b [] l h = refl
kept_of_UpTo cfg now b (t ∷ ts) l h = ground (arith, kept_of_UpTo cfg now b ts l h.1, h.0)

pub recent_later :
    (window now later : ℕ) (ts : List ℕ)
    → now ≤ later
    → recent window later ts ≤ recent window now ts
recent_later window now later [] h = omega arith
recent_later window now later (t ∷ ts) h = ground (arith, recent_later window now later ts h)

pub length-kept-le :
    (cfg : WatchdogConfig) (now : ℕ) (ts : List ℕ) → length (kept cfg now ts) ≤ length ts
unfolding kept
length-kept-le cfg now [] = omega arith
length-kept-le cfg now (t ∷ ts) = ground (arith, length-kept-le cfg now ts)
