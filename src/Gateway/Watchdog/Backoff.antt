-- ===== src/Gateway/Watchdog/Backoff.antt =====
-- The delay before a restart.
use native.Mathlib.Nat.{mul_assoc, mul-le-mul_left}
use go_php.Prelude.{
  ℕ, zero, suc, ◌+◌, ◌*◌, ◌/◌, ◌≤◌, ◌<◌, ◌≡◌, refl, Option, none, some, arith, ltb, ◌==◌, inl, inr,
  Bool-cases, if◌then◌else◌, ◌∙◌, ap,
}
use go_php.Gateway.Watchdog.{WatchdogConfig, doubled, full_delay, backoff}

-- 2 ^ n
abbrev pub power : ℕ → ℕ
power zero = 1
power (suc n) = 2 * power n

abbrev pub least : ℕ → ℕ → ℕ
least a b = if ltb b a then b else a

least_above : (m a b : ℕ) → m ≤ a → m ≤ b → least a m ≡ least b m
least_above m a b h k = ground arith

power-le : (n : ℕ) → 1 ≤ power n
power-le zero = omega arith
power-le (suc n) = omega (arith, power-le n)

doubled-power :
    (max attempt delay : ℕ)
    → least (doubled max attempt delay) max ≡ least (delay * power attempt) max
unfolding doubled
doubled-power max zero delay = let one : delay * 1 ≡ delay = omega arith in rw one refl
doubled-power max (suc n) delay = elim (Bool-cases (ltb delay max)) [
  | inl below ↦
      rw below
        (doubled-power max n (delay * 2) ∙ ap (λ x. least x max) (mul_assoc delay 2 (power n)))
  | inr above ↦
      let grown : delay * 1 ≤ delay * (2 * power n) =
        mul-le-mul_left delay (omega (arith, power-le n)) in
      rw above
        (least_above max delay (delay * (2 * power n)) (ground arith) (ground (arith, grown)))
]

full_delay-power :
    (cfg : WatchdogConfig) (attempt : ℕ)
    → full_delay cfg attempt ≡ least (cfg.min_backoff * power attempt) cfg.max_backoff
unfolding full_delay
full_delay-power cfg attempt = doubled-power cfg.max_backoff attempt cfg.min_backoff

-- The random number is below half of the full delay, if there is one.
abbrev pub DrawnBelow : ℕ → Option ℕ → Type 0
DrawnBelow half none = Unit
DrawnBelow half (some n) = n < half

jittered :
    (delay : ℕ) (drawn : Option ℕ)
    → DrawnBelow (delay / 2) drawn
    → let d =
        (if delay / 2 == 0 then delay else elim drawn [ none ↦ delay | some n ↦ delay / 2 + n ]) in
      (d ≤ delay) × (delay ≤ 2 * d + 1)
jittered delay none h = ground arith
jittered delay (some n) h = ground arith

-- The delay before an attempt is at most the minimum doubled as often as there were attempts in the
-- window, cut at the maximum, and at least half of that (rounded down), whatever number below half of
-- it is drawn.
pub backoff_bounds :
    (cfg : WatchdogConfig) (attempt : ℕ) (drawn : Option ℕ)
    → DrawnBelow (full_delay cfg attempt / 2) drawn
    → (backoff cfg attempt drawn ≤ least (cfg.min_backoff * power attempt) cfg.max_backoff)
      × (least (cfg.min_backoff * power attempt) cfg.max_backoff
          ≤ 2 * backoff cfg attempt drawn + 1)
unfolding backoff
backoff_bounds cfg attempt drawn h =
    let (upper, lower) = jittered (full_delay cfg attempt) drawn h in
    rw⁻¹ (full_delay-power cfg attempt) (upper, lower)
