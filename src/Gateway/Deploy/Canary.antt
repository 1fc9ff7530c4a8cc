-- ===== src/Gateway/Deploy/Canary.antt =====
-- internal/deploy/canary.go: a second release takes a part of the requests. A status is kept only
-- while the canary is there, so that it is always "active" between two methods.
pub mod Share
use go_php.Prelude.{ℕ, zero, suc, ◌%◌, String, Option, none, some, Bool, false, if◌then◌else◌}
use go_php.Prelude.Text.{◌++◌}
use go_php.Prelude.Int.{ℤ, pos, ltb_ℤ, ◌+ℤ◌}
use go_php.Gateway.Deploy.{ReleaseManager, System, activate}

-- The releases are kept by their ids.
pub record CanaryState : Type 0 where
  pub active : String
  pub canary : String
  pub weight : ℤ

unfoldable pub start_canary :
    String → String → ℤ → Option CanaryState → Option CanaryState × Option String
start_canary a c weight (some s) = (some s, some "canary already active")
start_canary a c weight none = (some (record { active = a; canary = c; weight = weight }), none)

unfoldable pub increase_weight : ℤ → Option CanaryState → Option CanaryState × Option String
increase_weight delta none = (none, some "no active canary")
increase_weight delta (some s) =
    let sum = s.weight +ℤ delta in
    (some (record s { weight = if ltb_ℤ (pos 100) sum then pos 100 else sum }), none)

-- An activation that fails leaves the canary, with all the weight.
abbrev promoted :
    CanaryState
    → ReleaseManager × Option String
    → Option CanaryState × ReleaseManager × Option String
promoted s (m, none) = (none, m, none)
promoted s (m, some e) = (some (record s { weight = pos 100 }), m, some ("promote: " ++ e))

unfoldable pub promote :
    System
    → Option CanaryState
    → ReleaseManager
    → Option CanaryState × ReleaseManager × Option String
promote y none m = (none, m, some "no active canary")
promote y (some s) m = promoted s (activate y s.canary m)

unfoldable pub drop_canary : Option CanaryState → Option CanaryState × Option String
drop_canary none = (none, some "no canary to rollback")
drop_canary (some s) = (none, none)

unfoldable pub current_weight : Option CanaryState → ℤ
current_weight none = pos 0
current_weight (some s) = s.weight

-- `drawn` is the answer of rand.Int, a number below `max`, or `none` if it fails; `clock` is
-- time.Now().UnixNano().
unfoldable pub random_int : ℕ → Option ℕ → ℕ → ℕ
random_int zero drawn clock = 0
random_int (suc m) none clock = clock % suc m
random_int (suc m) (some n) clock = n

unfoldable pub should_route : Option ℕ → ℕ → Option CanaryState → Bool
unfolding random_int
should_route drawn clock none = false
should_route drawn clock (some s) = ltb_ℤ (pos (random_int 100 drawn clock)) s.weight
