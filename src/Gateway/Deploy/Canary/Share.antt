-- ===== src/Gateway/Deploy/Canary/Share.antt =====
-- The share of the draws that a canary gets.
use go_php.Prelude.{
  ℕ, zero, suc, ◌%◌, ◌≤◌, ◌≡◌, refl, Option, none, some, List, [], ◌∷◌, String, false, arith, leb,
  Bool-cases, inl, inr, if◌then◌else◌, ◌∙◌,
}
use go_php.Prelude.Int.{ℤ, pos, negsuc, pos_part, ltb_ℤ, ◌+ℤ◌}
use go_php.Gateway.Deploy.{ReleaseManager, System, activate}
use go_php.Gateway.Deploy.Canary.{
  CanaryState, start_canary, increase_weight, promoted, promote, drop_canary, current_weight,
  should_route, random_int,
}

pub data Event : Type 0 where
  starts : String → String → ℤ → Event
  increases : ℤ → Event
  promotes : System → Event
  drops : Event

pub record Canaries : Type 0 where
  pub canary : Option CanaryState
  pub manager : ReleaseManager

unfoldable pub step : Canaries → Event → Canaries
step s (starts a c w) = record s { canary = (start_canary a c w s.canary).0 }
step s (increases delta) = record s { canary = (increase_weight delta s.canary).0 }
step s (promotes y) =
    let after = promote y s.canary s.manager in record { canary = after.0; manager = after.1 }
step s drops = record s { canary = (drop_canary s.canary).0 }

unfoldable pub run : Canaries → List Event → Canaries
run s [] = s
run s (e ∷ es) = run (step s e) es

-- Of the numbers below n that rand.Int may answer, those with which a request goes to the canary.
unfoldable pub routed : ℕ → Option CanaryState → ℕ
routed zero s = 0
routed (suc n) s = let rest = routed n s in if should_route (some n) 0 s then suc rest else rest

-- A weight of 100 at most.
abbrev pub AtMost100 : ℤ → Type 0
AtMost100 w = pos_part w ≤ 100

-- The initial weights of the canaries that are started.
abbrev pub StartsBelow : List Event → Type 0
StartsBelow [] = Unit
StartsBelow (starts a c w ∷ es) = AtMost100 w × StartsBelow es
StartsBelow (e ∷ es) = StartsBelow es

within_100 : (w : ℤ) → ltb_ℤ (pos 100) w ≡ false → AtMost100 w
within_100 (pos n) h = ground arith
within_100 (negsuc n) h = omega arith

increase_weight-AtMost100 :
    (delta : ℤ) (s : Option CanaryState)
    → AtMost100 (current_weight s)
    → AtMost100 (current_weight (increase_weight delta s).0)
unfolding increase_weight current_weight
increase_weight-AtMost100 delta none h = omega arith
increase_weight-AtMost100 delta (some s) h =
    elim (Bool-cases (ltb_ℤ (pos 100) (s.weight +ℤ delta))) [
      | inl over ↦ rw over (omega arith)
      | inr within ↦ rw within (within_100 (s.weight +ℤ delta) within)
    ]

promoted-AtMost100 :
    (s : CanaryState) (p : ReleaseManager × Option String)
    → AtMost100 (current_weight (promoted s p).0)
unfolding current_weight
promoted-AtMost100 s (m, none) = omega arith
promoted-AtMost100 s (m, some e) = omega arith

promote-AtMost100 :
    (y : System) (s : Option CanaryState) (m : ReleaseManager)
    → AtMost100 (current_weight (promote y s m).0)
unfolding promote
promote-AtMost100 y none m = unfold current_weight in omega arith
promote-AtMost100 y (some s) m = promoted-AtMost100 s (activate y s.canary m)

start_canary-AtMost100 :
    (a c : String) (w : ℤ) (s : Option CanaryState)
    → AtMost100 w
    → AtMost100 (current_weight s)
    → AtMost100 (current_weight (start_canary a c w s).0)
unfolding start_canary current_weight
start_canary-AtMost100 a c w none new h = new
start_canary-AtMost100 a c w (some s) new h = h

drop_canary-AtMost100 : (s : Option CanaryState) → AtMost100 (current_weight (drop_canary s).0)
unfolding drop_canary current_weight
drop_canary-AtMost100 none = omega arith
drop_canary-AtMost100 (some s) = omega arith

run-AtMost100 :
    (es : List Event) (s : Canaries)
    → StartsBelow es
    → AtMost100 (current_weight s.canary)
    → AtMost100 (current_weight (run s es).canary)
unfolding run step
run-AtMost100 [] s below h = h
run-AtMost100 (starts a c w ∷ es) s below h =
    run-AtMost100 es _ below.1 (start_canary-AtMost100 a c w s.canary below.0 h)
run-AtMost100 (increases delta ∷ es) s below h =
    run-AtMost100 es _ below (increase_weight-AtMost100 delta s.canary h)
run-AtMost100 (promotes y ∷ es) s below h =
    run-AtMost100 es _ below (promote-AtMost100 y s.canary s.manager)
run-AtMost100 (drops ∷ es) s below h = run-AtMost100 es _ below (drop_canary-AtMost100 s.canary)

counts_step :
    (n : ℕ) (w : ℤ) (rest : ℕ)
    → rest ≡ (if leb n (pos_part w) then n else pos_part w)
    → (if ltb_ℤ (pos n) w then suc rest else rest)
      ≡ (if leb (suc n) (pos_part w) then suc n else pos_part w)
counts_step n (pos k) rest h = ground arith
counts_step n (negsuc k) rest h = ground arith

-- Of n draws those below the weight go to the canary.
routed-counts :
    (n : ℕ) (s : Option CanaryState)
    → routed n s ≡ (if leb n (pos_part (current_weight s)) then n else pos_part (current_weight s))
unfolding routed should_route random_int current_weight
routed-counts zero s = ground arith
routed-counts (suc n) none = ground (arith, routed-counts n none)
routed-counts (suc n) (some s) =
    counts_step n s.weight (routed n (some s)) (routed-counts n (some s))

-- What the clock says does not matter where rand.Int answers, and stands in for it where it fails.
pub ClockOnlyOnFailure : Option CanaryState → Type 0
ClockOnlyOnFailure s =
    (clock : ℕ)
    → ((n : ℕ) → should_route (some n) clock s ≡ should_route (some n) 0 s)
      × (should_route none clock s ≡ should_route (some (clock % 100)) 0 s)

clock_lem : (s : Option CanaryState) → ClockOnlyOnFailure s
unfolding should_route random_int ClockOnlyOnFailure
clock_lem none clock = (λ n. refl, refl)
clock_lem (some s) clock = (λ n. refl, refl)

-- After any starts, increases, promotions and withdrawals, if every canary was started with a weight
-- of at most 100: of the 100 numbers that rand.Int may answer below 100, as many go to the canary as
-- its weight says, and none if that is negative or there is no canary; if rand.Int fails, a reading of
-- the clock goes where the answer with its last two decimal digits goes.
pub routed-run :
    (es : List Event) (m : ReleaseManager)
    → StartsBelow es
    → (routed 100 (run (record { canary = none; manager = m }) es).canary
        ≡ pos_part (current_weight (run (record { canary = none; manager = m }) es).canary))
      × ClockOnlyOnFailure (run (record { canary = none; manager = m }) es).canary
routed-run es m below =
    let s = run (record { canary = none; manager = m }) es in
    let nothing : AtMost100 (current_weight none) = unfold current_weight in omega arith in
    let most : AtMost100 (current_weight s.canary) = run-AtMost100 es _ below nothing in
    (routed-counts 100 s.canary ∙ ground (arith, most), clock_lem s.canary)
