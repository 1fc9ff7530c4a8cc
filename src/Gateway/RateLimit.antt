-- ===== src/Gateway/RateLimit.antt =====
-- internal/policy/ratelimit.go: token buckets for each client, with a bound on their number. Tokens are
-- float64, whose arithmetic is a parameter. Times are nanoseconds; a lock makes every method one step.
pub mod Bounds
use go_php.Prelude.{
  ℕ, ◌+◌, String, Option, none, some, List, [], ◌∷◌, ◌++◌ as append, Bool, true, false, str_eq, ltb,
  leb, length, if◌then◌else◌,
}
use go_php.Prelude.Text.{◌++◌}
use go_php.Prelude.Int.{ℤ}

-- float64, and the seconds between two times.
pub record Floats (F : Type 0) : Type 0 where
  pub of_int : ℤ → F
  pub add : F → F → F
  pub sub : F → F → F
  pub mul : F → F → F
  pub div : F → F → F
  pub less : F → F → Bool
  pub one : F
  pub sixty : F
  pub seconds : ℕ → ℕ → F

pub record Bucket (F : Type 0) : Type 0 where
  pub tokens : F
  pub max_tokens : F
  pub refill_rate : F
  pub last_check : ℕ

pub record RateLimiter (F : Type 0) : Type 0 where
  pub buckets : List (String × Bucket F)
  pub rate : ℤ
  pub burst : ℤ

-- The limiters of the routes, by their names.
pub record PerRouteLimiter (F : Type 0) : Type 0 where
  pub limiters : List (String × RateLimiter F)
  pub global : RateLimiter F

abbrev pub max_buckets : ℕ
max_buckets = 100000

-- 5 * time.Minute
abbrev pub stale_after : ℕ
stale_after = 300000000000

abbrev pub new_limiter : {F : Type 0} → ℤ → ℤ → RateLimiter F
new_limiter rate burst = record { buckets = []; rate = rate; burst = burst }

module _ {F : Type 0} where
  unfoldable pub lookup_bucket : String → List (String × Bucket F) → Option (Bucket F)
  lookup_bucket k [] = none
  lookup_bucket k ((j, b) ∷ bs) =
      let rest = lookup_bucket k bs in if str_eq j k then some b else rest

  -- A bucket is changed in place, or put into the map.
  unfoldable pub put_bucket :
      String → Bucket F → List (String × Bucket F) → List (String × Bucket F)
  put_bucket k n [] = (k, n) ∷ []
  put_bucket k n ((j, b) ∷ bs) =
      let rest = put_bucket k n bs in if str_eq j k then (j, n) ∷ bs else (j, b) ∷ rest

  unfoldable pub drop_stale : ℕ → List (String × Bucket F) → List (String × Bucket F)
  drop_stale now [] = []
  drop_stale now ((j, b) ∷ bs) =
      let rest = drop_stale now bs in
      if ltb (b.last_check + stale_after) now then rest else (j, b) ∷ rest

  unfoldable pub cleanup : ℕ → RateLimiter F → RateLimiter F
  unfolding drop_stale
  cleanup now l = record l { buckets = drop_stale now l.buckets }

  abbrev pub new_per_route : ℤ → PerRouteLimiter F
  new_per_route rate = record { limiters = []; global = new_limiter rate rate }

  unfoldable pub lookup_limiter : String → List (String × RateLimiter F) → Option (RateLimiter F)
  lookup_limiter k [] = none
  lookup_limiter k ((j, l) ∷ ls) =
      let rest = lookup_limiter k ls in if str_eq j k then some l else rest

  unfoldable pub put_limiter :
      String → RateLimiter F → List (String × RateLimiter F) → List (String × RateLimiter F)
  put_limiter k n [] = (k, n) ∷ []
  put_limiter k n ((j, l) ∷ ls) =
      let rest = put_limiter k n ls in if str_eq j k then (j, n) ∷ ls else (j, l) ∷ rest

  unfoldable pub set_route : String → ℤ → ℤ → PerRouteLimiter F → PerRouteLimiter F
  set_route route rate burst p = record p {
    limiters = put_limiter route (new_limiter rate burst) p.limiters;
  }

  unfoldable pub cleanup_routes : ℕ → List (String × RateLimiter F) → List (String × RateLimiter F)
  cleanup_routes now [] = []
  cleanup_routes now ((j, l) ∷ ls) = (j, cleanup now l) ∷ cleanup_routes now ls

  unfoldable pub cleanup_all : ℕ → PerRouteLimiter F → PerRouteLimiter F
  cleanup_all now p = record {
    limiters = cleanup_routes now p.limiters;
    global = cleanup now p.global;
  }

module _ {F : Type 0} (o : Floats F) where
  unfoldable pub new_bucket : ℕ → RateLimiter F → Bucket F
  new_bucket now l =
      let burst = o.of_int l.burst in
      let most = if o.less burst o.one then o.of_int l.rate else burst in
      record {
        tokens = most;
        max_tokens = most;
        refill_rate = o.div (o.of_int l.rate) o.sixty;
        last_check = now;
      }

  abbrev pub refilled : ℕ → Bucket F → F
  refilled now b =
      let sum = o.add b.tokens (o.mul (o.seconds b.last_check now) b.refill_rate) in
      if o.less b.max_tokens sum then b.max_tokens else sum

  -- The bucket afterwards, and whether the request is allowed.
  unfoldable pub spend : ℕ → Bucket F → Bucket F × Bool
  spend now b =
      let tokens = refilled now b in
      if o.less tokens o.one
      then (record b { tokens = tokens; last_check = now }, false)
      else (record b { tokens = o.sub tokens o.one; last_check = now }, true)

  abbrev pub settled : String → RateLimiter F → Bucket F × Bool → RateLimiter F × Bool
  settled key l (b, allowed) = (record l { buckets = put_bucket key b l.buckets }, allowed)

  unfoldable pub allow : ℕ → String → RateLimiter F → RateLimiter F × Bool
  allow now key l = elim (lookup_bucket key l.buckets) [
    | none ↦
        if leb max_buckets (length l.buckets)
        then (l, false)
        else settled key l (spend now (new_bucket now l))
    | some b ↦ settled key l (spend now b)
  ]

  abbrev pub routed : String → PerRouteLimiter F → RateLimiter F × Bool → PerRouteLimiter F × Bool
  routed route p (l, allowed) = (record p { limiters = put_limiter route l p.limiters }, allowed)

  -- The limiter of the route, if it has one.
  abbrev pub through :
      ℕ → String → PerRouteLimiter F → String → Option (RateLimiter F) → PerRouteLimiter F × Bool
  through now route p client none = (p, true)
  through now route p client (some l) = routed route p (allow now (route ++ (":" ++ client)) l)

  -- It is asked only if the global one allows the request.
  abbrev pub then_route :
      ℕ → String → String → PerRouteLimiter F → RateLimiter F × Bool → PerRouteLimiter F × Bool
  then_route now route client p (g, false) = (record p { global = g }, false)
  then_route now route client p (g, true) =
      through now route (record p { global = g }) client (lookup_limiter route p.limiters)

  unfoldable pub allow_route : ℕ → String → String → PerRouteLimiter F → PerRouteLimiter F × Bool
  allow_route now route client p = then_route now route client p (allow now client p.global)
