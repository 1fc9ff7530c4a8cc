-- ===== src/Gateway/RateLimit/Bounds.antt =====
-- The number of buckets that the limiters keep.
use mathlib.Core.Path.{subst}
use mathlib.Core.Option.{some-injective}
use go_php.Prelude.{
  ℕ, suc, ◌≤◌, ◌<◌, ◌≡◌, refl, String, Option, none, some, List, [], ◌∷◌, Bool, true, false, str_eq,
  arith, leb, length, All, inl, inr, Bool-cases, Option-cases,
}
use go_php.Prelude.Text.{◌++◌}
use go_php.Prelude.Int.{ℤ}
use go_php.Gateway.RateLimit.{
  Floats, Bucket, RateLimiter, PerRouteLimiter, max_buckets, new_limiter, lookup_bucket, put_bucket,
  drop_stale, cleanup, new_per_route, lookup_limiter, put_limiter, set_route, cleanup_routes,
  cleanup_all, new_bucket, spend, settled, allow, routed, through, then_route, allow_route,
}

pub data Event : Type 0 where
  requests : ℕ → String → String → Event
  sets_route : String → ℤ → ℤ → Event
  cleans : ℕ → Event

module _ {F : Type 0} where
  -- A limiter tracks 100000 keys at most.
  abbrev pub IsBounded : RateLimiter F → Type 0
  IsBounded l = length l.buckets ≤ max_buckets

  pub record AllBounded (p : PerRouteLimiter F) : Type 0 where
    pub global : IsBounded p.global
    pub routes : All (λ (e : String × RateLimiter F). IsBounded e.1) p.limiters

  length-put_new :
      (k : String) (n : Bucket F) (bs : List (String × Bucket F))
      → lookup_bucket k bs ≡ none
      → length (put_bucket k n bs) ≡ suc (length bs)
  unfolding lookup_bucket put_bucket
  length-put_new k n [] e = refl
  length-put_new k n ((j, b) ∷ bs) e = elim (Bool-cases (str_eq j k)) [
    | inl same ↦ let found : some b ≡ none = rw same at e in absurd (cc)
    | inr other ↦
        let absent : lookup_bucket k bs ≡ none = rw other at e in
        rw other (omega (arith, length-put_new k n bs absent))
  ]

  length-put_old :
      (k : String) (n b : Bucket F) (bs : List (String × Bucket F))
      → lookup_bucket k bs ≡ some b
      → length (put_bucket k n bs) ≡ length bs
  unfolding lookup_bucket put_bucket
  length-put_old k n b [] e = absurd (cc)
  length-put_old k n b ((j, c) ∷ bs) e = elim (Bool-cases (str_eq j k)) [
    | inl same ↦ rw same refl
    | inr other ↦
        let later : lookup_bucket k bs ≡ some b = rw other at e in
        rw other (omega (arith, length-put_old k n b bs later))
  ]

  length-drop_stale-le :
      (now : ℕ) (bs : List (String × Bucket F)) → length (drop_stale now bs) ≤ length bs
  unfolding drop_stale
  length-drop_stale-le now [] = omega arith
  length-drop_stale-le now ((j, b) ∷ bs) = ground (arith, length-drop_stale-le now bs)

  cleanup-IsBounded : (now : ℕ) (l : RateLimiter F) → IsBounded l → IsBounded (cleanup now l)
  unfolding cleanup
  cleanup-IsBounded now l h = omega (arith, h, length-drop_stale-le now l.buckets)

  put_limiter-All :
      (k : String) (n : RateLimiter F) (ls : List (String × RateLimiter F))
      → IsBounded n
      → All (λ (e : String × RateLimiter F). IsBounded e.1) ls
      → All (λ (e : String × RateLimiter F). IsBounded e.1) (put_limiter k n ls)
  unfolding put_limiter
  put_limiter-All k n [] new h = (new, tt)
  put_limiter-All k n ((j, l) ∷ ls) new h = elim (Bool-cases (str_eq j k)) [
    | inl same ↦ rw same (new, h.1)
    | inr other ↦ rw other (h.0, put_limiter-All k n ls new h.1)
  ]

  lookup_limiter-IsBounded :
      (k : String) (ls : List (String × RateLimiter F)) (l : RateLimiter F)
      → All (λ (e : String × RateLimiter F). IsBounded e.1) ls
      → lookup_limiter k ls ≡ some l
      → IsBounded l
  unfolding lookup_limiter
  lookup_limiter-IsBounded k [] l h e = absurd (cc)
  lookup_limiter-IsBounded k ((j, m) ∷ ls) l h e = elim (Bool-cases (str_eq j k)) [
    | inl same ↦
        let found : some m ≡ some l = rw same at e in subst IsBounded (some-injective _ _ found) h.0
    | inr other ↦ lookup_limiter-IsBounded k ls l h.1 (rw other at e)
  ]

  cleanup_routes-All :
      (now : ℕ) (ls : List (String × RateLimiter F))
      → All (λ (e : String × RateLimiter F). IsBounded e.1) ls
      → All (λ (e : String × RateLimiter F). IsBounded e.1) (cleanup_routes now ls)
  unfolding cleanup_routes
  cleanup_routes-All now [] h = tt
  cleanup_routes-All now ((j, l) ∷ ls) h =
      (cleanup-IsBounded now l h.0, cleanup_routes-All now ls h.1)

module _ {F : Type 0} (o : Floats F) where
  settled-new :
      (key : String) (l : RateLimiter F) (p : Bucket F × Bool)
      → lookup_bucket key l.buckets ≡ none
      → length l.buckets < max_buckets
      → IsBounded (settled o key l p).0
  settled-new key l (b, allowed) e h = omega (arith, length-put_new key b l.buckets e)

  settled-old :
      (key : String) (l : RateLimiter F) (c : Bucket F) (p : Bucket F × Bool)
      → lookup_bucket key l.buckets ≡ some c
      → IsBounded l
      → IsBounded (settled o key l p).0
  settled-old key l c (b, allowed) e h = omega (arith, h, length-put_old key b c l.buckets e)

  allow-IsBounded :
      (now : ℕ) (key : String) (l : RateLimiter F) → IsBounded l → IsBounded (allow o now key l).0
  unfolding allow
  allow-IsBounded now key l h = elim (Option-cases (lookup_bucket key l.buckets)) [
    | inl new ↦ elim (Bool-cases (leb max_buckets (length l.buckets))) [
      | inl full ↦ rw (new, allow, full) h
      | inr room ↦
          rw (new, allow, room)
            (settled-new key l (spend o now (new_bucket o now l)) new (ground arith))
    ]
    | inr (b, old) ↦ rw (old, allow) (settled-old key l b (spend o now b) old h)
  ]

  routed-AllBounded :
      (route : String) (p : PerRouteLimiter F) (a : RateLimiter F × Bool)
      → AllBounded p
      → IsBounded a.0
      → AllBounded (routed o route p a).0
  routed-AllBounded route p (l, allowed) h k = record {
    global = h.global;
    routes = put_limiter-All route l p.limiters k h.routes;
  }

  through-AllBounded :
      (now : ℕ) (route client : String) (p : PerRouteLimiter F) (limiter : Option (RateLimiter F))
      → AllBounded p
      → ((l : RateLimiter F) → limiter ≡ some l → IsBounded l)
      → AllBounded (through o now route p client limiter).0
  through-AllBounded now route client p none h k = h
  through-AllBounded now route client p (some l) h k =
      routed-AllBounded route p (allow o now (route ++ (":" ++ client)) l) h
        (allow-IsBounded now (route ++ (":" ++ client)) l (k l refl))

  then_route-AllBounded :
      (now : ℕ) (route client : String) (p : PerRouteLimiter F) (a : RateLimiter F × Bool)
      → AllBounded p
      → IsBounded a.0
      → AllBounded (then_route o now route client p a).0
  then_route-AllBounded now route client p (g, false) h k = record { global = k; routes = h.routes }
  then_route-AllBounded now route client p (g, true) h k =
      through-AllBounded now route client (record p { global = g })
        (lookup_limiter route p.limiters) (record { global = k; routes = h.routes })
        (λ l limited. lookup_limiter-IsBounded route p.limiters l h.routes limited)

  unfoldable pub step : PerRouteLimiter F → Event → PerRouteLimiter F
  step p (requests now route client) = (allow_route o now route client p).0
  step p (sets_route route rate burst) = set_route route rate burst p
  step p (cleans now) = cleanup_all now p

  unfoldable pub run : PerRouteLimiter F → List Event → PerRouteLimiter F
  run p [] = p
  run p (e ∷ es) = run (step p e) es

  step-AllBounded : (p : PerRouteLimiter F) (e : Event) → AllBounded p → AllBounded (step p e)
  unfolding step allow_route set_route cleanup_all
  step-AllBounded p (requests now route client) h =
      then_route-AllBounded now route client p _ h (allow-IsBounded now client p.global h.global)
  step-AllBounded p (sets_route route rate burst) h = record {
    global = h.global;
    routes = put_limiter-All route (new_limiter rate burst) p.limiters (omega arith) h.routes;
  }
  step-AllBounded p (cleans now) h = record {
    global = cleanup-IsBounded now p.global h.global;
    routes = cleanup_routes-All now p.limiters h.routes;
  }

  run-AllBounded : (es : List Event) (p : PerRouteLimiter F) → AllBounded p → AllBounded (run p es)
  unfolding run
  run-AllBounded [] p h = h
  run-AllBounded (e ∷ es) p h = run-AllBounded es (step p e) (step-AllBounded p e h)

  -- Whatever clients ask for whatever routes, and however routes are limited and stale buckets cleaned
  -- away, the global limiter and each route's track at most 100000 keys, whatever float64 computes.
  pub run-new_per_route-AllBounded :
      (rate : ℤ) (es : List Event) → AllBounded (run (new_per_route rate) es)
  run-new_per_route-AllBounded rate es =
      run-AllBounded es (new_per_route rate) (record { global = omega arith; routes = tt })
