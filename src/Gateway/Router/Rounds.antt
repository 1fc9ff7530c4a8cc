-- ===== src/Gateway/Router/Rounds.antt =====
-- The rounds of a rewriting, one by one, and what the loop makes of them.
use go_php.Prelude.{
  ℕ, zero, suc, ◌+◌, ◌<◌, ◌≡◌, refl, Option, none, some, List, true, false, arith, inl, inr,
  Bool-cases, sym,
}
use mathlib.Core.Path.{subst}
use go_php.Prelude.Int.{ℤ, pos, limit_or}
use go_php.Prelude.Bytes.{Bytes}
use go_php.Gateway.Router.{
  Library, Route, Location, Rewritten, finished, exceeded, result_at, first_applies, rewritten,
  is_redirect, round, rewrite_from, rewrite_loop,
}

module _ (lib : Library) (rs : List Route) where
  -- A number of rounds, in each of which the first route that applies is no redirect.
  pub data Rounds : ℕ → Location → Location → Type 0 where
    no_round : (l : Location) → Rounds 0 l l
    one_round :
        (n : ℕ) (l m : Location) (r : Route) (cs : List Bytes)
        → Rounds n l m
        → first_applies lib rs m.path ≡ some (r, cs)
        → is_redirect r ≡ false
        → Rounds (suc n) l (rewritten r cs m)

  -- What comes of a location: it rests where no route applies, it is redirected by the first route
  -- that applies, or it is rewritten to the end.
  pub data Follows (max : ℕ) (l : Location) : Rewritten → Type 0 where
    rests :
        (n : ℕ) (m : Location)
        → n < max
        → Rounds n l m
        → first_applies lib rs m.path ≡ none
        → Follows max l (finished (result_at m (pos 0) false (suc n)))
    redirects :
        (n : ℕ) (m : Location) (r : Route) (cs : List Bytes)
        → n < max
        → Rounds n l m
        → first_applies lib rs m.path ≡ some (r, cs)
        → is_redirect r ≡ true
        → Follows max l (finished (result_at (rewritten r cs m) r.status true (suc n)))
    goes_on :
        (m : Location) → Rounds max l m → Follows max l (exceeded (result_at m (pos 0) false max))

  round-Follows :
      (max left n : ℕ) (l m : Location) (found : Option (Route × List Bytes))
      → n + suc left ≡ max
      → Rounds n l m
      → first_applies lib rs m.path ≡ found
      → ((m2 : Location)
          → Rounds (suc n) l m2
          → Follows max l (rewrite_from lib rs left (suc n) m2))
      → Follows max l (round found m (suc n) (rewrite_from lib rs left (suc n)))
  round-Follows max left n l m none e done at next = rests n m (omega arith) done at
  round-Follows max left n l m (some (r, cs)) e done at next = elim (Bool-cases (is_redirect r)) [
    | inl moves ↦ rw moves (redirects n m r cs (omega arith) done at moves)
    | inr stays ↦ rw stays (next (rewritten r cs m) (one_round n l m r cs done at stays))
  ]

  rewrite_from-Follows :
      (left max n : ℕ) (l m : Location)
      → n + left ≡ max
      → Rounds n l m
      → Follows max l (rewrite_from lib rs left n m)
  unfolding rewrite_from
  rewrite_from-Follows zero max n l m e done =
      let all : n ≡ max = omega arith in
      subst (λ k. Follows max l (exceeded (result_at m (pos 0) false k))) (sym all)
        (goes_on m (subst (λ k. Rounds k l m) all done))
  rewrite_from-Follows (suc left) max n l m e done =
      round-Follows max left n l m (first_applies lib rs m.path) e done refl
        (λ m2 more. rewrite_from-Follows left max (suc n) l m2 (omega arith) more)

-- Whatever the routes and the path: rewriting takes rounds of the first route with a target that
-- applies, at most as many as given (10 if that is not positive). It rests at the first path to which
-- no route applies, ends at the first redirect, with its status, and with neither it fails after the
-- last round. The number of rounds that it reports counts the one in which it ends.
pub rewrite_loop-Follows :
    (lib : Library) (rs : List Route) (path query : Bytes) (max : ℤ)
    → Follows lib rs
        (limit_or 10 max)
        (record { path = path; query = query })
        (rewrite_loop lib rs path query max)
rewrite_loop-Follows lib rs path query max =
    rewrite_from-Follows lib rs (limit_or 10 max) (limit_or 10 max) 0
      (record { path = path; query = query }) (record { path = path; query = query }) (omega arith)
      (no_round (record { path = path; query = query }))
