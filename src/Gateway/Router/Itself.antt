-- ===== src/Gateway/Router/Itself.antt =====
-- Paths that are rewritten to themselves.
use go_php.Prelude.{ℕ, zero, suc, ◌+◌, ◌≡◌, some, List, false, arith, ◌∙◌, ap}
use go_php.Prelude.Int.{ℤ, pos, limit_or}
use go_php.Prelude.Bytes.{Bytes, bytes, replace_all}
use go_php.Gateway.Router.{
  Library, Route, exceeded, result_at, first_applies, rewritten, is_redirect, rewrite_from,
  rewrite_loop, join_query, split_query, put_captures,
}

-- A query with another before it, some times.
abbrev pub prepended : ℕ → Bytes → Bytes → Bytes
prepended zero new query = query
prepended (suc n) new query = prepended n new (join_query new query)

-- A target, with the captures and the path put in.
abbrev pub goal_of : Route → List Bytes → Bytes → Bytes × Bytes
goal_of r cs path = split_query (replace_all (put_captures 0 cs r.target) (bytes "$0") path)

module _ (lib : Library) (rs : List Route) (path : Bytes) (r : Route) (cs : List Bytes)
    (first : first_applies lib rs path ≡ some (r, cs)) (stays : is_redirect r ≡ false)
    (same : (goal_of r cs path).0 ≡ path) where
  rewritten_again :
      (query : Bytes)
      → rewritten r cs (record { path = path; query = query })
        ≡ record { path = path; query = join_query (goal_of r cs path).1 query }
  unfolding rewritten
  rewritten_again query =
      ap (λ p. record { path = p; query = join_query (goal_of r cs path).1 query }) same

  rewrite_from-itself :
      (left n all : ℕ) (query : Bytes)
      → n + left ≡ all
      → rewrite_from lib rs left n (record { path = path; query = query })
        ≡ exceeded (
            result_at
              (record { path = path; query = prepended left (goal_of r cs path).1 query })
              (pos 0)
              false
              all)
  unfolding rewrite_from
  rewrite_from-itself zero n all query e =
      ap (λ k. exceeded (result_at (record { path = path; query = query }) (pos 0) false k))
        (omega arith)
  rewrite_from-itself (suc left) n all query e =
      rw (first, stays)
        (ap (rewrite_from lib rs left (suc n)) (rewritten_again query)
          ∙ rewrite_from-itself left (suc n) all (join_query (goal_of r cs path).1 query)
              (omega arith))

  -- If the first route with a target that applies to a path is no redirect and rewrites the path to
  -- itself, then rewriting fails after its last round, with the query of the target put before the
  -- query once for each round.
  pub rewrite_loop-itself :
      (query : Bytes) (max : ℤ)
      → rewrite_loop lib rs path query max
        ≡ exceeded (
            result_at
              (record {
                path = path;
                query = prepended (limit_or 10 max) (goal_of r cs path).1 query;
              })
              (pos 0)
              false
              (limit_or 10 max))
  rewrite_loop-itself query max =
      rewrite_from-itself (limit_or 10 max) 0 (limit_or 10 max) query (omega arith)
