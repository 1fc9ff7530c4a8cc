-- ===== src/Gateway/FastCgi/Pool.antt =====
-- internal/php/fastcgi/pool.go: the pool of connections. A client is the number of its connection. The
-- slice of idle clients is used from its end only: it is a list that starts there. A call holds the
-- lock for the whole step, but for `Get`, which dials without it: its parts are `reserve` and
-- `dial_failed`.
pub mod Moves
pub mod Counts
pub mod Accounts
pub mod Reserve
pub mod Settle
pub mod Safe
use go_php.Prelude.{
  ℕ, ◌-◌, Option, none, some, List, [], ◌∷◌, Bool, true, false, not, ◌&&◌, ◌||◌, ltb, leb, length,
  if◌then◌else◌,
}
use go_php.Prelude.Int.{ℤ, pos, negsuc, ◌+ℤ◌, ltb_ℤ, limit_or}

-- What of the configuration counts: the network and the address are given to the dialler.
pub record PoolConfig : Type 0 where
  pub max_idle : ℤ
  pub max_active : ℤ
  pub idle_timeout : ℤ

pub record PooledClient : Type 0 where
  pub client : ℕ
  pub last_used : ℕ

pub record Pool : Type 0 where
  pub max_idle : ℕ
  pub max_active : ℕ
  pub idle_timeout : ℕ
  pub idle : List PooledClient
  pub active_count : ℤ
  pub closed : Bool

pub data PoolError : Type 0 where
  pool_closed pool_exhausted : PoolError

-- Times are in nanoseconds.
unfoldable pub new_pool : PoolConfig → Pool
new_pool cfg = record {
  max_idle = limit_or 10 cfg.max_idle;
  max_active = limit_or 100 cfg.max_active;
  idle_timeout = limit_or 60000000000 cfg.idle_timeout;
  idle = [];
  active_count = pos 0;
  closed = false;
}

abbrev pub one_less : ℤ → ℤ
one_less n = n +ℤ negsuc 0

-- The loop over the idle clients: the one that it finds, what is left of the two fields, and the
-- clients that it closes.
pub record Sweep : Type 0 where
  pub found : Option ℕ
  pub idle : List PooledClient
  pub active_count : ℤ
  pub shut : List ℕ

abbrev pub expired : ℕ → ℕ → PooledClient → Bool
expired timeout now pc = ltb 0 timeout && ltb timeout (now - pc.last_used)

unfoldable pub sweep : ℕ → ℕ → List PooledClient → ℤ → Sweep
sweep timeout now [] n = record { found = none; idle = []; active_count = n; shut = [] }
sweep timeout now (pc ∷ rest) n =
    let next = sweep timeout now rest (one_less n) in
    if expired timeout now pc
    then record {
      found = next.found;
      idle = next.idle;
      active_count = next.active_count;
      shut = pc.client ∷ next.shut;
    }
    else record { found = some pc.client; idle = rest; active_count = n; shut = [] }

-- What `Get` does under the lock: it fails, returns an idle client, or goes on to dial.
pub data Answer : Type 0 where
  fails : PoolError → Answer
  lends : ℕ → Answer
  dials : Answer

-- An answer with the pool that it leaves and the clients that were closed.
pub record Reserved : Type 0 where
  pub pool : Pool
  pub shut : List ℕ
  pub answer : Answer

abbrev pub swept : Pool → Sweep → Pool
swept p s = record p { idle = s.idle; active_count = s.active_count }

abbrev pub one_more : ℤ → ℤ
one_more n = n +ℤ pos 1

-- n >= max
abbrev pub at_least : ℤ → ℕ → Bool
at_least n max = not (ltb_ℤ n (pos max))

-- After the loop.
abbrev pub after_sweep : Pool → Sweep → Option ℕ → Reserved
after_sweep p s (some c) = record { pool = swept p s; shut = s.shut; answer = lends c }
after_sweep p s none =
    if ltb 0 p.max_active && at_least s.active_count p.max_active
    then record { pool = swept p s; shut = s.shut; answer = fails pool_exhausted }
    else record {
      pool = record (swept p s) { active_count = one_more s.active_count };
      shut = s.shut;
      answer = dials;
    }

unfoldable pub reserve : ℕ → Pool → Reserved
reserve now p =
    if p.closed
    then record { pool = p; shut = []; answer = fails pool_closed }
    else let s = sweep p.idle_timeout now p.idle p.active_count in after_sweep p s s.found

-- The end of a `Get` whose dialling failed.
unfoldable pub dial_failed : Pool → Pool
dial_failed p = record p { active_count = one_less p.active_count }

-- A client comes back, with an error or without: the pool, and the clients that are closed.
abbrev pub dropped : ℕ → Pool → Pool × List ℕ
dropped c p = (record p { active_count = one_less p.active_count }, c ∷ [])

unfoldable pub put : ℕ → ℕ → Bool → Pool → Pool × List ℕ
put now c failed p =
    if p.closed || failed
    then dropped c p
    else if ltb (length p.idle) p.max_idle
    then (record p { idle = record { client = c; last_used = now } ∷ p.idle }, [])
    else dropped c p

abbrev pub clients : List PooledClient → List ℕ
clients [] = []
clients (pc ∷ rest) = pc.client ∷ clients rest

unfoldable pub close : Pool → Pool × List ℕ
close p =
    if p.closed
    then (p, [])
    else (record p { closed = true; idle = []; active_count = pos 0 }, clients p.idle)

abbrev pub stats : Pool → ℕ × ℤ
stats p = (length p.idle, p.active_count)
