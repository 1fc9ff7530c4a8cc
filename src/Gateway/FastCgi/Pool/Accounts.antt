-- ===== src/Gateway/FastCgi/Pool/Accounts.antt =====
-- The accounts of a pool and its users.
use go_php.Prelude.{ℕ, ◌+◌, ◌≤◌, ◌≡◌, [], true, false, length}
use go_php.Prelude.Int.{pos}
use go_php.Gateway.FastCgi.Pool.{clients}
use go_php.Gateway.FastCgi.Pool.Moves.{count, World}

-- The limits of the configuration hold: each client that was connected is idle, lent or closed, and
-- only one of these; the idle clients, and all that are open or being dialled, are within their limits;
-- while the pool is open its count is that of the latter; a closed pool has no idle client.
pub record Accounts (max_idle max_active : ℕ) (w : World) : Type 0 where
  pub once : (x : ℕ) → count x w.made ≤ 1
  pub owned :
      (x : ℕ) → count x (clients w.pool.idle) + count x w.lent + count x w.shut ≡ count x w.made
  pub idle_limit : w.pool.max_idle ≡ max_idle
  pub active_limit : w.pool.max_active ≡ max_active
  pub few_idle : length w.pool.idle ≤ max_idle
  pub few_open : length w.pool.idle + length w.lent + w.dialling ≤ max_active
  pub counted :
      w.pool.closed ≡ false
      → w.pool.active_count ≡ pos (length w.pool.idle + (length w.lent + w.dialling))
  pub emptied : w.pool.closed ≡ true → w.pool.idle ≡ []
