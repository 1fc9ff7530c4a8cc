-- ===== src/Gateway/FastCgi/Pool/Safe.antt =====
-- The accounts of a pool over sequences of moves.
use go_php.Prelude.{ℕ, ◌<◌, refl, arith}
use go_php.Prelude.Int.{limit_or, limit_or-le}
use go_php.Gateway.FastCgi.Pool.{PoolConfig, new_pool}
use go_php.Gateway.FastCgi.Pool.Moves.{
  World, new_world, Move, reserved, connected, not_connected, returned, shut_down, Moves, still,
  then_move,
}
use go_php.Gateway.FastCgi.Pool.Accounts.{Accounts}
use go_php.Gateway.FastCgi.Pool.Reserve.{reserved-Accounts}
use go_php.Gateway.FastCgi.Pool.Settle.{
  connected-Accounts, not_connected-Accounts, returned-Accounts, shut_down-Accounts,
}

new-Accounts :
    (cfg : PoolConfig)
    → Accounts (limit_or 10 cfg.max_idle) (limit_or 100 cfg.max_active) (new_world cfg)
unfolding new_pool
new-Accounts cfg = record {
  once = λ x. omega arith;
  owned = λ x. refl;
  idle_limit = refl;
  active_limit = refl;
  few_idle = omega arith;
  few_open = omega arith;
  counted = λ _. refl;
  emptied = λ _. refl;
}

module _ (mi ma : ℕ) (room : 0 < ma) where
  move-Accounts : (v w : World) → Move v w → Accounts mi ma v → Accounts mi ma w
  move-Accounts v _ (reserved _ now) h = reserved-Accounts mi ma room v h now
  move-Accounts v _ (connected _ n c waits new) h = connected-Accounts mi ma room v h n c waits new
  move-Accounts v _ (not_connected _ n waits) h = not_connected-Accounts mi ma room v h n waits
  move-Accounts v _ (returned _ before after now c failed e) h =
      returned-Accounts mi ma room v h before after c e now failed
  move-Accounts v _ (shut_down _) h = shut_down-Accounts mi ma room v h

  Moves-Accounts : (u w : World) → Moves u w → Accounts mi ma u → Accounts mi ma w
  Moves-Accounts u _ (still _) h = h
  Moves-Accounts u w (then_move _ v _ ms m) h = move-Accounts v w m (Moves-Accounts u v ms h)

-- Whatever calls of a pool interleave, with its limits as configured or their defaults, as long as a
-- client is put back only by a user to whom it is lent, once for each time that it is lent: the idle
-- clients are within their limit; the connections that are open or being dialled are within the limit
-- of the active ones, and are what the pool counts while it is open; and every connection that was
-- made is idle, lent or closed, is so once, and is not idle when the pool is closed.
pub Moves-Accounted :
    (cfg : PoolConfig) (w : World)
    → Moves (new_world cfg) w
    → Accounts (limit_or 10 cfg.max_idle) (limit_or 100 cfg.max_active) w
Moves-Accounted cfg w ms =
    Moves-Accounts (limit_or 10 cfg.max_idle) (limit_or 100 cfg.max_active)
      (limit_or-le 100 cfg.max_active (omega arith)) (new_world cfg) w ms (new-Accounts cfg)
