-- ===== src/Gateway/FastCgi/Pool/Moves.antt =====
-- What the users of a pool do, in any interleaving. A client is put back by the one who has it, once:
-- that is a condition on the users, which `Put` does not check.
use go_php.Prelude.{ℕ, suc, ◌≡◌, List, [], ◌∷◌, ◌++◌, Bool, ◌==◌, if◌then◌else◌}
use go_php.Gateway.FastCgi.Pool.{
  Pool, PoolConfig, new_pool, Answer, fails, lends, dials, Reserved, reserve, dial_failed, put,
  close,
}

-- How often a client is in a list.
abbrev pub count : ℕ → List ℕ → ℕ
count x [] = 0
count x (c ∷ cs) = let rest = count x cs in if c == x then suc rest else rest

-- The pool, the clients that are lent, how many calls are dialling, all clients that were ever
-- connected, and those that were closed.
pub record World : Type 0 where
  pub pool : Pool
  pub lent : List ℕ
  pub dialling : ℕ
  pub made : List ℕ
  pub shut : List ℕ

abbrev pub new_world : PoolConfig → World
new_world cfg = record { pool = new_pool cfg; lent = []; dialling = 0; made = []; shut = [] }

-- What an answer of the pool makes of the lent clients and of the dialling calls.
abbrev pub lent_after : Answer → List ℕ → List ℕ
lent_after (fails e) cs = cs
lent_after (lends c) cs = c ∷ cs
lent_after dials cs = cs

abbrev pub dialling_after : Answer → ℕ → ℕ
dialling_after (fails e) n = n
dialling_after (lends c) n = n
dialling_after dials n = suc n

abbrev pub after_reserve : World → Reserved → World
after_reserve w r = record w {
  pool = r.pool;
  lent = lent_after r.answer w.lent;
  dialling = dialling_after r.answer w.dialling;
  shut = r.shut ++ w.shut;
}

abbrev pub after_put : World → List ℕ → Pool × List ℕ → World
after_put w lent (p, cs) = record w { pool = p; lent = lent; shut = cs ++ w.shut }

pub data Move : World → World → Type 0 where
  reserved : (w : World) (now : ℕ) → Move w (after_reserve w (reserve now w.pool))
  connected :
      (w : World) (n c : ℕ)
      → w.dialling ≡ suc n
      → count c w.made ≡ 0
      → Move w (record w { dialling = n; lent = c ∷ w.lent; made = c ∷ w.made })
  not_connected :
      (w : World) (n : ℕ)
      → w.dialling ≡ suc n
      → Move w (record w { dialling = n; pool = dial_failed w.pool })
  returned :
      (w : World) (before after : List ℕ) (now c : ℕ) (failed : Bool)
      → w.lent ≡ before ++ c ∷ after
      → Move w (after_put w (before ++ after) (put now c failed w.pool))
  shut_down : (w : World) → Move w (after_put w w.lent (close w.pool))

pub data Moves : World → World → Type 0 where
  still : (w : World) → Moves w w
  then_move : (u v w : World) → Moves u v → Move v w → Moves u w
