-- ===== src/Gateway/FastCgi/Pool/Settle.antt =====
-- The accounts after a dialled connection, after a client comes back, and after the pool is closed.
use go_php.Prelude.{
  ℕ, suc, ◌+◌, ◌<◌, ◌≡◌, refl, List, [], ◌∷◌, ◌++◌, true, false, ◌||◌, Bool, arith, length,
  length-append, inl, inr, Bool-cases, ◌∙◌, ap, sym, ltb,
}
use mathlib.Core.Path.{subst}
use go_php.Prelude.Int.{pos}
use go_php.Gateway.FastCgi.Pool.{Pool, clients, dial_failed, put, close, dropped, one_less}
use go_php.Gateway.FastCgi.Pool.Moves.{count, World, after_put}
use go_php.Gateway.FastCgi.Pool.Counts.{count-append, count_once, one_less_of}
use go_php.Gateway.FastCgi.Pool.Accounts.{Accounts}

close_closed : (p : Pool) → p.closed ≡ true → close p ≡ (p, [])
unfolding close
close_closed p over = rw over refl

close_open :
    (p : Pool)
    → p.closed ≡ false
    → close p ≡ (record p { closed = true; idle = []; active_count = pos 0 }, clients p.idle)
unfolding close
close_open p runs = rw runs refl

put-dropped :
    (now c : ℕ) (failed : Bool) (p : Pool)
    → (p.closed || failed) ≡ true
    → put now c failed p ≡ dropped c p
unfolding put
put-dropped now c failed p drops = rw drops refl

put_full :
    (now c : ℕ) (failed : Bool) (p : Pool)
    → (p.closed || failed) ≡ false
    → ltb (length p.idle) p.max_idle ≡ false
    → put now c failed p ≡ dropped c p
unfolding put
put_full now c failed p keeps full = rw (keeps, full) refl

put_idle :
    (now c : ℕ) (failed : Bool) (p : Pool)
    → (p.closed || failed) ≡ false
    → ltb (length p.idle) p.max_idle ≡ true
    → put now c failed p ≡ (record p { idle = record { client = c; last_used = now } ∷ p.idle }, [])
unfolding put
put_idle now c failed p keeps below = rw (keeps, below) refl

module _ (mi ma : ℕ) (room : 0 < ma) (w : World) (h : Accounts mi ma w) where
  pub connected-Accounts :
      (n c : ℕ)
      → w.dialling ≡ suc n
      → count c w.made ≡ 0
      → Accounts mi ma (record w { dialling = n; lent = c ∷ w.lent; made = c ∷ w.made })
  connected-Accounts n c waits new = record {
    once = λ x. count_once x c w.made new (h.once x);
    owned = λ x. ground (arith, h.owned x);
    idle_limit = h.idle_limit;
    active_limit = h.active_limit;
    few_idle = h.few_idle;
    few_open = omega (arith, h.few_open);
    counted = λ runs. h.counted runs ∙ ap pos (omega arith);
    emptied = h.emptied;
  }

  pub not_connected-Accounts :
      (n : ℕ)
      → w.dialling ≡ suc n
      → Accounts mi ma (record w { dialling = n; pool = dial_failed w.pool })
  unfolding dial_failed
  not_connected-Accounts n waits = record {
    once = h.once;
    owned = h.owned;
    idle_limit = h.idle_limit;
    active_limit = h.active_limit;
    few_idle = h.few_idle;
    few_open = omega (arith, h.few_open);
    counted = λ runs.
        ap one_less (h.counted runs)
        ∙ one_less_of (length w.pool.idle + (length w.lent + w.dialling))
            (length w.pool.idle + (length w.lent + n)) (omega arith);
    emptied = h.emptied;
  }

  pub shut_down-Accounts : Accounts mi ma (after_put w w.lent (close w.pool))
  shut_down-Accounts = elim (Bool-cases w.pool.closed) [
    | inl over ↦
        subst (λ r. Accounts mi ma (after_put w w.lent r)) (sym (close_closed w.pool over)) h
    | inr runs ↦
        subst (λ r. Accounts mi ma (after_put w w.lent r)) (sym (close_open w.pool runs))
          (record {
            once = h.once;
            owned = λ x. omega (arith, h.owned x, count-append x (clients w.pool.idle) w.shut);
            idle_limit = h.idle_limit;
            active_limit = h.active_limit;
            few_idle = omega arith;
            few_open = omega (arith, h.few_open);
            counted = λ never. absurd (cc);
            emptied = λ over. refl;
          })
  ]

  module _ (before after : List ℕ) (c : ℕ) (e : w.lent ≡ before ++ c ∷ after) where
    count_lent : (x : ℕ) → count x w.lent ≡ count x (before ++ after) + count x (c ∷ [])
    count_lent x =
        let all : count x w.lent ≡ count x (before ++ c ∷ after) = ap (count x) e in
        ground (arith, all, count-append x before (c ∷ after), count-append x before after)

    length_lent : length w.lent ≡ suc (length (before ++ after))
    length_lent =
        let all : length w.lent ≡ length (before ++ c ∷ after) = ap (λ cs. length cs) e in
        omega (arith, all, length-append before (c ∷ after), length-append before after)

    dropped-Accounts : Accounts mi ma (after_put w (before ++ after) (dropped c w.pool))
    dropped-Accounts = record {
      once = h.once;
      owned = λ x. ground (arith, h.owned x, count_lent x);
      idle_limit = h.idle_limit;
      active_limit = h.active_limit;
      few_idle = h.few_idle;
      few_open = omega (arith, h.few_open, length_lent);
      counted = λ runs.
          ap one_less (h.counted runs)
          ∙ one_less_of (length w.pool.idle + (length w.lent + w.dialling))
              (length w.pool.idle + (length (before ++ after) + w.dialling))
              (omega (arith, length_lent));
      emptied = h.emptied;
    }

    idle-Accounts :
        (now : ℕ)
        → w.pool.closed ≡ false
        → ltb (length w.pool.idle) w.pool.max_idle ≡ true
        → Accounts mi ma (
            after_put w
              (before ++ after)
              (record w.pool { idle = record { client = c; last_used = now } ∷ w.pool.idle }, []))
    idle-Accounts now runs below = record {
      once = h.once;
      owned = λ x. ground (arith, h.owned x, count_lent x);
      idle_limit = h.idle_limit;
      active_limit = h.active_limit;
      few_idle = ground (arith, h.idle_limit);
      few_open = omega (arith, h.few_open, length_lent);
      counted = λ _. h.counted runs ∙ ap pos (omega (arith, length_lent));
      emptied = λ over. absurd (cc);
    }

    pub returned-Accounts :
        (now : ℕ) (failed : Bool)
        → Accounts mi ma (after_put w (before ++ after) (put now c failed w.pool))
    returned-Accounts now failed =
        let goal : Pool × List ℕ → Type 0 = λ r. Accounts mi ma (after_put w (before ++ after) r) in
        elim (Bool-cases (w.pool.closed || failed)) [
          | inl drops ↦ subst goal (sym (put-dropped now c failed w.pool drops)) dropped-Accounts
          | inr keeps ↦ elim (Bool-cases (ltb (length w.pool.idle) w.pool.max_idle)) [
            | inl below ↦
                subst goal (sym (put_idle now c failed w.pool keeps below))
                  (idle-Accounts now (ground arith) below)
            | inr full ↦ subst goal (sym (put_full now c failed w.pool keeps full)) dropped-Accounts
          ]
        ]
