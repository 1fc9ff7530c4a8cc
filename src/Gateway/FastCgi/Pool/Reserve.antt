-- ===== src/Gateway/FastCgi/Pool/Reserve.antt =====
-- The accounts after the part of a call that looks for an idle client.
use go_php.Prelude.{
  ℕ, ◌+◌, ◌≤◌, ◌<◌, ◌≡◌, refl, none, some, [], ◌++◌, true, false, ◌&&◌, Option, arith, length, inl,
  inr, Bool-cases, ◌∙◌, ap, sym, ltb,
}
use mathlib.Core.Path.{subst}
use go_php.Prelude.Int.{pos}
use go_php.Gateway.FastCgi.Pool.{
  Pool, clients, Sweep, sweep, after_sweep, reserve, fails, pool_closed, one_more, at_least,
}
use go_php.Gateway.FastCgi.Pool.Moves.{count, World, after_reserve}
use go_php.Gateway.FastCgi.Pool.Counts.{
  count-append, room_left, one_more_lem, found_list, count-sweep, length-sweep, active-sweep,
}
use go_php.Gateway.FastCgi.Pool.Accounts.{Accounts}

reserve_closed :
    (now : ℕ) (p : Pool)
    → p.closed ≡ true
    → reserve now p ≡ record { pool = p; shut = []; answer = fails pool_closed }
unfolding reserve
reserve_closed now p over = rw over refl

reserve_open :
    (now : ℕ) (p : Pool)
    → p.closed ≡ false
    → let s = sweep p.idle_timeout now p.idle p.active_count in
      reserve now p ≡ after_sweep p s s.found
unfolding reserve
reserve_open now p runs = rw runs refl

module _ (mi ma : ℕ) (room : 0 < ma) (w : World) (h : Accounts mi ma w) where
  module _ (s : Sweep)
      (parts : (x : ℕ)
        → count x (clients s.idle) + count x (found_list s.found) + count x s.shut
          ≡ count x (clients w.pool.idle))
      (fewer : length s.idle + length (found_list s.found) + length s.shut ≡ length w.pool.idle)
      (active : s.active_count
        ≡ pos (length s.idle + length (found_list s.found) + (length w.lent + w.dialling)))
      (runs : w.pool.closed ≡ false) where
    after_sweep-Accounts :
        (found : Option ℕ)
        → s.found ≡ found
        → Accounts mi ma (after_reserve w (after_sweep w.pool s found))
    after_sweep-Accounts (some c) e = record {
      once = h.once;
      owned = λ x. ground (arith, h.owned x, count-append x s.shut w.shut, rw e at parts x);
      idle_limit = h.idle_limit;
      active_limit = h.active_limit;
      few_idle = omega (arith, h.few_idle, fewer);
      few_open = omega (arith, h.few_open, rw e at fewer);
      counted = λ _. rw e at active ∙ ap pos (omega arith);
      emptied = λ over. absurd (cc);
    }
    after_sweep-Accounts none e =
        let own : (x : ℕ)
            → count x (clients s.idle) + count x w.lent + count x (s.shut ++ w.shut)
              ≡ count x w.made =
          λ x. omega (arith, h.owned x, count-append x s.shut w.shut, rw e at parts x) in
        let few : length s.idle ≤ mi = omega (arith, h.few_idle, fewer) in
        let all : length s.idle + length w.lent + w.dialling ≤ ma =
          omega (arith, h.few_open, fewer) in
        let now_active : s.active_count ≡ pos (length s.idle + (length w.lent + w.dialling)) =
          rw e at active ∙ ap pos (omega arith) in
        elim (Bool-cases (ltb 0 w.pool.max_active && at_least s.active_count w.pool.max_active)) [
          | inl full ↦ rw full (record {
            once = h.once;
            owned = own;
            idle_limit = h.idle_limit;
            active_limit = h.active_limit;
            few_idle = few;
            few_open = all;
            counted = λ _. now_active;
            emptied = λ over. absurd (cc);
          })
          | inr below ↦
              let left : length s.idle + (length w.lent + w.dialling) < w.pool.max_active =
                room_left s.active_count (length s.idle + (length w.lent + w.dialling))
                  w.pool.max_active now_active (subst (λ m. 0 < m) (sym h.active_limit) room)
                  below in
              rw below (record {
                once = h.once;
                owned = own;
                idle_limit = h.idle_limit;
                active_limit = h.active_limit;
                few_idle = few;
                few_open = omega (arith, left, h.active_limit);
                counted = λ _.
                    ap one_more now_active
                    ∙ one_more_lem (length s.idle + (length w.lent + w.dialling))
                    ∙ ap pos (omega arith);
                emptied = λ over. absurd (cc);
              })
        ]

  pub reserved-Accounts : (now : ℕ) → Accounts mi ma (after_reserve w (reserve now w.pool))
  reserved-Accounts now = elim (Bool-cases w.pool.closed) [
    | inl over ↦
        subst (λ r. Accounts mi ma (after_reserve w r)) (sym (reserve_closed now w.pool over)) h
    | inr runs ↦
        let s = sweep w.pool.idle_timeout now w.pool.idle w.pool.active_count in
        subst (λ r. Accounts mi ma (after_reserve w r)) (sym (reserve_open now w.pool runs))
          (after_sweep-Accounts s
            (count-sweep w.pool.idle_timeout now w.pool.idle w.pool.active_count)
            (length-sweep w.pool.idle_timeout now w.pool.idle w.pool.active_count)
            (active-sweep w.pool.idle_timeout now w.pool.idle w.pool.active_count
              (length w.lent + w.dialling) (h.counted runs))
            runs s.found refl)
  ]
