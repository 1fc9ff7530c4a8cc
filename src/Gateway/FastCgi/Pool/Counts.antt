-- ===== src/Gateway/FastCgi/Pool/Counts.antt =====
-- Where the clients of a sweep go, and what it does to the count of the active ones.
use go_php.Prelude.{
  ℕ, suc, ◌+◌, ◌≤◌, ◌<◌, ◌≡◌, refl, false, ◌&&◌, ltb, ◌==◌, Option, none, some, List, [], ◌∷◌, ◌++◌,
  arith, length, inl, inr, Bool-cases, ◌∙◌, ap,
}
use go_php.Prelude.Int.{ℤ, pos}
use go_php.Gateway.FastCgi.Pool.{
  PooledClient, clients, sweep, expired, one_less, one_more, at_least,
}
use go_php.Gateway.FastCgi.Pool.Moves.{count}

pub count-append : (x : ℕ) (xs ys : List ℕ) → count x (xs ++ ys) ≡ count x xs + count x ys
count-append x [] ys = omega arith
count-append x (c ∷ cs) ys = ground (arith, count-append x cs ys)

pub count_once : (x c : ℕ) (cs : List ℕ) → count c cs ≡ 0 → count x cs ≤ 1 → count x (c ∷ cs) ≤ 1
count_once x c cs new few = elim (Bool-cases (c == x)) [
  | inl same ↦
      let e : c ≡ x = ground arith in
      let gone : count x cs ≡ 0 = rw e at new in rw same (omega arith)
  | inr other ↦ rw other few
]

pub room_left :
    (n : ℤ) (k max : ℕ) → n ≡ pos k → 0 < max → (ltb 0 max && at_least n max) ≡ false → k < max
room_left n k max e h below =
    let bounded : (ltb 0 max && at_least (pos k) max) ≡ false = rw e at below in ground arith

pub one_less_of : (m n : ℕ) → m ≡ suc n → one_less (pos m) ≡ pos n
one_less_of m n h = ground arith

pub one_more_lem : (n : ℕ) → one_more (pos n) ≡ pos (suc n)
one_more_lem n = ground arith

-- The client that was found, as a list.
abbrev pub found_list : Option ℕ → List ℕ
found_list none = []
found_list (some c) = c ∷ []

pub count-sweep :
    (timeout now : ℕ) (idle : List PooledClient) (n : ℤ) (x : ℕ)
    → let s = sweep timeout now idle n in
      count x (clients s.idle) + count x (found_list s.found) + count x s.shut
      ≡ count x (clients idle)
unfolding sweep
count-sweep timeout now [] n x = refl
count-sweep timeout now (pc ∷ rest) n x = elim (Bool-cases (expired timeout now pc)) [
  | inl old ↦ rw old (ground (arith, count-sweep timeout now rest (one_less n) x))
  | inr new ↦ rw new (ground arith)
]

pub length-sweep :
    (timeout now : ℕ) (idle : List PooledClient) (n : ℤ)
    → let s = sweep timeout now idle n in
      length s.idle + length (found_list s.found) + length s.shut ≡ length idle
unfolding sweep
length-sweep timeout now [] n = refl
length-sweep timeout now (pc ∷ rest) n = elim (Bool-cases (expired timeout now pc)) [
  | inl old ↦ rw old (omega (arith, length-sweep timeout now rest (one_less n)))
  | inr new ↦ rw new (omega arith)
]

pub active-sweep :
    (timeout now : ℕ) (idle : List PooledClient) (n : ℤ) (others : ℕ)
    → n ≡ pos (length idle + others)
    → let s = sweep timeout now idle n in
      s.active_count ≡ pos (length s.idle + length (found_list s.found) + others)
unfolding sweep
active-sweep timeout now [] n others h = h
active-sweep timeout now (pc ∷ rest) n others h = elim (Bool-cases (expired timeout now pc)) [
  | inl old ↦ rw old (
      active-sweep timeout now rest (one_less n) others (
        ap one_less h
        ∙ one_less_of (length (pc ∷ rest) + others) (length rest + others) (omega arith)))
  | inr new ↦ rw new (h ∙ ap (λ k. pos (k + others)) (omega arith))
]
