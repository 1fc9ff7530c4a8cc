-- ===== src/Gateway/Deploy/History/Times.antt =====
-- The list of the ids that have served: what pushing one and taking one out do to it.
use mathlib.Core.Option.{some-injective}
use go_php.Prelude.{
  ℕ, suc, ◌≤◌, ◌<◌, ◌≡◌, refl, String, none, some, List, [], ◌∷◌, true, false, str_eq, eq_iff,
  arith, inl, inr, Bool-cases, All,
}
use go_php.Gateway.Deploy.History.{Entry, without, time_of, leave}

-- The times fall, all below a bound.
abbrev pub Descends : ℕ → List Entry → Type 0
Descends b [] = Unit
Descends b (e ∷ es) = (e.1 < b) × Descends e.1 es

pub Descends-le : (a b : ℕ) (es : List Entry) → a ≤ b → Descends a es → Descends b es
Descends-le a b [] l h = tt
Descends-le a b (e ∷ es) l h = (omega (arith, h.0), h.1)

pub without-Descends :
    (b : ℕ) (id : String) (es : List Entry) → Descends b es → Descends b (without id es)
unfolding without
without-Descends b id [] h = tt
without-Descends b id (e ∷ es) h = elim (Bool-cases (str_eq e.0 id)) [
  | inl same ↦ rw same (without-Descends b id es (Descends-le e.1 b es (omega (arith, h.0)) h.1))
  | inr other ↦ rw other (h.0, without-Descends e.1 id es h.1)
]

pub leave-Descends :
    (b t : ℕ) (current : String) (es : List Entry)
    → b ≤ t
    → Descends b es
    → Descends (suc t) (leave t current es)
unfolding leave
leave-Descends b t current es l h = elim (Bool-cases (str_eq current "")) [
  | inl nothing ↦ rw nothing (Descends-le b (suc t) es (omega arith) h)
  | inr some_id ↦ rw some_id (omega arith, Descends-le b t es l h)
]

pub Descends-suc : (b t : ℕ) (es : List Entry) → b ≤ t → Descends b es → Descends (suc t) es
Descends-suc b t es l h = Descends-le b (suc t) es (omega arith) h

pub time_of-without :
    (k id : String) (es : List Entry)
    → str_eq k id ≡ false
    → time_of k (without id es) ≡ time_of k es
unfolding time_of without
time_of-without k id [] h = refl
time_of-without k id (e ∷ es) h = elim (Bool-cases (str_eq e.0 id)) [
  | inl same ↦
      let differs : str_eq e.0 k ≡ false =
        ground (arith, eq_iff e.0 id, eq_iff e.0 k, eq_iff k id) in
      rw (same, differs) (time_of-without k id es h)
  | inr other ↦ elim (Bool-cases (str_eq e.0 k)) [
    | inl here ↦ rw (other, here) refl
    | inr away ↦ rw (other, away) (time_of-without k id es h)
  ]
]

pub time_of_cut : (id : String) (es : List Entry) → time_of id (without id es) ≡ none
unfolding time_of without
time_of_cut id [] = refl
time_of_cut id (e ∷ es) = elim (Bool-cases (str_eq e.0 id)) [
  | inl same ↦ rw same (time_of_cut id es)
  | inr other ↦ rw (other, other) (time_of_cut id es)
]

pub time_of-leave :
    (k current : String) (t : ℕ) (es : List Entry)
    → str_eq k current ≡ false
    → time_of k (leave t current es) ≡ time_of k es
unfolding time_of leave
time_of-leave k current t es h = elim (Bool-cases (str_eq current "")) [
  | inl nothing ↦ rw nothing refl
  | inr some_id ↦
      let differs : str_eq current k ≡ false = ground (arith, eq_iff current k, eq_iff k current) in
      rw (some_id, differs) refl
]

pub time_of_latest :
    (k current : String) (t : ℕ) (es : List Entry)
    → str_eq k current ≡ true
    → str_eq current "" ≡ false
    → time_of k (leave t current es) ≡ some t
unfolding time_of leave
time_of_latest k current t es h some_id =
    let here : str_eq current k ≡ true = ground (arith, eq_iff current k, eq_iff k current) in
    rw (some_id, here) refl

pub without-All {ℓ κ} :
    (P : Entry → Type ℓ) (Q : Entry → Type κ) (id : String) (es : List Entry)
    → ((e : Entry) → P e → str_eq e.0 id ≡ false → Q e)
    → All P es
    → All Q (without id es)
unfolding without
without-All P Q id [] f h = tt
without-All P Q id (e ∷ es) f h = elim (Bool-cases (str_eq e.0 id)) [
  | inl same ↦ rw same (without-All P Q id es f h.1)
  | inr other ↦ rw other (f e h.0 other, without-All P Q id es f h.1)
]

pub leave-All {ℓ} :
    (P : Entry → Type ℓ) (t : ℕ) (current : String) (es : List Entry)
    → (str_eq current "" ≡ false → P (current, t))
    → All P es
    → All P (leave t current es)
unfolding leave
leave-All P t current es new h = elim (Bool-cases (str_eq current "")) [
  | inl nothing ↦ rw nothing h
  | inr some_id ↦ rw some_id (new some_id, h)
]

-- An id that was stopped before the bound, at whatever time.
pub time_of-lt :
    (k : String) (b u : ℕ) (es : List Entry) → Descends b es → time_of k es ≡ some u → u < b
unfolding time_of
time_of-lt k b u [] h e = absurd (cc)
time_of-lt k b u (x ∷ es) h e = elim (Bool-cases (str_eq x.0 k)) [
  | inl here ↦
      let at : some x.1 ≡ some u = rw here at e in omega (arith, h.0, some-injective _ _ at)
  | inr away ↦
      let later : time_of k es ≡ some u = rw away at e in
      omega (arith, h.0, time_of-lt k x.1 u es h.1 later)
]
