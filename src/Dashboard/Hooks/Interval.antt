-- ===== src/Dashboard/Hooks/Interval.antt =====
-- `useInterval` of dashboard/src/hooks/useApi.ts over the browser's timers: an effect of a render
-- runs after the cleanup of the one that it replaces, and only when its dependency has changed.
use mathlib.Core.Path.{subst}
use go_php.Prelude.{
  ℕ, suc, Option, none, some, Bool, true, false, List, [], ◌∷◌, not, filter, ◌==◌, ◌≡◌, refl, ap,
  sym, ◌∙◌, arith, Bool-cases, inl, inr, if◌then◌else◌,
}

-- `cleanup` is the timer that the effect's cleanup clears, `timers` the browser's running timers with
-- their periods, and `next_id` what setInterval answers next.
pub record Interval {ℓ} (F : Type ℓ) : Type ℓ where
  pub saved_fn : F
  pub ms : Option ℕ
  pub cleanup : Option ℕ
  pub timers : List (ℕ × ℕ)
  pub next_id : ℕ

abbrev without : ℕ → List (ℕ × ℕ) → List (ℕ × ℕ)
without id ts = filter (λ (t : ℕ × ℕ). not (t.0 == id)) ts

abbrev same_ms : Option ℕ → Option ℕ → Bool
same_ms none none = true
same_ms none (some n) = false
same_ms (some m) none = false
same_ms (some m) (some n) = m == n

same_id : (n : ℕ) → (n == n) ≡ true
same_id n = grind arith

same_ms-eq : (a b : Option ℕ) → same_ms a b ≡ true → a ≡ b
same_ms-eq none none e = refl
same_ms-eq none (some n) e = ground arith
same_ms-eq (some m) none e = ground arith
same_ms-eq (some m) (some n) e = grind arith

module _ {ℓ} {F : Type ℓ} where
  cleared : Option ℕ → Interval F → Interval F
  cleared none i = i
  cleared (some id) i = record i { cleanup = none; timers = without id i.timers }

  -- () => clearInterval(id), where the last effect has a cleanup
  unfoldable clean : Interval F → Interval F
  unfolding cleared
  clean i = cleared i.cleanup i

  unfoldable effect : Option ℕ → Interval F → Interval F
  effect none i = record i { ms = none }
  effect (some m) i = record i {
    ms = some m;
    cleanup = some i.next_id;
    timers = (i.next_id, m) ∷ i.timers;
    next_id = suc i.next_id;
  }

  -- The first render, and every later one.
  unfoldable mount : F → Option ℕ → Interval F
  mount f ms =
      effect ms (record { saved_fn = f; ms = none; cleanup = none; timers = []; next_id = 1 })

  unfoldable render : F → Option ℕ → Interval F → Interval F
  render f ms i =
      let j = record i { saved_fn = f } in if same_ms ms i.ms then j else effect ms (clean j)

  -- () => savedFn.current(): what the timer calls when it fires
  unfoldable fires : Interval F → F
  fires i = i.saved_fn

  unfoldable run : Interval F → List (F × Option ℕ) → Interval F
  run i [] = i
  run i ((f, ms) ∷ rs) = run (render f ms i) rs

  -- The period and the function of the last render.
  last_render : F × Option ℕ → List (F × Option ℕ) → F × Option ℕ
  last_render r [] = r
  last_render r (q ∷ rs) = last_render q rs

  -- The effect of a period is in force: its timer runs and no other one, and its cleanup clears it.
  abbrev Timed : Option ℕ → Interval F → Type 0
  Timed none i = (i.ms ≡ none) × ((i.cleanup ≡ none) × (i.timers ≡ []))
  Timed (some m) i =
      (id : ℕ) × ((i.ms ≡ some m) × ((i.cleanup ≡ some id) × (i.timers ≡ (id, m) ∷ [])))

  Timed-ms : (ms : Option ℕ) (i : Interval F) → Timed ms i → i.ms ≡ ms
  Timed-ms none i h = h.0
  Timed-ms (some m) i h = h.1.0

  -- Nothing runs, whatever period the last effect had.
  abbrev Stopped : Interval F → Type 0
  Stopped i = (i.cleanup ≡ none) × (i.timers ≡ [])

  -- A page that is left keeps no timer.
  clean-Stopped : (ms : Option ℕ) (i : Interval F) → Timed ms i → Stopped (clean i)
  unfolding clean cleared
  clean-Stopped none i (a, (c, t)) = subst (λ x. Stopped (cleared x i)) (sym c) (c, t)
  clean-Stopped (some m) i (id, (a, (c, t))) =
      subst (λ x. Stopped (cleared x i)) (sym c) (refl, rw (t, same_id id))

  effect-Timed : (ms : Option ℕ) (i : Interval F) → Stopped i → Timed ms (effect ms i)
  unfolding effect
  effect-Timed none i (c, t) = (refl, (c, t))
  effect-Timed (some m) i (c, t) = (i.next_id, (refl, (refl, ap (λ ts. (i.next_id, m) ∷ ts) t)))

  kept-Timed :
      (f : F) (ms : Option ℕ) (i : Interval F) → Timed ms i → Timed ms (record i { saved_fn = f })
  kept-Timed f none i h = h
  kept-Timed f (some m) i h = h

  render-Timed :
      (f : F) (ms old : Option ℕ) (i : Interval F) → Timed old i → Timed ms (render f ms i)
  unfolding render
  render-Timed f ms old i h =
      let j : Interval F = record i { saved_fn = f } in
      let pick : Bool → Interval F = λ b. if b then j else effect ms (clean j) in
      elim (Bool-cases (same_ms ms i.ms)) [
        | inl e ↦
            let same : old ≡ ms = sym (Timed-ms old i h) ∙ sym (same_ms-eq ms i.ms e) in
            subst (λ b. Timed ms (pick b)) (sym e)
              (kept-Timed f ms i (subst (λ o. Timed o i) same h))
        | inr e ↦
            subst (λ b. Timed ms (pick b)) (sym e)
              (effect-Timed ms (clean j) (clean-Stopped old j (kept-Timed f old i h)))
      ]

  run-Timed :
      (i : Interval F) (f : F) (ms : Option ℕ) (rs : List (F × Option ℕ))
      → Timed ms i
      → Timed (last_render (f, ms) rs).1 (run i rs)
  unfolding run last_render
  run-Timed i f ms [] h = h
  run-Timed i f ms ((g, n) ∷ rs) h = run-Timed (render g n i) g n rs (render-Timed g n ms i h)

  -- However often a page is rendered, with whatever functions and periods, the timer of the last
  -- render's period runs and no other one, or none at all where that period is null.
  run-mount-Timed :
      (f : F) (ms : Option ℕ) (rs : List (F × Option ℕ))
      → Timed (last_render (f, ms) rs).1 (run (mount f ms) rs)
  unfolding mount
  run-mount-Timed f ms rs = run-Timed _ f ms rs (effect-Timed ms _ (refl, refl))

  effect-saved_fn : (ms : Option ℕ) (i : Interval F) → (effect ms i).saved_fn ≡ i.saved_fn
  unfolding effect
  effect-saved_fn none i = refl
  effect-saved_fn (some m) i = refl

  cleared-saved_fn : (c : Option ℕ) (i : Interval F) → (cleared c i).saved_fn ≡ i.saved_fn
  unfolding cleared
  cleared-saved_fn none i = refl
  cleared-saved_fn (some id) i = refl

  fires-render : (f : F) (ms : Option ℕ) (i : Interval F) → fires (render f ms i) ≡ f
  unfolding fires render clean
  fires-render f ms i =
      let j : Interval F = record i { saved_fn = f } in
      elim (same_ms ms i.ms) as (λ b. (if b then j else effect ms (clean j)).saved_fn ≡ f) [
        | true ↦ refl
        | false ↦ effect-saved_fn ms (clean j) ∙ cleared-saved_fn i.cleanup j
      ]

  fires-run :
      (i : Interval F) (f : F) (ms : Option ℕ) (rs : List (F × Option ℕ))
      → fires i ≡ f
      → fires (run i rs) ≡ (last_render (f, ms) rs).0
  unfolding run last_render
  fires-run i f ms [] h = h
  fires-run i f ms ((g, n) ∷ rs) h = fires-run (render g n i) g n rs (fires-render g n i)

  -- A timer that fires calls the function of the last render, also when an earlier render started it.
  fires-run-mount :
      (f : F) (ms : Option ℕ) (rs : List (F × Option ℕ))
      → fires (run (mount f ms) rs) ≡ (last_render (f, ms) rs).0
  unfolding mount fires
  fires-run-mount f ms rs = fires-run _ f ms rs (effect-saved_fn ms _)
