-- ===== src/Gateway/Deploy/History/Previous.antt =====
-- The search for the previous release, and the times at which releases were stopped.
use mathlib.Core.Option.{some-injective}
use go_php.Prelude.{
  ℕ, ◌<◌, ◌≡◌, refl, String, Option, none, some, List, [], ◌∷◌, true, false, str_eq, eq_iff, ltb,
  arith, inl, inr, ◌⊎◌, Bool-cases, Option-cases, ◌∙◌, sym, ap, All,
}
use go_php.Gateway.Deploy.{Release, takes, find_previous}
use go_php.Gateway.Deploy.Entries.{has_id}

module _ (current : String) where
  takes_current :
      (r : Release) (prev : Option Release)
      → str_eq r.id current ≡ true
      → takes current r prev ≡ false
  unfolding takes
  takes_current r prev e = rw e refl

  takes_unset :
      (r : Release) (prev : Option Release) → r.deactivated_at ≡ none → takes current r prev ≡ false
  unfolding takes
  takes_unset r prev e = rw e (ground arith)

  takes_first :
      (r : Release) (u : ℕ)
      → str_eq r.id current ≡ false
      → r.deactivated_at ≡ some u
      → takes current r none ≡ true
  unfolding takes
  takes_first r u e k = rw (e, k) refl

  takes_after :
      (r p : Release) (u v : ℕ)
      → str_eq r.id current ≡ false
      → r.deactivated_at ≡ some u
      → p.deactivated_at ≡ some v
      → takes current r (some p) ≡ ltb v u
  unfolding takes
  takes_after r p u v e k l = rw (e, k, l) refl

  find_taken :
      (r : Release) (prev : Option Release) (rs : List Release)
      → takes current r prev ≡ true
      → find_previous current prev (r ∷ rs) ≡ find_previous current (some r) rs
  unfolding find_previous
  find_taken r prev rs e = rw e refl

  find_skipped :
      (r : Release) (prev : Option Release) (rs : List Release)
      → takes current r prev ≡ false
      → find_previous current prev (r ∷ rs) ≡ find_previous current prev rs
  unfolding find_previous
  find_skipped r prev rs e = rw e refl

  takes_at_first :
      (r : Release) (prev : Option Release)
      → takes current r prev ≡ true
      → takes current r none ≡ true
  unfolding takes
  takes_at_first r prev e = ground arith

module _ (current top : String) (t : ℕ) (apart : str_eq top current ≡ false) where
  -- Of the others than the current one, `top` was stopped at `t` and the rest before.
  abbrev pub Last : Release → Type 0
  Last r =
      str_eq r.id current ≡ false
      → ((str_eq r.id top ≡ true) × (r.deactivated_at ≡ some t))
        ⊎ ((str_eq r.id top ≡ false) × ((u : ℕ) → r.deactivated_at ≡ some u → u < t))

  -- What is found so far was stopped before `t`.
  abbrev Before : Option Release → Type 0
  Before none = Unit
  Before (some p) = (u : ℕ) × (p.deactivated_at ≡ some u) × (u < t)

  -- What has been stopped at `t` stays.
  skips : (r p : Release) → p.deactivated_at ≡ some t → Last r → takes current r (some p) ≡ false
  skips r p e h = elim (Bool-cases (str_eq r.id current)) [
    | inl same ↦ takes_current current r (some p) same
    | inr other ↦ elim (Option-cases r.deactivated_at) [
      | inl unset ↦ takes_unset current r (some p) unset
      | inr (u, set) ↦
          let test = takes_after current r p u t other set e in
          elim (h other) [
            | inl (is_top, at) ↦
                let same_time : u ≡ t = some-injective _ _ (sym set ∙ at) in ground (arith, test)
            | inr (not_top, less) ↦ let before : u < t = less u set in ground (arith, test)
          ]
    ]
  ]

  keep_top :
      (p : Release) (rs : List Release)
      → p.deactivated_at ≡ some t
      → All Last rs
      → find_previous current (some p) rs ≡ some p
  keep_top p [] e h = unfold find_previous in refl
  keep_top p (r ∷ rs) e h =
      find_skipped current r (some p) rs (skips r p e h.0) ∙ keep_top p rs e h.1

  -- `top` is taken, whatever was found before.
  takes_top :
      (r : Release) (prev : Option Release)
      → str_eq r.id current ≡ false
      → r.deactivated_at ≡ some t
      → Before prev
      → takes current r prev ≡ true
  takes_top r none other at b = takes_first current r t other at
  takes_top r (some p) other at (u, set, less) =
      takes_after current r p t u other at set ∙ ground arith

  Before-next :
      (r : Release)
      → str_eq r.id top ≡ false
      → Last r
      → takes current r none ≡ true
      → Before (some r)
  Before-next r not_top h e = elim (Bool-cases (str_eq r.id current)) [
    | inl same ↦ let no_test = takes_current current r none same in absurd (cc)
    | inr other ↦ elim (Option-cases r.deactivated_at) [
      | inl unset ↦ let no_test = takes_unset current r none unset in absurd (cc)
      | inr (u, set) ↦ elim (h other) [
        | inl (is_top, at) ↦ absurd (cc)
        | inr (_, less) ↦ (u, set, less u set)
      ]
    ]
  ]

  pub find_top :
      (prev : Option Release) (rs : List Release)
      → Before prev
      → has_id top rs ≡ true
      → All Last rs
      → (p : Release) × (find_previous current prev rs ≡ some p) × (str_eq p.id top ≡ true)
  find_top prev [] b there h = absurd (cc)
  find_top prev (r ∷ rs) b there h = elim (Bool-cases (str_eq r.id top)) [
    | inl is_top ↦
        let other : str_eq r.id current ≡ false =
          ap (λ j. str_eq j current) ((eq_iff r.id top).0 is_top) ∙ apart in
        elim (h.0 other) [
          | inl (_, at) ↦ (
            r,
            find_taken current r prev rs (takes_top r prev other at b) ∙ keep_top r rs at h.1,
            is_top,
          )
          | inr (not_top, _) ↦ absurd (cc)
        ]
    | inr not_top ↦
        let later_on : has_id top rs ≡ true = rw not_top at there in
        elim (Bool-cases (takes current r prev)) [
          | inl taken ↦
              let next = Before-next r not_top h.0 (takes_at_first current r prev taken) in
              let (p, found, named) = find_top (some r) rs next later_on h.1 in
              (p, find_taken current r prev rs taken ∙ found, named)
          | inr skipped ↦
              let (p, found, named) = find_top prev rs b later_on h.1 in
              (p, find_skipped current r prev rs skipped ∙ found, named)
        ]
  ]

-- Where no other release has been stopped there is none to go back to.
pub find_none :
    (current : String) (rs : List Release)
    → All (λ r. str_eq r.id current ≡ false → r.deactivated_at ≡ none) rs
    → find_previous current none rs ≡ none
unfolding find_previous
find_none current [] h = refl
find_none current (r ∷ rs) h =
    let skip : takes current r none ≡ false = elim (Bool-cases (str_eq r.id current)) [
      | inl same ↦ takes_current current r none same
      | inr other ↦ takes_unset current r none (h.0 other)
    ] in
    rw skip (find_none current rs h.1)
