-- ===== src/Dashboard/Hooks/Laws.antt =====
-- What `useApi` keeps while loads overlap, fail, and outlive their component.
use go_php.Prelude.{
  String, ◌≡◌, refl, Option, none, some, Bool, true, false, List, [], ◌∷◌, ◌⊎◌, inl, inr, arith,
  if◌then◌else◌, Bool-cases,
}
use go_php.Dashboard.Hooks.{
  Fetch, resolved, rejected, Event, mounts, unmounts, refetches, settles, initial, load, settle,
  mount, unmount, step, run, message_or,
}

module _ {ℓ} {T : Type ℓ} where
  -- A page that is not loading has something to show: a value, or an error.
  abbrev pub Shows : Fetch T → Type ℓ
  Shows f = f.loading ≡ false → ((v : T) × (f.value ≡ some v)) ⊎ ((m : String) × (f.error ≡ some m))

  step-Shows : (f : Fetch T) (e : Event T) → Shows f → Shows (step f e)
  unfolding step
  step-Shows f mounts h l = cc
  step-Shows f unmounts h l = h l
  step-Shows f refetches h l = cc
  step-Shows f (settles (resolved v)) h l = elim (Bool-cases f.mounted) [
    | inl m ↦ inl (v, rw (m, settle))
    | inr m ↦ rw (m, settle) (h (rw (m, settle) at l))
  ]
  step-Shows f (settles (rejected x)) h l = elim (Bool-cases f.mounted) [
    | inl m ↦ inr (message_or x "Unknown error", rw (m, settle))
    | inr m ↦ rw (m, settle) (h (rw (m, settle) at l))
  ]

  run-Shows : (f : Fetch T) (es : List (Event T)) → Shows f → Shows (run f es)
  unfolding run
  run-Shows f [] h = h
  run-Shows f (e ∷ es) h = run-Shows (step f e) es (step-Shows f e h)

  -- Whatever mounts, unmounts, refetches and settlements have happened, in any order and with loads
  -- overlapping: if the hook reports `loading = false` then it holds a value or an error.
  pub run-initial-Shows : (es : List (Event T)) → Shows (run initial es)
  unfolding initial
  run-initial-Shows es = run-Shows _ es (λ l. cc)

  -- The value that a history leaves: that of the last load that was fulfilled while mounted.
  unfoldable pub last_value : Bool → Option T → List (Event T) → Option T
  last_value m v [] = v
  last_value m v (mounts ∷ es) = last_value true v es
  last_value m v (unmounts ∷ es) = last_value false v es
  last_value m v (refetches ∷ es) = last_value m v es
  last_value m v (settles (resolved t) ∷ es) = last_value m (if m then some t else v) es
  last_value m v (settles (rejected x) ∷ es) = last_value m v es

  value-run :
      (f : Fetch T) (es : List (Event T)) → (run f es).value ≡ last_value f.mounted f.value es
  unfolding run step last_value
  value-run f [] = refl
  value-run f (mounts ∷ es) = value-run (mount f) es
  value-run f (unmounts ∷ es) = value-run (unmount f) es
  value-run f (refetches ∷ es) = value-run (load f) es
  value-run f (settles (resolved t) ∷ es) = ground (arith, value-run (settle (resolved t) f) es)
  value-run f (settles (rejected x) ∷ es) = ground (arith, value-run (settle (rejected x) f) es)

  -- After any history the hook's value is that of the load that was fulfilled last while the
  -- component was mounted, in the order of settling and not of starting; a load that fails, or that
  -- settles after the unmount, leaves it.
  pub value-run-initial : (es : List (Event T)) → (run initial es).value ≡ last_value true none es
  unfolding initial
  value-run-initial es = value-run _ es
