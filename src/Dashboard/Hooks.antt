-- ===== src/Dashboard/Hooks.antt =====
-- dashboard/src/hooks/useApi.ts. A hook is a record and its operations are the pieces of code that
-- the event loop runs: the synchronous head of `load`, and what follows its `await` once the promise
-- settles. `mounted` is `mountedRef.current`.
pub mod Interval
pub mod Laws
use go_php.Prelude.{String, Option, none, some, Bool, true, false, List, [], ◌∷◌, if◌then◌else◌}

-- What a `catch (e)` receives: an `Error` with its message, or any other value.
pub data Thrown : Type 0 where
  error_object : String → Thrown
  other : Thrown

-- e instanceof Error ? e.message : fallback
abbrev pub message_or : Thrown → String → String
message_or (error_object m) fallback = m
message_or other fallback = fallback

-- How a promise settles.
pub data Settled {ℓ} (T : Type ℓ) : Type ℓ where
  resolved : T → Settled T
  rejected : Thrown → Settled T

pub record Fetch {ℓ} (T : Type ℓ) : Type ℓ where
  pub value : Option T
  pub loading : Bool
  pub error : Option String
  pub mounted : Bool

pub data Event {ℓ} (T : Type ℓ) : Type ℓ where
  mounts unmounts refetches : Event T
  settles : Settled T → Event T

module _ {ℓ} {T : Type ℓ} where
  unfoldable pub initial : Fetch T
  initial = record { value = none; loading = true; error = none; mounted = true }

  -- The head of `load`, up to its `await`.
  unfoldable pub load : Fetch T → Fetch T
  load f = record f { loading = true; error = none }

  -- The `finally` block.
  finish : Fetch T → Fetch T
  finish f = if f.mounted then record f { loading = false } else f

  -- What `load` does when the fetcher's promise settles.
  unfoldable pub settle : Settled T → Fetch T → Fetch T
  unfolding finish
  settle (resolved result) f = finish (if f.mounted then record f { value = some result } else f)
  settle (rejected e) f =
      finish (if f.mounted then record f { error = some (message_or e "Unknown error") } else f)

  -- The effect of the component: it runs on mount, and its cleanup on unmount.
  unfoldable pub mount : Fetch T → Fetch T
  unfolding load
  mount f = load (record f { mounted = true })

  unfoldable pub unmount : Fetch T → Fetch T
  unmount f = record f { mounted = false }

  unfoldable pub step : Fetch T → Event T → Fetch T
  unfolding load settle mount unmount
  step f mounts = mount f
  step f unmounts = unmount f
  step f refetches = load f
  step f (settles r) = settle r f

  unfoldable pub run : Fetch T → List (Event T) → Fetch T
  run f [] = f
  run f (e ∷ es) = run (step f e) es
