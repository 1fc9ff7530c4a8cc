-- ===== src/Gateway/Deploy/Machine.antt =====
-- Histories of a project: deployments, activations, rollbacks and clean-ups, one after the other.
use go_php.Prelude.{ℕ, String, List, [], ◌∷◌}
use go_php.Gateway.Deploy.{
  Release, ReleaseExtension, ReleaseManager, System, create, activate, deactivate, rollback,
  archive,
}
use go_php.Gateway.Deploy.Switcher.{Prober, Surroundings, Hooks, deploy}

pub data Op : Type 0 where
  creates : System → String → String → List (String × String) → Op
  activates : System → String → Op
  deactivates rolls_back : System → Op
  archives : (List Release → List Release) → ℕ → Op
  deploys :
      System
      → Prober
      → Surroundings
      → Hooks
      → String
      → String
      → List (String × String)
      → List ReleaseExtension
      → Op

unfoldable pub step : ReleaseManager → Op → ReleaseManager
step m (creates y version runtime_id metadata) = (create y version runtime_id metadata m).0
step m (activates y id) = (activate y id m).0
step m (deactivates y) = deactivate y m
step m (rolls_back y) = (rollback y m).0
step m (archives sort keep) = archive sort keep m
step m (deploys y p w h version runtime_id metadata exts) =
    (deploy y p w h version runtime_id metadata exts m).0

unfoldable pub run : ReleaseManager → List Op → ReleaseManager
run m [] = m
run m (o ∷ os) = run (step m o) os
