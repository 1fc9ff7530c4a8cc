-- ===== src/Gateway/Deploy/Active/Runs.antt =====
-- Active releases after deployments and after sequences of operations.
use go_php.Prelude.{String, ◌≡◌, refl, Option, none, some, List, [], ◌∷◌, inl, inr, Option-cases}
use go_php.Gateway.Deploy.{
  Release, ReleaseExtension, ReleaseManager, System, Result, err, ok, new_manager, create, activate,
}
use go_php.Gateway.Deploy.Switcher.{
  Prober, Surroundings, Hooks, applied_then, created_then, probe, mark_failed, switched,
  with_extensions, probe_and_activate, run_steps, deploy,
}
use go_php.Gateway.Deploy.Machine.{
  Op, creates, activates, deactivates, rolls_back, archives, deploys, step, run,
}
use go_php.Gateway.Deploy.Active.{OneActive, quiet-change, create-OneActive}
use go_php.Gateway.Deploy.Active.Ops.{
  activate-OneActive, deactivate-OneActive, rollback-OneActive, archive-OneActive,
}

mark_failed-OneActive :
    (id e : String) (m : ReleaseManager) → OneActive m → OneActive (mark_failed id e m)
mark_failed-OneActive id e m h = quiet-change id _ m (λ r. refl) (λ r same s on. absurd (cc)) h

pub switched-manager :
    (id : String) (steps : List String) (p : ReleaseManager × Option String)
    → (switched id steps p).0 ≡ p.0
switched-manager id steps (m, none) = refl
switched-manager id steps (m, some e) = refl

probe_and_activate-OneActive :
    (y : System) (p : Prober) (w : Surroundings) (rel : Release) (steps : List String)
    (m : ReleaseManager)
    → OneActive m
    → OneActive (probe_and_activate y p w rel steps m).0
unfolding probe_and_activate
probe_and_activate-OneActive y p w rel steps m h = elim (Option-cases (probe p w rel.dir)) [
  | inr (e, ill) ↦
      rw (ill, probe_and_activate) (mark_failed-OneActive rel.id "health probe failed" m h)
  | inl healthy ↦
      rw (healthy, probe_and_activate, switched-manager rel.id steps (activate y rel.id m))
        (activate-OneActive y rel.id m h)
]

applied-OneActive :
    (y : System) (p : Prober) (w : Surroundings) (rel : Release) (m : ReleaseManager)
    (applied : Option (Option String))
    → OneActive m
    → OneActive (applied_then y p w rel m applied).0
applied-OneActive y p w rel m none h = probe_and_activate-OneActive y p w rel _ m h
applied-OneActive y p w rel m (some none) h = probe_and_activate-OneActive y p w rel _ m h
applied-OneActive y p w rel m (some (some e)) h = mark_failed-OneActive rel.id e m h

run_steps-OneActive :
    (y : System) (p : Prober) (w : Surroundings) (k : Hooks) (rel : Release)
    (exts : List ReleaseExtension) (m : ReleaseManager)
    → OneActive m
    → OneActive (run_steps y p w k rel exts m).0
unfolding run_steps
run_steps-OneActive y p w k rel exts m h = elim (Option-cases k.pre_activate) [
  | inr (e, refused) ↦ rw refused (mark_failed-OneActive rel.id e m h)
  | inl hooked ↦ rw hooked (applied-OneActive y p w rel m _ h)
]

created-OneActive :
    (y : System) (p : Prober) (w : Surroundings) (k : Hooks) (exts : List ReleaseExtension)
    (made : ReleaseManager × Result)
    → OneActive made.0
    → OneActive (created_then y p w k exts made).0
created-OneActive y p w k exts (m, err e) h = h
created-OneActive y p w k exts (m, ok rel) h =
    run_steps-OneActive y p w k rel exts _
      (quiet-change rel.id (with_extensions exts) m (λ r. refl) (λ r same s. s) h)

deploy-OneActive :
    (y : System) (p : Prober) (w : Surroundings) (k : Hooks) (version runtime_id : String)
    (metadata : List (String × String)) (exts : List ReleaseExtension) (m : ReleaseManager)
    → OneActive m
    → OneActive (deploy y p w k version runtime_id metadata exts m).0
unfolding deploy
deploy-OneActive y p w k version runtime_id metadata exts m h =
    created-OneActive y p w k exts (create y version runtime_id metadata m)
      (create-OneActive y version runtime_id metadata m h)

step-OneActive : (m : ReleaseManager) (o : Op) → OneActive m → OneActive (step m o)
unfolding step
step-OneActive m (creates y version runtime_id metadata) h =
    create-OneActive y version runtime_id metadata m h
step-OneActive m (activates y id) h = activate-OneActive y id m h
step-OneActive m (deactivates y) h = deactivate-OneActive y m h
step-OneActive m (rolls_back y) h = rollback-OneActive y m h
step-OneActive m (archives sort keep) h = archive-OneActive sort keep m h
step-OneActive m (deploys y p w k version runtime_id metadata exts) h =
    deploy-OneActive y p w k version runtime_id metadata exts m h

run-OneActive : (m : ReleaseManager) (os : List Op) → OneActive m → OneActive (run m os)
unfolding run
run-OneActive m [] h = h
run-OneActive m (o ∷ os) h = run-OneActive (step m o) os (step-OneActive m o h)

-- Whatever operations are done, one after the other, and whatever the system answers: every release
-- that is active is the one of the manager's active id, the link leads to its directory, and no id is
-- there twice.
pub run-new_manager-OneActive : (os : List Op) → OneActive (run new_manager os)
unfolding new_manager
run-new_manager-OneActive os =
    run-OneActive new_manager os (record { unique = tt; named = tt; serves = tt })
