-- ===== src/Gateway/Deploy/Switcher.antt =====
-- internal/deploy/switcher.go: a deployment creates a release, runs the hooks and the probe, and
-- activates it, each of which locks the manager anew: `deploy` is all of it with nothing else in
-- between. Hooks, the applier of extensions and the file system answer through a record.
use go_php.Prelude.{
  ℕ, String, Option, none, some, List, [], ◌∷◌, Bool, true, false, ◌||◌, not, str_eq, ltb, leb,
  if◌then◌else◌,
}
use go_php.Prelude.Text.{◌++◌}
use go_php.Prelude.Int.{pos}
use go_php.Prelude.Decimal.{print_ℤ}
use go_php.Gateway.Deploy.{
  Release, ReleaseExtension, ReleaseManager, System, Result, err, ok, failed, create, change,
  activate, rollback,
}

pub data Stat : Type 0 where
  stat_error : String → Stat
  directory regular other : Stat

-- What the request of the health URL gives.
pub data Health : Type 0 where
  bad_request no_answer : String → Health
  status : ℕ → Health

pub record Prober : Type 0 where
  pub health_url : String
  pub entrypoints : List String

-- os.Stat, filepath.Join and the health URL.
pub record Surroundings : Type 0 where
  pub stat : String → Stat
  pub join : List String → String
  pub health : Health

abbrev pub is_regular : Stat → Bool
is_regular regular = true
is_regular _ = false

unfoldable pub finds_entry : Surroundings → String → List String → Bool
finds_entry w dir [] = false
finds_entry w dir (e ∷ es) =
    is_regular (w.stat (w.join (dir ∷ e ∷ [])))
    || is_regular (w.stat (w.join (dir ∷ "public" ∷ e ∷ [])))
    || finds_entry w dir es

abbrev entrypoints_of : Prober → List String
entrypoints_of p = elim p.entrypoints [ [] ↦ "index.php" ∷ [] | e ∷ es ↦ e ∷ es ]

-- strings.Join(entrypoints, ", ")
abbrev join_comma : List String → String
join_comma [] = ""
join_comma (e ∷ []) = e
join_comma (e ∷ f ∷ es) = e ++ (", " ++ join_comma (f ∷ es))

abbrev probe_health : Health → Option String
probe_health (bad_request e) = some ("probe: build health request: " ++ e)
probe_health (no_answer e) = some ("probe: health request: " ++ e)
probe_health (status n) =
    if ltb n 200 || leb 300 n
    then some ("probe: health check returned " ++ print_ℤ (pos n))
    else none

abbrev probe_files : Prober → Surroundings → String → Option String
probe_files p w dir =
    if not (finds_entry w dir (entrypoints_of p))
    then some
        ("probe: no entrypoint (" ++ (join_comma (entrypoints_of p) ++ (") found in " ++ dir)))
    else if str_eq p.health_url ""
    then none
    else probe_health w.health

-- Probe: the error, or `none` for a release that is healthy.
unfoldable pub probe : Prober → Surroundings → String → Option String
probe p w dir =
    if str_eq dir "" then some "probe: release has no directory" else elim (w.stat dir) [
      | stat_error e ↦ some ("probe: release directory: " ++ e)
      | directory ↦ probe_files p w dir
      | regular ↦ some ("probe: release path " ++ (dir ++ " is not a directory"))
      | other ↦ some ("probe: release path " ++ (dir ++ " is not a directory"))
    ]

-- A step of a deployment that has been done; a result is returned only when all are.
pub record DeployResult : Type 0 where
  pub release : String
  pub success : Bool
  pub steps : List String

pub data Deployed : Type 0 where
  deploy_error : String → Deployed
  deployed : DeployResult → Deployed

-- What the hooks answer, and the applier if there is one.
pub record Hooks : Type 0 where
  pub pre_activate : Option String
  pub applier : Option (String → List ReleaseExtension → Option String)
  pub post_activate : Option String

abbrev pub mark_failed : String → String → ReleaseManager → ReleaseManager
mark_failed id e m = record m {
  releases = change id (λ r. record r { state = failed; error = e }) m.releases;
}

-- The applier is called only if the release has extensions.
unfoldable pub apply_extensions : Hooks → String → List ReleaseExtension → Option (Option String)
apply_extensions h id [] = none
apply_extensions h id (x ∷ xs) = elim h.applier [ none ↦ none | some f ↦ some (f id (x ∷ xs)) ]

abbrev pub steps_of : Option (Option String) → List String
steps_of none =
    "create_release" ∷ "pre_activate_hook" ∷ "health_probe" ∷ "activate" ∷ "post_activate_hook" ∷ []
steps_of (some e) =
    "create_release" ∷ "pre_activate_hook" ∷ "apply_extensions" ∷ "health_probe" ∷ "activate"
    ∷ "post_activate_hook" ∷ []

-- The result of the last step. An error of the hook that runs afterwards is logged only.
abbrev pub switched :
    String → List String → ReleaseManager × Option String → ReleaseManager × Deployed
switched id steps (m, none) = (m, deployed (record { release = id; success = true; steps = steps }))
switched id steps (m, some e) = (m, deploy_error e)

-- The steps from the probe on.
unfoldable pub probe_and_activate :
    System
    → Prober
    → Surroundings
    → Release
    → List String
    → ReleaseManager
    → ReleaseManager × Deployed
probe_and_activate y p w rel steps m = elim (probe p w rel.dir) [
  | some e ↦ (
    mark_failed rel.id "health probe failed" m,
    deploy_error ("probe failed: healthy=false, err=" ++ e),
  )
  | none ↦ switched rel.id steps (activate y rel.id m)
]

-- The steps from the applier on, by what it answers.
abbrev pub applied_then :
    System
    → Prober
    → Surroundings
    → Release
    → ReleaseManager
    → Option (Option String)
    → ReleaseManager × Deployed
applied_then y p w rel m (some (some e)) = (mark_failed rel.id e m, deploy_error e)
applied_then y p w rel m applied = probe_and_activate y p w rel (steps_of applied) m

-- The steps from the first hook on.
unfoldable pub run_steps :
    System
    → Prober
    → Surroundings
    → Hooks
    → Release
    → List ReleaseExtension
    → ReleaseManager
    → ReleaseManager × Deployed
run_steps y p w h rel exts m = elim h.pre_activate [
  | some e ↦ (mark_failed rel.id e m, deploy_error e)
  | none ↦ applied_then y p w rel m (apply_extensions h rel.id exts)
]

abbrev pub with_extensions : List ReleaseExtension → Release → Release
with_extensions exts r = record r { extensions = exts }

abbrev pub created_then :
    System
    → Prober
    → Surroundings
    → Hooks
    → List ReleaseExtension
    → ReleaseManager × Result
    → ReleaseManager × Deployed
created_then y p w h exts (m, err e) = (m, deploy_error e)
created_then y p w h exts (m, ok rel) =
    run_steps y p w h rel exts
      (record m { releases = change rel.id (with_extensions exts) m.releases })

unfoldable pub deploy :
    System
    → Prober
    → Surroundings
    → Hooks
    → String
    → String
    → List (String × String)
    → List ReleaseExtension
    → ReleaseManager
    → ReleaseManager × Deployed
deploy y p w h version runtime_id metadata exts m =
    created_then y p w h exts (create y version runtime_id metadata m)

-- Rollback has a result without steps.
abbrev rolled_back : ReleaseManager × Result → ReleaseManager × Deployed
rolled_back (m, ok rel) = (m, deployed (record { release = rel.id; success = true; steps = [] }))
rolled_back (m, err e) = (m, deploy_error e)

unfoldable pub switch_back : System → ReleaseManager → ReleaseManager × Deployed
switch_back y m = rolled_back (rollback y m)
