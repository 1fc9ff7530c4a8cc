-- ===== src/Gateway/Deploy/History/Launch.antt =====
-- Deployment, beside the history.
use go_php.Prelude.{
  ℕ, suc, ◌≤◌, ◌≡◌, refl, String, Option, none, some, List, ◌∷◌, true, false, not, ◌&&◌, ◌||◌,
  str_eq, eq_iff, inl, inr, Bool-cases, Option-cases, ◌∙◌, sym, ap,
}
use go_php.Prelude.Names.{contains}
use go_php.Prelude.Text.{◌++◌}
use go_php.Gateway.Deploy.{
  Release, ReleaseExtension, ReleaseManager, System, Result, err, ok, change, put_release,
  release_id, new_release, create, activate,
}
use go_php.Gateway.Deploy.Switcher.{
  Prober, Surroundings, Hooks, applied_then, created_then, probe, mark_failed, with_extensions,
  probe_and_activate, run_steps, deploy,
}
use go_php.Gateway.Deploy.Entries.{change-All, has_id-change}
use go_php.Gateway.Deploy.Active.Runs.{switched-manager}
use go_php.Gateway.Deploy.History.{History, is_error, applied_passes, passes, after_checks, launch}
use go_php.Gateway.Deploy.History.Refines.{Agrees, Refines}
use go_php.Gateway.Deploy.History.Switch.{Refines-at, Refines-later, activate-Refines}
use go_php.Gateway.Deploy.History.Enrol.{unknown-idle, enrolled-Refines, release_id-Named}

-- A change that the history does not see.
quiet_change-Refines :
    (now : ℕ) (id : String) (f : Release → Release) (m : ReleaseManager) (h : History)
    → ((r : Release) → (f r).id ≡ r.id)
    → ((r : Release) → Agrees h r → str_eq r.id id ≡ true → Agrees h (f r))
    → Refines now m h
    → Refines now (record m { releases = change id f m.releases }) h
quiet_change-Refines now id f m h kept quiet v = record {
  current = v.current;
  known = λ k. has_id-change k id f m.releases kept ∙ v.known k;
  agrees = change-All (Agrees h) (Agrees h) id f m.releases quiet (λ r p other. p) v.agrees;
  left = v.left;
  descends = v.descends;
  named = v.named;
  current_known = v.current_known;
  idle = v.idle;
}

-- A release that does not serve is marked as failed.
mark_failed-Refines :
    (now : ℕ) (id e : String) (m : ReleaseManager) (h : History)
    → (h.serving && str_eq id h.current) ≡ false
    → Refines now m h
    → Refines now (mark_failed id e m) h
mark_failed-Refines now id e m h idle v =
    quiet_change-Refines now id _ m h (λ r. refl)
      (λ r p same. (
        sym idle ∙ ap (λ j. h.serving && str_eq j h.current) (sym ((eq_iff r.id id).0 same)),
        p.1,
        p.2,
      ))
      v

module _ (y : System) (now : ℕ) (p : Prober) (w : Surroundings) (rel : Release) (m : ReleaseManager)
    (h : History) (clock : now ≤ y.stop_time)
    (idle : (h.serving && str_eq rel.id h.current) ≡ false) (v : Refines now m h) where
  refused-Refines : (e : String) → Refines (suc y.stop_time) (mark_failed rel.id e m) h
  refused-Refines e =
      Refines-later now y.stop_time (mark_failed rel.id e m) h clock
        (mark_failed-Refines now rel.id e m h idle v)

  probe_and_activate-Refines :
      (steps : List String)
      → Refines
          (suc y.stop_time)
          (probe_and_activate y p w rel steps m).0
          (after_checks y rel.id (not (is_error (probe p w rel.dir))) h)
  unfolding probe_and_activate
  probe_and_activate-Refines steps = elim (Option-cases (probe p w rel.dir)) [
    | inr (e, ill) ↦ rw (ill, probe_and_activate) (refused-Refines "health probe failed")
    | inl healthy ↦
        rw (healthy, probe_and_activate, switched-manager rel.id steps (activate y rel.id m))
          (activate-Refines y now rel.id m h clock v)
  ]

  applied-Refines :
      (applied : Option (Option String))
      → Refines
          (suc y.stop_time)
          (applied_then y p w rel m applied).0
          (after_checks y rel.id (applied_passes p w rel applied) h)
  applied-Refines none = probe_and_activate-Refines _
  applied-Refines (some none) = probe_and_activate-Refines _
  applied-Refines (some (some e)) = refused-Refines e

  run_steps-Refines :
      (k : Hooks) (exts : List ReleaseExtension)
      → Refines
          (suc y.stop_time)
          (run_steps y p w k rel exts m).0
          (after_checks y rel.id (passes p w k rel exts) h)
  unfolding run_steps passes
  run_steps-Refines k exts = elim (Option-cases k.pre_activate) [
    | inr (e, refused) ↦ rw refused (refused-Refines e)
    | inl hooked ↦ rw hooked (applied-Refines _)
  ]

create_fails :
    (y : System) (version runtime_id : String) (metadata : List (String × String))
    (m : ReleaseManager)
    → (is_error y.copy_error || is_error y.save_error) ≡ true
    → (e : String) × (create y version runtime_id metadata m ≡ (m, err e))
unfolding create
create_fails y version runtime_id metadata m h = elim (Option-cases y.copy_error) [
  | inr (e, copy) ↦ ("create release: " ++ e, rw copy refl)
  | inl copied ↦ elim (Option-cases y.save_error) [
    | inr (e, save) ↦ (e, rw (copied, save) refl)
    | inl saved ↦ absurd (let no_error : false ≡ true = rw (copied, saved) at h in cc)
  ]
]

create_works :
    (y : System) (version runtime_id : String) (metadata : List (String × String))
    (m : ReleaseManager)
    → (is_error y.copy_error || is_error y.save_error) ≡ false
    → create y version runtime_id metadata m ≡ (
      record m { releases = put_release (new_release y version runtime_id metadata) m.releases },
      ok (new_release y version runtime_id metadata),
    )
unfolding create
create_works y version runtime_id metadata m h = elim (Option-cases y.copy_error) [
  | inr (e, copy) ↦ absurd (let error : true ≡ false = rw copy at h in cc)
  | inl copied ↦ elim (Option-cases y.save_error) [
    | inr (e, save) ↦ absurd (let error : true ≡ false = rw (copied, save) at h in cc)
    | inl saved ↦ rw (copied, saved) refl
  ]
]

module _ (y : System) (p : Prober) (w : Surroundings) (k : Hooks) (version runtime_id : String)
    (metadata : List (String × String)) (exts : List ReleaseExtension) where
  deploy_of :
      (m : ReleaseManager) (made : ReleaseManager × Result)
      → create y version runtime_id metadata m ≡ made
      → deploy y p w k version runtime_id metadata exts m ≡ created_then y p w k exts made
  unfolding deploy
  deploy_of m made e = ap (created_then y p w k exts) e

  launch_stops :
      (h : History)
      → (is_error y.copy_error || is_error y.save_error) ≡ true
      → launch y p w k version runtime_id metadata exts h ≡ h
  unfolding launch
  launch_stops h e = rw e refl

  launch_runs :
      (h : History)
      → (is_error y.copy_error || is_error y.save_error) ≡ false
      → (let rel = new_release y version runtime_id metadata in
          launch y p w k version runtime_id metadata exts h
          ≡ after_checks y rel.id (passes p w k rel exts) (record h { known = rel.id ∷ h.known }))
  unfolding launch
  launch_runs h e = rw e refl

pub deploy-Refines :
    (y : System) (now : ℕ) (p : Prober) (w : Surroundings) (k : Hooks) (version runtime_id : String)
    (metadata : List (String × String)) (exts : List ReleaseExtension) (m : ReleaseManager)
    (h : History)
    → contains (release_id version y.now) h.known ≡ false
    → now ≤ y.stop_time
    → Refines now m h
    → Refines
        (suc y.stop_time)
        (deploy y p w k version runtime_id metadata exts m).0
        (launch y p w k version runtime_id metadata exts h)
deploy-Refines y now p w k version runtime_id metadata exts m h fresh clock v =
    elim (Bool-cases (is_error y.copy_error || is_error y.save_error)) [
      | inl broken ↦
          let (e, same) = create_fails y version runtime_id metadata m broken in
          Refines-at _ m _ h _
            (ap (λ d. d.0) (deploy_of y p w k version runtime_id metadata exts m _ same))
            (launch_stops y p w k version runtime_id metadata exts h broken)
            (Refines-later now y.stop_time m h clock v)
      | inr fine ↦
          let rel = new_release y version runtime_id metadata in
          let made = create_works y version runtime_id metadata m fine in
          let enrolled =
            enrolled-Refines now rel m h fresh refl refl (release_id-Named version y.now) v in
          let idle = unknown-idle now rel.id m h fresh v in
          let labelled =
            quiet_change-Refines now rel.id (with_extensions exts) _ _ (λ r. refl) (λ r a same. a)
              enrolled in
          Refines-at _ _ _ _ _
            (ap (λ d. d.0) (deploy_of y p w k version runtime_id metadata exts m _ made))
            (launch_runs y p w k version runtime_id metadata exts h fine)
            (run_steps-Refines y now p w rel _ _ clock idle labelled k exts)
    ]
