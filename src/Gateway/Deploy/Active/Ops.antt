-- ===== src/Gateway/Deploy/Active/Ops.antt =====
-- Active releases after each operation of the manager.
use go_php.Prelude.{
  ℕ, String, ◌≡◌, refl, Option, none, some, List, true, false, str_eq, eq_iff, inl, inr, Bool-cases,
  Option-cases, sym, ap, All,
}
use go_php.Gateway.Deploy.{
  Release, ReleaseManager, System, Link, points, is_active, lookup_release, change, stop_at,
  start_at, fail, stop_current, unlink, swap, activate, deactivate, find_previous, rolled, rollback,
  archive,
}
use go_php.Gateway.Deploy.Entries.{
  Unique, change-All, change-Unique, delete_first-All, delete_first-Unique, lookup_release-All,
}
use go_php.Gateway.Deploy.Active.{
  Named, NotActive, Serves, OneActive, All-map, All-zip, change-Named, stop_current-NotActive,
  stop_current_of, stop_current-Unique, stop_current-Named, stop_current-SameDir,
}

swap-OneActive :
    (y : System) (id : String) (rel : Release) (m : ReleaseManager)
    → ((l : Link) → OneActive (record m { releases = change id fail m.releases; link = l }))
    → OneActive (record m { active_id = id; link = points rel.dir })
    → OneActive (swap y id rel m).0
unfolding swap
swap-OneActive y id rel m broken done = elim (Option-cases y.symlink_error) [
  | inr (e, no_link) ↦ rw no_link (broken (unlink y m.link))
  | inl linked ↦ elim (Option-cases y.rename_error) [
    | inr (e, no_rename) ↦ rw (linked, no_rename) (broken (unlink y m.link))
    | inl renamed ↦ rw (linked, renamed) done
  ]
]

module _ (y : System) (id : String) (rel : Release) (m : ReleaseManager) (h : OneActive m)
    (found : lookup_release id m.releases ≡ some rel) where
  marked-Unique : Unique (change id (start_at y.now) (stop_current y m.active_id m.releases))
  marked-Unique =
      change-Unique id (start_at y.now) (stop_current y m.active_id m.releases) (λ r. refl)
        (stop_current-Unique y m.active_id m.releases h.unique)

  marked-Named : All Named (change id (start_at y.now) (stop_current y m.active_id m.releases))
  marked-Named =
      change-Named id (start_at y.now) (stop_current y m.active_id m.releases) (λ r. refl)
        (stop_current-Named y m.active_id m.releases h.named)

  -- The marked release alone is active.
  marked-Serves :
      All
        (Serves id (points rel.dir))
        (change id (start_at y.now) (stop_current y m.active_id m.releases))
  marked-Serves =
      let rs = stop_current y m.active_id m.releases in
      let dirs =
        stop_current-SameDir y m.active_id id rel.dir m.releases
          (lookup_release-All (λ r. r.dir ≡ rel.dir) id m.releases rel h.unique found refl) in
      let both =
        All-zip NotActive (λ r. str_eq r.id id ≡ true → r.dir ≡ rel.dir) rs
          (stop_current-NotActive y m h) dirs in
      change-All (λ r. NotActive r × (str_eq r.id id ≡ true → r.dir ≡ rel.dir))
        (Serves id (points rel.dir)) id (start_at y.now) rs
        (λ r p same on. ((eq_iff r.id id).0 same, ap points (sym (p.1 same))))
        (λ r p other on. absurd (cc)) both

  failed-NotActive :
      All NotActive
        (change id fail (change id (start_at y.now) (stop_current y m.active_id m.releases)))
  failed-NotActive =
      let rs = stop_current y m.active_id m.releases in
      change-All (λ r. str_eq r.id id ≡ false → NotActive r) NotActive id fail
        (change id (start_at y.now) rs) (λ r p same. refl) (λ r p other. p other)
        (change-All NotActive (λ r. str_eq r.id id ≡ false → NotActive r) id (start_at y.now) rs
          (λ r p same other. absurd (cc)) (λ r p other _. p) (stop_current-NotActive y m h))

  failed-OneActive :
      (l : Link)
      → OneActive (record m {
        releases =
            change id fail (change id (start_at y.now) (stop_current y m.active_id m.releases));
        link = l;
      })
  failed-OneActive l = record {
    unique = change-Unique id fail _ (λ r. refl) marked-Unique;
    named = change-Named id fail _ (λ r. refl) marked-Named;
    serves = All-map NotActive (Serves m.active_id l) _ (λ r off on. absurd (cc)) failed-NotActive;
  }

pub activate-OneActive :
    (y : System) (id : String) (m : ReleaseManager) → OneActive m → OneActive (activate y id m).0
unfolding activate
activate-OneActive y id m h = elim (Option-cases (lookup_release id m.releases)) [
  | inl missing ↦ rw (missing, activate) h
  | inr (rel, found) ↦ elim (Bool-cases (is_active rel.state)) [
    | inl already ↦ rw (found, activate, already) h
    | inr idle ↦
        rw (found, activate, idle)
          (swap-OneActive y id rel _ (failed-OneActive y id rel m h found) (record {
            unique = marked-Unique y id rel m h found;
            named = marked-Named y id rel m h found;
            serves = marked-Serves y id rel m h found;
          }))
  ]
]

pub deactivate-OneActive :
    (y : System) (m : ReleaseManager) → OneActive m → OneActive (deactivate y m)
unfolding deactivate
deactivate-OneActive y m h = elim (Bool-cases (str_eq m.active_id "")) [
  | inl nothing ↦ rw nothing h
  | inr current ↦ rw current (elim (Option-cases (lookup_release m.active_id m.releases)) [
    | inl missing ↦ rw missing h
    | inr (rel, found) ↦
        let stops = stop_current-NotActive y m h in
        let off : All NotActive (change m.active_id (stop_at y.stop_time) m.releases) =
          rw (stop_current_of y m.active_id m.releases current) at stops in
        rw found (record {
          unique = change-Unique m.active_id (stop_at y.stop_time) m.releases (λ r. refl) h.unique;
          named = change-Named m.active_id (stop_at y.stop_time) m.releases (λ r. refl) h.named;
          serves = All-map NotActive (Serves "" (unlink y m.link)) _ (λ r off on. absurd (cc)) off;
        })
  ])
]

pub rolled-manager : (id : String) (p : ReleaseManager × Option String) → (rolled id p).0 ≡ p.0
rolled-manager id (m, none) = refl
rolled-manager id (m, some e) = refl

pub rollback-OneActive :
    (y : System) (m : ReleaseManager) → OneActive m → OneActive (rollback y m).0
unfolding rollback
rollback-OneActive y m h = elim (Bool-cases (str_eq m.active_id "")) [
  | inl nothing ↦ rw nothing h
  | inr current ↦ rw current (elim (Option-cases (find_previous m.active_id none m.releases)) [
    | inl missing ↦ rw missing h
    | inr (prev, found) ↦
        rw (found, rolled-manager prev.id (activate y prev.id m)) (activate-OneActive y prev.id m h)
  ])
]

pub archive-OneActive :
    (sort : List Release → List Release) (keep : ℕ) (m : ReleaseManager)
    → OneActive m
    → OneActive (archive sort keep m)
unfolding archive
archive-OneActive sort keep m h = record {
  unique = delete_first-Unique _ _ m.releases h.unique;
  named = delete_first-All Named _ _ m.releases h.named;
  serves = delete_first-All (Serves m.active_id m.link) _ _ m.releases h.serves;
}
