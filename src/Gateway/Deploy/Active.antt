-- ===== src/Gateway/Deploy/Active.antt =====
-- Active releases, the active id and the link.
pub mod Ops
pub mod Runs
use mathlib.Core.Option.{some-injective}
use go_php.Prelude.{
  ℕ, String, ◌≡◌, refl, Option, none, some, List, [], ◌∷◌, Bool, true, false, not, ◌||◌, str_eq,
  eq_iff, arith, inl, inr, Bool-cases, Option-cases, ◌∙◌, sym, ap, All, if◌then◌else◌,
}
use Prim.Native.Char.{Char}
use Prim.Native.String
use go_php.Prelude.Text.{◌++◌, text_length}
use go_php.Gateway.Deploy.{
  Release, ReleaseExtension, ReleaseManager, System, Link, points, Result, err, ok, is_active,
  new_manager, lookup_release, change, put_release, release_id, new_release, create, stop_at,
  start_at, fail, stop_current, unlink, swap, activate, deactivate, find_previous, rolled, rollback,
  archive,
}
use go_php.Gateway.Deploy.Switcher.{
  Prober, Surroundings, Hooks, Deployed, applied_then, created_then, probe, mark_failed,
  apply_extensions, switched, with_extensions, probe_and_activate, run_steps, deploy,
}
use go_php.Gateway.Deploy.Machine.{
  Op, creates, activates, deactivates, rolls_back, archives, deploys, step, run,
}
use go_php.Gateway.Deploy.Entries.{
  Unique, change-All, put_release-All, change-Unique, put_release-Unique, delete_first-All,
  delete_first-Unique, lookup_release-id, lookup_release-All,
}

abbrev pub Named : Release → Type 0
Named r = str_eq r.id "" ≡ false

abbrev pub NotActive : Release → Type 0
NotActive r = is_active r.state ≡ false

-- If the release is active then it is the one of the id, and the link leads to its directory.
abbrev pub Serves : String → Link → Release → Type 0
Serves current l r = is_active r.state ≡ true → (r.id ≡ current) × (l ≡ points r.dir)

pub record OneActive (m : ReleaseManager) : Type 0 where
  pub unique : Unique m.releases
  pub named : All Named m.releases
  pub serves : All (Serves m.active_id m.link) m.releases

pub All-map {ℓ κ} :
    {A : Type 0} (P : A → Type ℓ) (Q : A → Type κ) (xs : List A)
    → ((x : A) → P x → Q x)
    → All P xs
    → All Q xs
All-map P Q [] f h = tt
All-map P Q (x ∷ xs) f h = (f x h.0, All-map P Q xs f h.1)

pub All-zip {ℓ κ} :
    {A : Type 0} (P : A → Type ℓ) (Q : A → Type κ) (xs : List A)
    → All P xs
    → All Q xs
    → All (λ x. P x × Q x) xs
All-zip P Q [] h k = tt
All-zip P Q (x ∷ xs) h k = ((h.0, k.0), All-zip P Q xs h.1 k.1)

pub change-Named :
    (id : String) (f : Release → Release) (rs : List Release)
    → ((r : Release) → (f r).id ≡ r.id)
    → All Named rs
    → All Named (change id f rs)
change-Named id f rs kept h =
    change-All Named Named id f rs (λ r n same. ap (λ j. str_eq j "") (kept r) ∙ n) (λ r n other. n)
      h

-- A change that makes no release active, or of none that is.
pub quiet-change :
    (id : String) (f : Release → Release) (m : ReleaseManager)
    → ((r : Release) → (f r).id ≡ r.id)
    → ((r : Release)
        → str_eq r.id id ≡ true
        → Serves m.active_id m.link r
        → Serves m.active_id m.link (f r))
    → OneActive m
    → OneActive (record m { releases = change id f m.releases })
quiet-change id f m kept quiet h = record {
  unique = change-Unique id f m.releases kept h.unique;
  named = change-Named id f m.releases kept h.named;
  serves =
      change-All (Serves m.active_id m.link) (Serves m.active_id m.link) id f m.releases
        (λ r s same. quiet r same s) (λ r s other. s) h.serves;
}

-- A text that starts with a character is not empty.
pub prefixed-Named : (c : Char) (s : String) → str_eq (String.◌∷◌ c s) "" ≡ false
prefixed-Named c s = elim (Bool-cases (str_eq (String.◌∷◌ c s) "")) [
  | inr letters ↦ letters
  | inl nothing ↦
      let e : text_length (String.◌∷◌ c s) ≡ 0 =
        ap text_length ((eq_iff (String.◌∷◌ c s) "").0 nothing) in
      absurd (omega (arith, e))
]

pub create-OneActive :
    (y : System) (version runtime_id : String) (metadata : List (String × String))
    (m : ReleaseManager)
    → OneActive m
    → OneActive (create y version runtime_id metadata m).0
unfolding create release_id
create-OneActive y version runtime_id metadata m h = elim (Option-cases y.copy_error) [
  | inr (e, copy) ↦ rw copy h
  | inl copied ↦ elim (Option-cases y.save_error) [
    | inr (e, save) ↦ rw (copied, save) h
    | inl saved ↦
        let rel = new_release y version runtime_id metadata in
        rw (copied, saved)
          (record {
            unique = put_release-Unique rel m.releases h.unique;
            named = put_release-All Named rel m.releases (prefixed-Named _ _) h.named;
            serves =
                put_release-All (Serves m.active_id m.link) rel m.releases (λ no. absurd (cc))
                  h.serves;
          })
  ]
]

-- After the release of the id has been stopped no release is active.
pub stop_current-NotActive :
    (y : System) (m : ReleaseManager)
    → OneActive m
    → All NotActive (stop_current y m.active_id m.releases)
unfolding stop_current
stop_current-NotActive y m h =
    let both = All-zip Named (Serves m.active_id m.link) m.releases h.named h.serves in
    elim (Bool-cases (str_eq m.active_id "")) [
      | inl nothing ↦
          let quiet : (r : Release) → Named r × Serves m.active_id m.link r → NotActive r = λ r p.
            elim (Bool-cases (is_active r.state)) [
              | inr off ↦ off
              | inl on ↦
                  let e : str_eq r.id "" ≡ true = ap (λ j. str_eq j "") (p.1 on).0 ∙ nothing in
                  absurd (cc)
            ] in
          rw nothing
            (All-map (λ r. Named r × Serves m.active_id m.link r) NotActive m.releases quiet both)
      | inr current ↦
          let others : (r : Release)
              → Serves m.active_id m.link r
              → str_eq r.id m.active_id ≡ false
              → NotActive r =
            λ r s other. elim (Bool-cases (is_active r.state)) [
              | inr off ↦ off
              | inl on ↦
                  let e : str_eq r.id m.active_id ≡ true = (eq_iff r.id m.active_id).1 (s on).0 in
                  absurd (cc)
            ] in
          rw current (
            change-All (Serves m.active_id m.link) NotActive m.active_id (stop_at y.stop_time)
              m.releases (λ r s same. refl) others h.serves)
    ]

pub stop_current_of_none :
    (y : System) (current : String) (rs : List Release)
    → str_eq current "" ≡ true
    → stop_current y current rs ≡ rs
unfolding stop_current
stop_current_of_none y current rs e = rw e refl

pub stop_current_of :
    (y : System) (current : String) (rs : List Release)
    → str_eq current "" ≡ false
    → stop_current y current rs ≡ change current (stop_at y.stop_time) rs
unfolding stop_current
stop_current_of y current rs e = rw e refl

pub stop_current-Unique :
    (y : System) (current : String) (rs : List Release)
    → Unique rs
    → Unique (stop_current y current rs)
unfolding stop_current
stop_current-Unique y current rs h = elim (Bool-cases (str_eq current "")) [
  | inl nothing ↦ rw nothing h
  | inr some_id ↦ rw some_id (change-Unique current (stop_at y.stop_time) rs (λ r. refl) h)
]

pub stop_current-Named :
    (y : System) (current : String) (rs : List Release)
    → All Named rs
    → All Named (stop_current y current rs)
unfolding stop_current
stop_current-Named y current rs h = elim (Bool-cases (str_eq current "")) [
  | inl nothing ↦ rw nothing h
  | inr some_id ↦ rw some_id (change-Named current (stop_at y.stop_time) rs (λ r. refl) h)
]

-- What the releases that are called `id` have for their directory, through a change of others' state.
pub stop_current-SameDir :
    (y : System) (current id dir : String) (rs : List Release)
    → All (λ r. str_eq r.id id ≡ true → r.dir ≡ dir) rs
    → All (λ r. str_eq r.id id ≡ true → r.dir ≡ dir) (stop_current y current rs)
unfolding stop_current
stop_current-SameDir y current id dir rs h = elim (Bool-cases (str_eq current "")) [
  | inl nothing ↦ rw nothing h
  | inr some_id ↦ rw some_id (
      change-All (λ r. str_eq r.id id ≡ true → r.dir ≡ dir)
        (λ r. str_eq r.id id ≡ true → r.dir ≡ dir) current (stop_at y.stop_time) rs (λ r p same. p)
        (λ r p other. p) h)
]
