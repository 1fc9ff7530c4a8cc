-- ===== src/Gateway/Deploy.antt =====
-- internal/deploy/release.go: releases and which of them is active. Every method holds the lock of the
-- manager and is one step, but for Rollback, which gives the lock up between its search and the
-- activation: `rollback` is both with nothing in between. The map of releases is a list of them, in the order in which a loop walks the map.
-- Times are nanoseconds.
pub mod Switcher
pub mod Canary
pub mod Machine
pub mod Entries
pub mod Active
pub mod History
use go_php.Prelude.{
  ℕ, zero, suc, ◌-◌, String, Option, none, some, List, [], ◌∷◌, Bool, true, false, not, ◌&&◌, ◌||◌,
  str_eq, ltb, length, filter, if◌then◌else◌,
}
use go_php.Prelude.Text.{◌++◌}
use go_php.Prelude.Int.{pos}
use go_php.Prelude.Decimal.{print_ℤ}

pub data ReleaseState : Type 0 where
  created active draining stopped failed : ReleaseState

pub record ReleaseExtension : Type 0 where
  pub name : String
  pub type : String

pub record Release : Type 0 where
  pub id : String
  pub version : String
  pub runtime_id : String
  pub state : ReleaseState
  pub created_at : ℕ
  pub activated_at : Option ℕ
  pub deactivated_at : Option ℕ
  pub dir : String
  pub metadata : List (String × String)
  pub error : String
  pub extensions : List ReleaseExtension

-- What stands at releasesDir/active: nothing, the directory that Init makes, or a link.
pub data Link : Type 0 where
  absent made_dir : Link
  points : String → Link

pub record ReleaseManager : Type 0 where
  pub active_id : String
  pub releases : List Release
  pub link : Link

-- What the system answers during one operation: the clock when a release is stopped and when one is
-- made or activated, the directory of an id in the archive, the errors of the copy and of the write
-- of metadata in Create and of Symlink and Rename, and whether Remove takes the link away.
pub record System : Type 0 where
  pub stop_time : ℕ
  pub now : ℕ
  pub archive_dir : String → String
  pub copy_error : Option String
  pub save_error : Option String
  pub symlink_error : Option String
  pub rename_error : Option String
  pub removes : Bool

pub data Result : Type 0 where
  err : String → Result
  ok : Release → Result

abbrev pub is_active : ReleaseState → Bool
is_active active = true
is_active _ = false

abbrev pub is_stopped : ReleaseState → Bool
is_stopped stopped = true
is_stopped failed = true
is_stopped _ = false

unfoldable pub new_manager : ReleaseManager
new_manager = record { active_id = ""; releases = []; link = made_dir }

-- rm.releases[id]
unfoldable pub lookup_release : String → List Release → Option Release
lookup_release id [] = none
lookup_release id (r ∷ rs) =
    let rest = lookup_release id rs in if str_eq r.id id then some r else rest

-- A change through the pointer that the map holds.
unfoldable pub change : String → (Release → Release) → List Release → List Release
change id f [] = []
change id f (r ∷ rs) = let rest = change id f rs in if str_eq r.id id then f r ∷ rest else r ∷ rest

-- rm.releases[rel.ID] = rel
unfoldable pub put_release : Release → List Release → List Release
put_release n [] = n ∷ []
put_release n (r ∷ rs) =
    let rest = put_release n rs in if str_eq r.id n.id then n ∷ rs else r ∷ rest

-- delete(rm.releases, id)
unfoldable pub delete_release : String → List Release → List Release
delete_release id [] = []
delete_release id (r ∷ rs) =
    let rest = delete_release id rs in if str_eq r.id id then rest else r ∷ rest

unfoldable pub release_id : String → ℕ → String
release_id version now = "rel_" ++ (version ++ ("_" ++ print_ℤ (pos now)))

abbrev pub new_release : System → String → String → List (String × String) → Release
new_release y version runtime_id metadata =
    let id = release_id version y.now in
    record {
      id = id;
      version = version;
      runtime_id = runtime_id;
      state = created;
      created_at = y.now;
      activated_at = none;
      deactivated_at = none;
      dir = y.archive_dir id;
      metadata = metadata;
      error = "";
      extensions = [];
    }

unfoldable pub create :
    System → String → String → List (String × String) → ReleaseManager → ReleaseManager × Result
create y version runtime_id metadata m = elim y.copy_error [
  | some e ↦ (m, err ("create release: " ++ e))
  | none ↦ elim y.save_error [
    | some e ↦ (m, err e)
    | none ↦
        let rel = new_release y version runtime_id metadata in
        (record m { releases = put_release rel m.releases }, ok rel)
  ]
]

abbrev pub stop_at : ℕ → Release → Release
stop_at t r = record r { state = stopped; deactivated_at = some t }

abbrev pub start_at : ℕ → Release → Release
start_at t r = record r { state = active; activated_at = some t; deactivated_at = none }

abbrev pub fail : Release → Release
fail r = record r { state = failed }

-- The release that is active until now is stopped, if there is one.
unfoldable pub stop_current : System → String → List Release → List Release
stop_current y current rs =
    if str_eq current "" then rs else change current (stop_at y.stop_time) rs

abbrev pub unlink : System → Link → Link
unlink y l = if y.removes then absent else l

-- The swap of the links, once the release has been marked active: both links are removed first.
unfoldable pub swap : System → String → Release → ReleaseManager → ReleaseManager × Option String
swap y id rel m = elim y.symlink_error [
  | some e ↦ (
    record m { releases = change id fail m.releases; link = unlink y m.link },
    some ("create symlink: " ++ e),
  )
  | none ↦ elim y.rename_error [
    | some e ↦ (
      record m { releases = change id fail m.releases; link = unlink y m.link },
      some ("activate symlink: " ++ e),
    )
    | none ↦ (record m { active_id = id; link = points rel.dir }, none)
  ]
]

unfoldable pub activate : System → String → ReleaseManager → ReleaseManager × Option String
activate y id m = elim (lookup_release id m.releases) [
  | none ↦ (m, some ("release " ++ (id ++ " not found")))
  | some rel ↦
      if is_active rel.state
      then (m, some ("release " ++ (id ++ " is already active")))
      else swap y id rel (record m {
        releases = change id (start_at y.now) (stop_current y m.active_id m.releases);
      })
]

unfoldable pub deactivate : System → ReleaseManager → ReleaseManager
deactivate y m = if str_eq m.active_id "" then m else elim (lookup_release m.active_id m.releases) [
  | none ↦ m
  | some rel ↦ record {
    active_id = "";
    releases = change m.active_id (stop_at y.stop_time) m.releases;
    link = unlink y m.link;
  }
]

-- rel.DeactivatedAt.After(*prev.DeactivatedAt), where both are set.
abbrev pub later : Option ℕ → Option ℕ → Bool
later (some t) (some u) = ltb u t
later _ _ = false

abbrev pub is_set : Option ℕ → Bool
is_set none = false
is_set (some t) = true

abbrev pub better : Release → Option Release → Bool
better r none = true
better r (some p) = later r.deactivated_at p.deactivated_at

-- Does the release replace `prev` in the loop?
unfoldable pub takes : String → Release → Option Release → Bool
takes current r prev = not (str_eq r.id current) && is_set r.deactivated_at && better r prev

-- The loop of findPreviousReleaseID, with `prev`.
unfoldable pub find_previous : String → Option Release → List Release → Option Release
find_previous current prev [] = prev
find_previous current prev (r ∷ rs) =
    if takes current r prev
    then find_previous current (some r) rs
    else find_previous current prev rs

unfoldable pub get : String → ReleaseManager → Result
get id m = elim (lookup_release id m.releases) [
  | none ↦ err ("release " ++ (id ++ " not found"))
  | some rel ↦ ok rel
]

abbrev rolled : String → ReleaseManager × Option String → ReleaseManager × Result
rolled id (m, none) = (m, get id m)
rolled id (m, some e) = (m, err ("rollback: " ++ e))

unfoldable pub rollback : System → ReleaseManager → ReleaseManager × Result
rollback y m =
    if str_eq m.active_id ""
    then (m, err "no active release to rollback from")
    else elim (find_previous m.active_id none m.releases) [
      | none ↦ (m, err "no previous release found")
      | some prev ↦ rolled prev.id (activate y prev.id m)
    ]

-- Active(): nil if there is none.
unfoldable pub active_release : ReleaseManager → Option Release
active_release m = if str_eq m.active_id "" then none else lookup_release m.active_id m.releases

unfoldable pub delete_first : ℕ → List Release → List Release → List Release
delete_first zero cut rs = rs
delete_first n [] rs = rs
delete_first (suc n) (r ∷ cut) rs = delete_first n cut (delete_release r.id rs)

-- `sort` is sort.Slice by the time of creation; `keep` is not negative.
unfoldable pub archive : (List Release → List Release) → ℕ → ReleaseManager → ReleaseManager
archive sort keep m =
    let cut = sort (filter (λ (r : Release). is_stopped r.state) m.releases) in
    record m { releases = delete_first (length cut - keep) cut m.releases }
