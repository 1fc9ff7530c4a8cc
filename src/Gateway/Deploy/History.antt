-- ===== src/Gateway/Deploy/History.antt =====
-- An abstract history of releases, without their records: which ids there are, which one is current and
-- whether it serves, and the past. An id enters the past when another takes over from it or it is shut
-- down, and leaves it when it is activated, also when that fails.
pub mod Previous
pub mod Times
pub mod Refines
pub mod Switch
pub mod Enrol
pub mod Back
pub mod Launch
pub mod Runs
use go_php.Prelude.{
  ℕ, suc, ◌≤◌, ◌<◌, ◌≡◌, String, Option, none, some, List, [], ◌∷◌, ◌++◌, Bool, true, false, not,
  ◌&&◌, ◌||◌, str_eq, if◌then◌else◌,
}
use go_php.Prelude.Names.{contains}
use go_php.Gateway.Deploy.{Release, ReleaseExtension, System, release_id, new_release}
use go_php.Gateway.Deploy.Switcher.{Prober, Surroundings, Hooks, probe, apply_extensions}
use go_php.Gateway.Deploy.Machine.{
  Op, creates, activates, deactivates, rolls_back, archives, deploys,
}

-- An id with the time at which it was stopped.
abbrev pub Entry : Type 0
Entry = String × ℕ

pub record History : Type 0 where
  pub known : List String
  pub current : String
  pub serving : Bool
  pub past : List Entry

abbrev pub no_history : History
no_history = record { known = []; current = ""; serving = false; past = [] }

abbrev pub is_error : Option String → Bool
is_error none = false
is_error (some e) = true

unfoldable pub without : String → List Entry → List Entry
without id [] = []
without id (e ∷ es) = let rest = without id es in if str_eq e.0 id then rest else e ∷ rest

unfoldable pub time_of : String → List Entry → Option ℕ
time_of id [] = none
time_of id (e ∷ es) = let rest = time_of id es in if str_eq e.0 id then some e.1 else rest

-- The current one becomes the last that served.
unfoldable pub leave : ℕ → String → List Entry → List Entry
leave t current past = if str_eq current "" then past else (current, t) ∷ past

abbrev pub swap_fails : System → Bool
swap_fails y = is_error y.symlink_error || is_error y.rename_error

-- An id takes over from the current one, which enters the past. Or it fails to: then nothing serves, and
-- the current one stays current without entering the past.
abbrev pub arrive : ℕ → String → History → History
arrive t id h = record h {
  current = id;
  serving = true;
  past = without id (leave t h.current h.past);
}

abbrev pub miss : String → History → History
miss id h = record h { serving = false; past = without id h.past }

unfoldable pub switch_to : System → String → History → History
switch_to y id h =
    if not (contains id h.known)
    then h
    else if h.serving && str_eq id h.current
    then h
    else if swap_fails y
    then miss id h
    else arrive y.stop_time id h

abbrev pub shut : ℕ → History → History
shut t h = record h { current = ""; serving = false; past = (h.current, t) ∷ h.past }

unfoldable pub shut_down : System → History → History
shut_down y h = if str_eq h.current "" then h else shut y.stop_time h

-- To the newest of the past. One that is still current after a failed activation is not in the past,
-- and with an empty past nothing happens.
abbrev pub back_to : System → History → List Entry → History
back_to y h [] = h
back_to y h (e ∷ es) = switch_to y e.0 h

unfoldable pub go_back : System → History → History
go_back y h = if str_eq h.current "" then h else back_to y h h.past

unfoldable pub enrol : System → String → History → History
enrol y version h =
    if is_error y.copy_error || is_error y.save_error
    then h
    else record h { known = release_id version y.now ∷ h.known }

-- Do the checks of a deployment pass?
abbrev pub applied_passes : Prober → Surroundings → Release → Option (Option String) → Bool
applied_passes p w rel (some (some e)) = false
applied_passes p w rel applied = not (is_error (probe p w rel.dir))

unfoldable pub passes : Prober → Surroundings → Hooks → Release → List ReleaseExtension → Bool
passes p w k rel exts = elim k.pre_activate [
  | some e ↦ false
  | none ↦ applied_passes p w rel (apply_extensions k rel.id exts)
]

abbrev pub after_checks : System → String → Bool → History → History
after_checks y id ok h = if ok then switch_to y id h else h

-- A deployment: an id is given, and takes over if the checks pass.
unfoldable pub launch :
    System
    → Prober
    → Surroundings
    → Hooks
    → String
    → String
    → List (String × String)
    → List ReleaseExtension
    → History
    → History
launch y p w k version runtime_id metadata exts h =
    let rel = new_release y version runtime_id metadata in
    if is_error y.copy_error || is_error y.save_error
    then h
    else after_checks y rel.id (passes p w k rel exts) (record h { known = rel.id ∷ h.known })

unfoldable pub advance : History → Op → History
advance h (creates y version runtime_id metadata) = enrol y version h
advance h (activates y id) = switch_to y id h
advance h (deactivates y) = shut_down y h
advance h (rolls_back y) = go_back y h
advance h (deploys y p w k version runtime_id metadata exts) =
    launch y p w k version runtime_id metadata exts h
advance h (archives sort keep) = h

unfoldable pub advance_all : History → List Op → History
advance_all h [] = h
advance_all h (o ∷ os) = advance_all (advance h o) os

-- Ids are new when they are given, and the clock moves on between operations: `now` is above every
-- time that has been read.
abbrev pub InOrder : ℕ → History → List Op → Type 0
InOrder now h [] = Unit
InOrder now h (creates y version runtime_id metadata ∷ os) =
    (contains (release_id version y.now) h.known ≡ false) × InOrder now (enrol y version h) os
InOrder now h (activates y id ∷ os) =
    (now ≤ y.stop_time) × InOrder (suc y.stop_time) (switch_to y id h) os
InOrder now h (deactivates y ∷ os) =
    (now ≤ y.stop_time) × InOrder (suc y.stop_time) (shut_down y h) os
InOrder now h (rolls_back y ∷ os) = (now ≤ y.stop_time) × InOrder (suc y.stop_time) (go_back y h) os
InOrder now h (archives sort keep ∷ os) = ⊥
InOrder now h (deploys y p w k version runtime_id metadata exts ∷ os) =
    (contains (release_id version y.now) h.known ≡ false)
    × (now ≤ y.stop_time)
    × InOrder (suc y.stop_time) (launch y p w k version runtime_id metadata exts h) os
