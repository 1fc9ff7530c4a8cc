-- ===== src/Gateway/Deploy/History/Refines.antt =====
-- How the manager of releases stands to a history.
use mathlib.Core.Path.{subst}
use go_php.Prelude.{
  ℕ, suc, ◌≤◌, ◌≡◌, refl, String, none, some, List, true, false, ◌&&◌, str_eq, eq_iff, arith, inl,
  inr, Bool-cases, ◌∙◌, sym, ap, All,
}
use go_php.Prelude.Names.{contains}
use go_php.Gateway.Deploy.{
  Release, ReleaseManager, System, Link, is_active, change, stop_at, start_at, fail, stop_current,
}
use go_php.Gateway.Deploy.Entries.{has_id, change-All, has_id-change}
use go_php.Gateway.Deploy.Active.{All-map, stop_current_of, stop_current_of_none}
use go_php.Gateway.Deploy.History.{Entry, History, without, time_of, leave, arrive, miss}
use go_php.Gateway.Deploy.History.Times.{
  Descends, without-Descends, leave-Descends, Descends-suc, time_of-without, time_of_cut,
  time_of-leave, time_of_latest, without-All, leave-All,
}

-- What a release's record says of it, in terms of the history.
abbrev pub Agrees : History → Release → Type 0
Agrees h r =
    (is_active r.state ≡ (h.serving && str_eq r.id h.current))
    × (str_eq r.id h.current ≡ false → r.deactivated_at ≡ time_of r.id h.past)
    × (str_eq r.id "" ≡ false)

-- Ids that have served are known, and are not the current one.
abbrev pub Left : History → Entry → Type 0
Left h e = (contains e.0 h.known ≡ true) × (str_eq e.0 h.current ≡ false)

pub record Refines (now : ℕ) (m : ReleaseManager) (h : History) : Type 0 where
  pub current : m.active_id ≡ h.current
  pub known : (k : String) → has_id k m.releases ≡ contains k h.known
  pub agrees : All (Agrees h) m.releases
  pub left : All (Left h) h.past
  pub descends : Descends now h.past
  pub named : contains "" h.known ≡ false
  pub current_known : str_eq h.current "" ≡ false → contains h.current h.known ≡ true
  pub idle : str_eq h.current "" ≡ true → h.serving ≡ false

-- A release after the current one has been stopped.
abbrev Stopped : ℕ → History → Release → Type 0
Stopped t h r =
    (is_active r.state ≡ false)
    × (str_eq r.id h.current ≡ false → r.deactivated_at ≡ time_of r.id h.past)
    × (str_eq r.id h.current ≡ true → str_eq h.current "" ≡ false → r.deactivated_at ≡ some t)
    × (str_eq r.id "" ≡ false)

stop_current-Stopped :
    (y : System) (h : History) (rs : List Release)
    → (str_eq h.current "" ≡ true → h.serving ≡ false)
    → All (Agrees h) rs
    → All (Stopped y.stop_time h) (stop_current y h.current rs)
stop_current-Stopped y h rs idle a = elim (Bool-cases (str_eq h.current "")) [
  | inl nothing ↦ rw (stop_current_of_none y h.current rs nothing) (
      All-map (Agrees h) (Stopped y.stop_time h) rs
        (λ r p. (ground (arith, p.0, idle nothing), p.1, λ same some_id. absurd (cc), p.2)) a)
  | inr some_id ↦ rw (stop_current_of y h.current rs some_id) (
      change-All (Agrees h) (Stopped y.stop_time h) h.current (stop_at y.stop_time) rs
        (λ r p same. (refl, λ other. absurd (cc), λ _ _. refl, p.2))
        (λ r p other. (ground (arith, p.0, other), p.1, λ same _. absurd (cc), p.2)) a)
]

-- The manager's id is that of the history.
current-Stopped :
    (y : System) (now : ℕ) (m : ReleaseManager) (h : History)
    → Refines now m h
    → All (Stopped y.stop_time h) (stop_current y m.active_id m.releases)
current-Stopped y now m h v =
    subst (λ c. All (Stopped y.stop_time h) (stop_current y c m.releases)) (sym v.current)
      (stop_current-Stopped y h m.releases v.idle v.agrees)

has_id-stop_current :
    (k : String) (y : System) (current : String) (rs : List Release)
    → has_id k (stop_current y current rs) ≡ has_id k rs
has_id-stop_current k y current rs = elim (Bool-cases (str_eq current "")) [
  | inl nothing ↦ ap (has_id k) (stop_current_of_none y current rs nothing)
  | inr some_id ↦
      ap (has_id k) (stop_current_of y current rs some_id)
      ∙ has_id-change k current (stop_at y.stop_time) rs (λ r. refl)
]

-- A release that is stopped has the time at which it left.
Stopped-time :
    (t : ℕ) (h : History) (r : Release)
    → Stopped t h r
    → r.deactivated_at ≡ time_of r.id (leave t h.current h.past)
Stopped-time t h r p = elim (Bool-cases (str_eq r.id h.current)) [
  | inl same ↦
      let some_id : str_eq h.current "" ≡ false =
        ap (λ j. str_eq j "") (sym ((eq_iff r.id h.current).0 same)) ∙ p.3 in
      p.2 same some_id ∙ sym (time_of_latest r.id h.current t h.past same some_id)
  | inr other ↦ p.1 other ∙ sym (time_of-leave r.id h.current t h.past other)
]

pub known-not_empty :
    (id : String) (known : List String)
    → contains "" known ≡ false
    → contains id known ≡ true
    → str_eq id "" ≡ false
known-not_empty id known n k = elim (Bool-cases (str_eq id "")) [
  | inr letters ↦ letters
  | inl nothing ↦
      let e : contains id known ≡ contains "" known =
        ap (λ j. contains j known) ((eq_iff id "").0 nothing) in
      absurd (cc)
]

module _ (y : System) (now : ℕ) (id : String) (m : ReleaseManager) (h : History)
    (v : Refines now m h) (clock : now ≤ y.stop_time) (there : contains id h.known ≡ true) where
  abbrev pub after_stop : List Release
  after_stop = stop_current y m.active_id m.releases

  pub done-Refines :
      (l : Link)
      → Refines
          (suc y.stop_time)
          (record { active_id = id; releases = change id (start_at y.now) after_stop; link = l })
          (arrive y.stop_time id h)
  done-Refines l = record {
    current = refl;
    known = λ k.
        has_id-change k id (start_at y.now) after_stop (λ r. refl)
        ∙ has_id-stop_current k y m.active_id m.releases
        ∙ v.known k;
    agrees =
        change-All (Stopped y.stop_time h) (Agrees (arrive y.stop_time id h)) id (start_at y.now)
          after_stop (λ r p same. (sym same, λ other. absurd (cc), p.3))
          (λ r p other. (
            p.0 ∙ sym other,
            λ _. Stopped-time y.stop_time h r p ∙ sym (time_of-without r.id id _ other),
            p.3,
          ))
          (current-Stopped y now m h v);
    left =
        without-All (λ e. contains e.0 h.known ≡ true) (Left (arrive y.stop_time id h)) id _
          (λ e k other. (k, other))
          (leave-All (λ e. contains e.0 h.known ≡ true) y.stop_time h.current h.past v.current_known
            (All-map (Left h) (λ e. contains e.0 h.known ≡ true) h.past (λ e p. p.0) v.left));
    descends =
        without-Descends _ id _ (leave-Descends now y.stop_time h.current h.past clock v.descends);
    named = v.named;
    current_known = λ _. there;
    idle = λ nothing. let letters = known-not_empty id h.known v.named there in absurd (cc);
  }

  pub fails-Refines :
      (l : Link)
      → Refines
          (suc y.stop_time)
          (record m { releases = change id fail (change id (start_at y.now) after_stop); link = l })
          (miss id h)
  fails-Refines l = record {
    current = v.current;
    known = λ k.
        has_id-change k id fail (change id (start_at y.now) after_stop) (λ r. refl)
        ∙ has_id-change k id (start_at y.now) after_stop (λ r. refl)
        ∙ has_id-stop_current k y m.active_id m.releases
        ∙ v.known k;
    agrees =
        change-All
          (λ r.
            (str_eq r.id id ≡ true → r.deactivated_at ≡ none)
            × (str_eq r.id id ≡ false → Stopped y.stop_time h r)
            × (str_eq r.id "" ≡ false))
          (Agrees (miss id h)) id fail (change id (start_at y.now) after_stop)
          (λ r p same. (
            refl,
            λ _.
                p.0 same
                ∙ sym (
                    ap (λ j. time_of j (without id h.past)) ((eq_iff r.id id).0 same)
                    ∙ time_of_cut id h.past),
            p.2,
          ))
          (λ r p other. (
            (p.1 other).0,
            λ away. (p.1 other).1 away ∙ sym (time_of-without r.id id h.past other),
            p.2,
          ))
          (change-All (Stopped y.stop_time h)
            (λ r.
              (str_eq r.id id ≡ true → r.deactivated_at ≡ none)
              × (str_eq r.id id ≡ false → Stopped y.stop_time h r)
              × (str_eq r.id "" ≡ false))
            id (start_at y.now) after_stop (λ r p same. (λ _. refl, λ other. absurd (cc), p.3))
            (λ r p other. (λ same. absurd (cc), λ _. p, p.3)) (current-Stopped y now m h v));
    left = without-All (Left h) (Left (miss id h)) id h.past (λ e p other. p) v.left;
    descends = Descends-suc now y.stop_time _ clock (without-Descends now id h.past v.descends);
    named = v.named;
    current_known = v.current_known;
    idle = λ _. refl;
  }
