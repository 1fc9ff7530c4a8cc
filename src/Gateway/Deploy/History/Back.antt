-- ===== src/Gateway/Deploy/History/Back.antt =====
-- Rollback, beside the history.
use mathlib.Core.Path.{subst}
use go_php.Prelude.{
  ℕ, suc, ◌≤◌, ◌≡◌, refl, String, none, some, List, [], ◌∷◌, true, false, str_eq, eq_iff, arith,
  inl, inr, Bool-cases, ◌∙◌, sym, ap, All,
}
use go_php.Gateway.Deploy.{Release, ReleaseManager, System, activate, rollback, find_previous}
use go_php.Gateway.Deploy.Active.{All-map}
use go_php.Gateway.Deploy.Active.Ops.{rolled-manager}
use go_php.Gateway.Deploy.History.{Entry, History, time_of, switch_to, back_to, go_back}
use go_php.Gateway.Deploy.History.Times.{Descends, time_of-lt}
use go_php.Gateway.Deploy.History.Previous.{Last, find_top, find_none}
use go_php.Gateway.Deploy.History.Refines.{Agrees, Left, Refines}
use go_php.Gateway.Deploy.History.Switch.{Refines-at, Refines-later, activate-Refines}
use go_php.Gateway.Deploy.History.Enrol.{time_of_nil, time_of-first, time_of_first}

rollback_idle :
    (y : System) (m : ReleaseManager) → str_eq m.active_id "" ≡ true → (rollback y m).0 ≡ m
unfolding rollback
rollback_idle y m e = rw e refl

rollback_stays :
    (y : System) (m : ReleaseManager)
    → str_eq m.active_id "" ≡ false
    → find_previous m.active_id none m.releases ≡ none
    → (rollback y m).0 ≡ m
unfolding rollback
rollback_stays y m e k = rw (e, rollback, k) refl

rollback_activates :
    (y : System) (m : ReleaseManager) (p : Release)
    → str_eq m.active_id "" ≡ false
    → find_previous m.active_id none m.releases ≡ some p
    → (rollback y m).0 ≡ (activate y p.id m).0
unfolding rollback
rollback_activates y m p e k = rw (e, rollback, k) (rolled-manager p.id (activate y p.id m))

go_back_idle : (y : System) (h : History) → str_eq h.current "" ≡ true → go_back y h ≡ h
unfolding go_back
go_back_idle y h e = rw e refl

go_back_busy :
    (y : System) (h : History) → str_eq h.current "" ≡ false → go_back y h ≡ back_to y h h.past
unfolding go_back
go_back_busy y h e = rw e refl

-- The id at the head of the past was stopped last.
past-Last :
    (current : String) (e : Entry) (es : List Entry) (bound : ℕ)
    (apart : str_eq e.0 current ≡ false) (r : Release)
    → Descends bound (e ∷ es)
    → (str_eq r.id current ≡ false → r.deactivated_at ≡ time_of r.id (e ∷ es))
    → Last current e.0 e.1 apart r
past-Last current e es bound apart r d times other = elim (Bool-cases (str_eq r.id e.0)) [
  | inl same ↦
      let flipped : str_eq e.0 r.id ≡ true = ground (arith, eq_iff r.id e.0, eq_iff e.0 r.id) in
      inl (same, times other ∙ time_of_first r.id e.0 e.1 es flipped)
  | inr away ↦
      let flipped : str_eq e.0 r.id ≡ false = ground (arith, eq_iff r.id e.0, eq_iff e.0 r.id) in
      inr (
        away,
        λ u at.
            time_of-lt r.id e.1 u es d.1
              (sym (time_of-first r.id e.0 e.1 es flipped) ∙ sym (times other) ∙ at),
      )
]

-- Going back from a current id, by what has served before.
back_to-Refines :
    (y : System) (now : ℕ) (m : ReleaseManager) (h : History) (past : List Entry)
    → h.past ≡ past
    → str_eq m.active_id "" ≡ false
    → now ≤ y.stop_time
    → Refines now m h
    → Refines (suc y.stop_time) (rollback y m).0 (back_to y h past)
back_to-Refines y now m h [] e busy clock v =
    let unset =
      All-map (Agrees h) (λ r. str_eq r.id m.active_id ≡ false → r.deactivated_at ≡ none) m.releases
        (λ r p other.
          p.1 (ap (str_eq r.id) (sym v.current) ∙ other) ∙ ap (time_of r.id) e ∙ time_of_nil r.id)
        v.agrees in
    Refines-at _ m _ h _ (rollback_stays y m busy (find_none m.active_id m.releases unset)) refl
      (Refines-later now y.stop_time m h clock v)
back_to-Refines y now m h (e ∷ es) q busy clock v =
    let head = subst (λ p. All (Left h) p) q v.left in
    let falls = subst (Descends now) q v.descends in
    let apart : str_eq e.0 m.active_id ≡ false = ap (str_eq e.0) v.current ∙ head.0.1 in
    let lasts =
      All-map (Agrees h) (Last m.active_id e.0 e.1 apart) m.releases
        (λ r p.
          past-Last m.active_id e es now apart r falls
            (λ other. p.1 (ap (str_eq r.id) (sym v.current) ∙ other) ∙ ap (time_of r.id) q))
        v.agrees in
    let (p, found, named) =
      find_top m.active_id e.0 e.1 apart none m.releases tt (v.known e.0 ∙ head.0.0) lasts in
    Refines-at _ _ _ (switch_to y e.0 h) _ (rollback_activates y m p busy found)
      (λ i. switch_to y e.0 h)
      (subst (λ j. Refines (suc y.stop_time) (activate y p.id m).0 (switch_to y j h))
        ((eq_iff p.id e.0).0 named) (activate-Refines y now p.id m h clock v))

pub rollback-Refines :
    (y : System) (now : ℕ) (m : ReleaseManager) (h : History)
    → now ≤ y.stop_time
    → Refines now m h
    → Refines (suc y.stop_time) (rollback y m).0 (go_back y h)
rollback-Refines y now m h clock v = elim (Bool-cases (str_eq h.current "")) [
  | inl nothing ↦
      let idle : str_eq m.active_id "" ≡ true = ap (λ j. str_eq j "") v.current ∙ nothing in
      Refines-at _ m _ h _ (rollback_idle y m idle) (go_back_idle y h nothing)
        (Refines-later now y.stop_time m h clock v)
  | inr some_id ↦
      let busy : str_eq m.active_id "" ≡ false = ap (λ j. str_eq j "") v.current ∙ some_id in
      Refines-at _ _ _ (back_to y h h.past) _ refl (go_back_busy y h some_id)
        (back_to-Refines y now m h h.past refl busy clock v)
]
