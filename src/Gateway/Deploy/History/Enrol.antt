-- ===== src/Gateway/Deploy/History/Enrol.antt =====
-- Deactivation and creation, beside the history.
use go_php.Prelude.{
  ℕ, suc, ◌≤◌, ◌≡◌, refl, String, none, some, List, [], ◌∷◌, true, false, ◌&&◌, ◌||◌, str_eq,
  eq_iff, arith, inl, inr, Bool-cases, Option-cases, ◌∙◌, sym, ap, All,
}
use go_php.Prelude.Names.{contains}
use go_php.Gateway.Deploy.{
  Release, ReleaseManager, System, Link, is_active, lookup_release, change, stop_at, unlink,
  deactivate, create, release_id, new_release, put_release,
}
use go_php.Gateway.Deploy.Entries.{has_id, change-All, has_id-change, put_release-All}
use go_php.Gateway.Deploy.Active.{prefixed-Named, All-map}
use go_php.Gateway.Deploy.History.{Entry, History, time_of, shut, shut_down, enrol}
use go_php.Gateway.Deploy.History.Times.{Descends-le}
use go_php.Gateway.Deploy.History.Refines.{Agrees, Left, Refines, known-not_empty}
use go_php.Gateway.Deploy.History.Switch.{Refines-at, Refines-later, lookup_release-has_id}

deactivate_idle :
    (y : System) (m : ReleaseManager) → str_eq m.active_id "" ≡ true → deactivate y m ≡ m
unfolding deactivate
deactivate_idle y m e = rw e refl

deactivate_busy :
    (y : System) (m : ReleaseManager) (rel : Release)
    → str_eq m.active_id "" ≡ false
    → lookup_release m.active_id m.releases ≡ some rel
    → deactivate y m ≡ record {
      active_id = "";
      releases = change m.active_id (stop_at y.stop_time) m.releases;
      link = unlink y m.link;
    }
unfolding deactivate
deactivate_busy y m rel e k = rw (e, k) refl

shut_down_idle : (y : System) (h : History) → str_eq h.current "" ≡ true → shut_down y h ≡ h
unfolding shut_down
shut_down_idle y h e = rw e refl

shut_down_busy :
    (y : System) (h : History) → str_eq h.current "" ≡ false → shut_down y h ≡ shut y.stop_time h
unfolding shut_down
shut_down_busy y h e = rw e refl

pub time_of_nil : (k : String) → time_of k [] ≡ none
unfolding time_of
time_of_nil k = refl

pub known_nil : (k : String) → false ≡ contains k []
unfolding contains
known_nil k = refl

pub time_of-first :
    (k id : String) (t : ℕ) (es : List Entry)
    → str_eq id k ≡ false
    → time_of k ((id, t) ∷ es) ≡ time_of k es
unfolding time_of
time_of-first k id t es e = rw e refl

pub time_of_first :
    (k id : String) (t : ℕ) (es : List Entry)
    → str_eq id k ≡ true
    → time_of k ((id, t) ∷ es) ≡ some t
unfolding time_of
time_of_first k id t es e = rw e refl

shut-Refines :
    (y : System) (now : ℕ) (m : ReleaseManager) (h : History)
    → Refines now m h
    → now ≤ y.stop_time
    → str_eq h.current "" ≡ false
    → (l : Link)
    → Refines
        (suc y.stop_time)
        (record {
          active_id = "";
          releases = change m.active_id (stop_at y.stop_time) m.releases;
          link = l;
        })
        (shut y.stop_time h)
shut-Refines y now m h v clock some_id l = record {
  current = refl;
  known = λ k. has_id-change k m.active_id (stop_at y.stop_time) m.releases (λ r. refl) ∙ v.known k;
  agrees =
      change-All (Agrees h) (Agrees (shut y.stop_time h)) m.active_id (stop_at y.stop_time)
        m.releases
        (λ r p same. (
          refl,
          λ _. sym (
              time_of_first r.id h.current y.stop_time h.past (
                ground
                  (arith, eq_iff h.current r.id, (eq_iff r.id m.active_id).0 same, v.current))),
          p.2,
        ))
        (λ r p other.
          let away : str_eq r.id h.current ≡ false = ap (str_eq r.id) (sym v.current) ∙ other in
          let flipped : str_eq h.current r.id ≡ false =
            ground (arith, eq_iff h.current r.id, eq_iff r.id h.current) in
          (
            ground (arith, p.0, away),
            λ _. p.1 away ∙ sym (time_of-first r.id h.current y.stop_time h.past flipped),
            p.2,
          ))
        v.agrees;
  left = (
    (v.current_known some_id, some_id),
    All-map (Left h) (Left (shut y.stop_time h)) h.past
        (λ e p. (p.0, known-not_empty e.0 h.known v.named p.0)) v.left,
  );
  descends = (omega arith, Descends-le now y.stop_time h.past clock v.descends);
  named = v.named;
  current_known = λ e. absurd (let nothing : str_eq "" "" ≡ true = refl in cc);
  idle = λ _. refl;
}

has_id-put_release_new :
    (k : String) (n : Release) (rs : List Release)
    → has_id n.id rs ≡ false
    → has_id k (put_release n rs) ≡ (str_eq n.id k || has_id k rs)
unfolding put_release
has_id-put_release_new k n [] e = refl
has_id-put_release_new k n (r ∷ rs) e =
    let other : str_eq r.id n.id ≡ false = ground arith in
    let absent : has_id n.id rs ≡ false = ground arith in
    rw other (ground (arith, has_id-put_release_new k n rs absent))

contains_cons :
    (k n : String) (known : List String) → contains k (n ∷ known) ≡ (str_eq n k || contains k known)
unfolding contains
contains_cons k n known = refl

-- An id that is not known has never served.
time_of_unknown :
    (k : String) (h : History) (es : List Entry)
    → contains k h.known ≡ false
    → All (Left h) es
    → time_of k es ≡ none
unfolding time_of
time_of_unknown k h [] fresh l = refl
time_of_unknown k h (e ∷ es) fresh l = elim (Bool-cases (str_eq e.0 k)) [
  | inl same ↦
      let there : contains k h.known ≡ true =
        ap (λ j. contains j h.known) (sym ((eq_iff e.0 k).0 same)) ∙ l.0.0 in
      absurd (cc)
  | inr other ↦ rw other (time_of_unknown k h es fresh l.1)
]

pub unknown-idle :
    (now : ℕ) (k : String) (m : ReleaseManager) (h : History)
    → contains k h.known ≡ false
    → Refines now m h
    → (h.serving && str_eq k h.current) ≡ false
unknown-idle now k m h fresh v = elim (Bool-cases (str_eq h.current "")) [
  | inl nothing ↦ ground (arith, v.idle nothing)
  | inr some_id ↦ elim (Bool-cases (str_eq k h.current)) [
    | inl same ↦
        let there : contains k h.known ≡ true =
          ap (λ j. contains j h.known) ((eq_iff k h.current).0 same) ∙ v.current_known some_id in
        absurd (cc)
    | inr other ↦ ground (arith, other)
  ]
]

pub enrolled-Refines :
    (now : ℕ) (n : Release) (m : ReleaseManager) (h : History)
    → contains n.id h.known ≡ false
    → is_active n.state ≡ false
    → n.deactivated_at ≡ none
    → str_eq n.id "" ≡ false
    → Refines now m h
    → Refines now
        (record m { releases = put_release n m.releases })
        (record h { known = n.id ∷ h.known })
enrolled-Refines now n m h fresh off unset letters v = record {
  current = v.current;
  known = λ k.
      has_id-put_release_new k n m.releases (v.known n.id ∙ fresh)
      ∙ ap (λ b. str_eq n.id k || b) (v.known k)
      ∙ sym (contains_cons k n.id h.known);
  agrees =
      put_release-All (Agrees h) n m.releases
        (
          off ∙ sym (unknown-idle now n.id m h fresh v),
          λ _. unset ∙ sym (time_of_unknown n.id h h.past fresh v.left),
          letters,
        )
        v.agrees;
  left =
      All-map (Left h) (Left (record h { known = n.id ∷ h.known })) h.past
        (λ e p. (contains_cons e.0 n.id h.known ∙ ground (arith, p.0), p.1)) v.left;
  descends = v.descends;
  named = contains_cons "" n.id h.known ∙ ground (arith, letters, v.named);
  current_known = λ e. contains_cons h.current n.id h.known ∙ ground (arith, v.current_known e);
  idle = v.idle;
}

pub deactivate-Refines :
    (y : System) (now : ℕ) (m : ReleaseManager) (h : History)
    → now ≤ y.stop_time
    → Refines now m h
    → Refines (suc y.stop_time) (deactivate y m) (shut_down y h)
deactivate-Refines y now m h clock v = elim (Bool-cases (str_eq h.current "")) [
  | inl nothing ↦
      let idle : str_eq m.active_id "" ≡ true = ap (λ j. str_eq j "") v.current ∙ nothing in
      Refines-at _ m _ h _ (deactivate_idle y m idle) (shut_down_idle y h nothing)
        (Refines-later now y.stop_time m h clock v)
  | inr some_id ↦
      let busy : str_eq m.active_id "" ≡ false = ap (λ j. str_eq j "") v.current ∙ some_id in
      elim (lookup_release-has_id m.active_id m.releases) [
        | inl (missing, absent) ↦
            let there = v.current_known some_id in
            let e : contains h.current h.known ≡ false =
              ap (λ j. contains j h.known) (sym v.current) ∙ sym (v.known m.active_id) ∙ absent in
            absurd (cc)
        | inr (rel, found, present) ↦
            Refines-at _ _ _ (shut y.stop_time h) _ (deactivate_busy y m rel busy found)
              (shut_down_busy y h some_id)
              (shut-Refines y now m h v clock some_id (unlink y m.link))
      ]
]

pub release_id-Named : (version : String) (t : ℕ) → str_eq (release_id version t) "" ≡ false
unfolding release_id
release_id-Named version t = prefixed-Named _ _

pub create-Refines :
    (y : System) (now : ℕ) (version runtime_id : String) (metadata : List (String × String))
    (m : ReleaseManager) (h : History)
    → contains (release_id version y.now) h.known ≡ false
    → Refines now m h
    → Refines now (create y version runtime_id metadata m).0 (enrol y version h)
unfolding create enrol
create-Refines y now version runtime_id metadata m h fresh v = elim (Option-cases y.copy_error) [
  | inr (e, copy) ↦ rw copy v
  | inl copied ↦ elim (Option-cases y.save_error) [
    | inr (e, save) ↦ rw (copied, save) v
    | inl saved ↦
        rw (copied, saved)
          (enrolled-Refines now (new_release y version runtime_id metadata) m h fresh refl refl
            (release_id-Named version y.now) v)
  ]
]
