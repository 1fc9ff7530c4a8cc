-- ===== src/Gateway/Deploy/History/Switch.antt =====
-- Activation, beside the history.
use mathlib.Core.Path.{subst}
use mathlib.Core.Option.{some-injective}
use go_php.Prelude.{
  ℕ, suc, ◌≤◌, ◌≡◌, refl, String, none, some, List, [], ◌∷◌, true, false, ◌&&◌, ◌||◌, str_eq,
  eq_iff, inl, inr, Bool-cases, Option-cases, ◌∙◌, sym, ap, All, ◌⊎◌,
}
use go_php.Prelude.Names.{contains}
use go_php.Gateway.Deploy.{
  Release, ReleaseManager, System, points, is_active, lookup_release, change, start_at, fail,
  stop_current, unlink, swap, activate,
}
use go_php.Gateway.Deploy.Entries.{has_id, lookup_release-id}
use go_php.Gateway.Deploy.History.{History, arrive, miss, is_error, switch_to}
use go_php.Gateway.Deploy.History.Times.{Descends-suc}
use go_php.Gateway.Deploy.History.Refines.{Agrees, Refines, done-Refines, fails-Refines}

pub Refines-at :
    (now : ℕ) (m m' : ReleaseManager) (h h' : History)
    → m' ≡ m
    → h' ≡ h
    → Refines now m h
    → Refines now m' h'
Refines-at now m m' h h' e f v =
    subst (λ x. Refines now x h') (sym e) (subst (λ x. Refines now m x) (sym f) v)

pub Refines-later :
    (now t : ℕ) (m : ReleaseManager) (h : History) → now ≤ t → Refines now m h → Refines (suc t) m h
Refines-later now t m h l v = record {
  current = v.current;
  known = v.known;
  agrees = v.agrees;
  left = v.left;
  descends = Descends-suc now t h.past l v.descends;
  named = v.named;
  current_known = v.current_known;
  idle = v.idle;
}

pub lookup_release-has_id :
    (id : String) (rs : List Release)
    → ((lookup_release id rs ≡ none) × (has_id id rs ≡ false))
      ⊎ ((r : Release) × (lookup_release id rs ≡ some r) × (has_id id rs ≡ true))
unfolding lookup_release
lookup_release-has_id id [] = inl (refl, refl)
lookup_release-has_id id (r ∷ rs) = elim (Bool-cases (str_eq r.id id)) [
  | inl same ↦ inr (r, rw same refl, rw same refl)
  | inr other ↦ rw other (lookup_release-has_id id rs)
]

lookup_release-of {ℓ} :
    (P : Release → Type ℓ) (id : String) (rs : List Release) (r : Release)
    → All P rs
    → lookup_release id rs ≡ some r
    → P r
unfolding lookup_release
lookup_release-of P id [] r h e = absurd (cc)
lookup_release-of P id (s ∷ rs) r h e = elim (Bool-cases (str_eq s.id id)) [
  | inl same ↦ let found : some s ≡ some r = rw same at e in subst P (some-injective _ _ found) h.0
  | inr other ↦ lookup_release-of P id rs r h.1 (rw other at e)
]

-- The two ends of a swap of links.
swap_failed :
    (y : System) (id : String) (rel : Release) (m : ReleaseManager)
    → (is_error y.symlink_error || is_error y.rename_error) ≡ true
    → (swap y id rel m).0
      ≡ record m { releases = change id fail m.releases; link = unlink y m.link }
unfolding swap
swap_failed y id rel m e = elim (Option-cases y.symlink_error) [
  | inr (a, broken) ↦ rw broken refl
  | inl linked ↦ elim (Option-cases y.rename_error) [
    | inr (a, broken) ↦ rw (linked, broken) refl
    | inl renamed ↦ absurd (let no_error : false ≡ true = rw (linked, renamed) at e in cc)
  ]
]

swap_done :
    (y : System) (id : String) (rel : Release) (m : ReleaseManager)
    → (is_error y.symlink_error || is_error y.rename_error) ≡ false
    → (swap y id rel m).0 ≡ record m { active_id = id; link = points rel.dir }
unfolding swap
swap_done y id rel m e = elim (Option-cases y.symlink_error) [
  | inr (a, broken) ↦ absurd (let error : true ≡ false = rw broken at e in cc)
  | inl linked ↦ elim (Option-cases y.rename_error) [
    | inr (a, broken) ↦ absurd (let error : true ≡ false = rw (linked, broken) at e in cc)
    | inl renamed ↦ rw (linked, renamed) refl
  ]
]

module _ (y : System) (id : String) (m : ReleaseManager) where
  activate_missing : lookup_release id m.releases ≡ none → (activate y id m).0 ≡ m
  unfolding activate
  activate_missing e = rw (e, activate) refl

  activate_already :
      (rel : Release)
      → lookup_release id m.releases ≡ some rel
      → is_active rel.state ≡ true
      → (activate y id m).0 ≡ m
  unfolding activate
  activate_already rel e k = rw (e, activate, k) refl

  activate_swap :
      (rel : Release)
      → lookup_release id m.releases ≡ some rel
      → is_active rel.state ≡ false
      → (activate y id m).0
        ≡ (swap y id rel (record m {
          releases = change id (start_at y.now) (stop_current y m.active_id m.releases);
        })).0
  unfolding activate
  activate_swap rel e k = rw (e, activate, k) refl

module _ (y : System) (id : String) (h : History) where
  switch_to_unknown : contains id h.known ≡ false → switch_to y id h ≡ h
  unfolding switch_to
  switch_to_unknown e = rw e refl

  switch_to_served :
      contains id h.known ≡ true → (h.serving && str_eq id h.current) ≡ true → switch_to y id h ≡ h
  unfolding switch_to
  switch_to_served e k = rw (e, k) refl

  switch_to_failed :
      contains id h.known ≡ true
      → (h.serving && str_eq id h.current) ≡ false
      → (is_error y.symlink_error || is_error y.rename_error) ≡ true
      → switch_to y id h ≡ miss id h
  unfolding switch_to
  switch_to_failed e k l = rw (e, k, l) refl

  switch_to_done :
      contains id h.known ≡ true
      → (h.serving && str_eq id h.current) ≡ false
      → (is_error y.symlink_error || is_error y.rename_error) ≡ false
      → switch_to y id h ≡ arrive y.stop_time id h
  unfolding switch_to
  switch_to_done e k l = rw (e, k, l) refl

pub activate-Refines :
    (y : System) (now : ℕ) (id : String) (m : ReleaseManager) (h : History)
    → now ≤ y.stop_time
    → Refines now m h
    → Refines (suc y.stop_time) (activate y id m).0 (switch_to y id h)
activate-Refines y now id m h clock v =
    let still = Refines-later now y.stop_time m h clock v in
    elim (lookup_release-has_id id m.releases) [
      | inl (missing, absent) ↦
          Refines-at _ m _ h _ (activate_missing y id m missing)
            (switch_to_unknown y id h (sym (v.known id) ∙ absent)) still
      | inr (rel, found, present) ↦
          let there : contains id h.known ≡ true = sym (v.known id) ∙ present in
          let says = lookup_release-of (Agrees h) id m.releases rel v.agrees found in
          let serves : is_active rel.state ≡ (h.serving && str_eq id h.current) =
            says.0
            ∙ ap (λ j. h.serving && str_eq j h.current)
                ((eq_iff rel.id id).0 (lookup_release-id id m.releases rel found)) in
          elim (Bool-cases (h.serving && str_eq id h.current)) [
            | inl on ↦
                Refines-at _ m _ h _ (activate_already y id m rel found (serves ∙ on))
                  (switch_to_served y id h there on) still
            | inr off ↦
                let swaps = activate_swap y id m rel found (serves ∙ off) in
                elim (Bool-cases (is_error y.symlink_error || is_error y.rename_error)) [
                  | inl broken ↦
                      Refines-at _ _ _ (miss id h) _ (swaps ∙ swap_failed y id rel _ broken)
                        (switch_to_failed y id h there off broken)
                        (fails-Refines y now id m h v clock there (unlink y m.link))
                  | inr fine ↦
                      Refines-at _ _ _ (arrive y.stop_time id h) _
                        (swaps ∙ swap_done y id rel _ fine) (switch_to_done y id h there off fine)
                        (done-Refines y now id m h v clock there (points rel.dir))
                ]
          ]
    ]
