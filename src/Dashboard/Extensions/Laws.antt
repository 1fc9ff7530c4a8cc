-- ===== src/Dashboard/Extensions/Laws.antt =====
-- The enabled extensions and the catalogue.
use mathlib.Core.Path.{subst}
use go_php.Prelude.{
  ℕ, zero, suc, ◌+◌, sym, ◌≤◌, ◌≡◌, refl, String, Bool, true, false, List, [], ◌∷◌, ◌&&◌, length,
  All, arith, str_eq, eq_iff, if◌then◌else◌, Bool-cases, inl, inr, Option-cases, find-All,
}
use mathlib.Core.Bool.{and-eq-true_iff}
use go_php.Prelude.Names.{
  contains, Distinct, Within, distinct_test, distinct_test_sound, within_test, within_test_sound,
  length-le_of_Within,
}
use go_php.Dashboard.Types.{ExtensionProfile}
use go_php.Dashboard.Extensions.{
  Page, Event, selects, toggles, saves, save_waited, timer_fired, catalogue, built_in_profiles,
  find_profile, apply_profile, first_render, initial, select_profile, handle_toggle, start_save,
  step, run, finish_save, expire,
}
use go_php.Dashboard.Sites.Handlers.{toggle_ext}
use go_php.Dashboard.Sites.Laws.{toggle_ext_lem}

abbrev IsSound : ExtensionProfile → Type 0
IsSound q = Distinct q.extensions × Within q.extensions catalogue

abbrev sound_test : List ExtensionProfile → Bool
sound_test [] = true
sound_test (q ∷ qs) =
    distinct_test q.extensions && within_test q.extensions catalogue && sound_test qs

sound_test-IsSound : (qs : List ExtensionProfile) → sound_test qs ≡ true → All IsSound qs
sound_test-IsSound [] h = tt
sound_test-IsSound (q ∷ qs) h =
    let (here, later) = (and-eq-true_iff _ _).0 h in
    let (d, w) = (and-eq-true_iff _ _).0 here in
    (
      (distinct_test_sound q.extensions d, within_test_sound q.extensions catalogue w),
      sound_test-IsSound qs later,
    )

profiles-IsSound : All IsSound built_in_profiles
unfolding contains
profiles-IsSound = sound_test-IsSound built_in_profiles refl

pub record Inv (p : Page) : Type 0 where
  pub distinct : Distinct p.enabled_exts
  pub known : Within p.enabled_exts catalogue
  pub one_save : p.saves ≤ 1
  pub idle : p.saving ≡ false → p.saves ≡ 0

apply_profile-Inv : (p : Page) → Inv p → Inv (apply_profile p)
unfolding apply_profile find_profile
apply_profile-Inv p v = elim (Option-cases (find_profile p.selected_profile)) [
  | inl missing ↦ rw (missing, apply_profile) v
  | inr (q, found) ↦
      let s =
        find-All IsSound (λ q'. str_eq q'.name p.selected_profile) built_in_profiles q
          profiles-IsSound found in
      rw (found, apply_profile)
        (record { distinct = s.0; known = s.1; one_save = v.one_save; idle = v.idle })
]

nothing-Within : (ys : List String) → Within [] ys
unfolding contains
nothing-Within ys k h = cc

initial-Inv : Inv initial
unfolding initial
initial-Inv = apply_profile-Inv first_render (record {
  distinct = tt;
  known = nothing-Within catalogue;
  one_save = omega arith;
  idle = λ _. refl;
})

toggle_ext-Within :
    (n : String) (xs ys : List String)
    → contains n ys ≡ true
    → Distinct xs
    → Within xs ys
    → Within (toggle_ext n xs) ys
toggle_ext-Within n xs ys listed d w k h =
    let members = (toggle_ext_lem n xs d).1 k in ground (arith, members, eq_iff n k, w k)

toggle-Inv : (n : String) (p : Page) → contains n catalogue ≡ true → Inv p → Inv (handle_toggle n p)
unfolding handle_toggle
toggle-Inv n p listed v = record {
  distinct = (toggle_ext_lem n p.enabled_exts v.distinct).0;
  known = toggle_ext-Within n p.enabled_exts catalogue listed v.distinct v.known;
  one_save = v.one_save;
  idle = v.idle;
}

finish_save-Inv : (n : ℕ) (p : Page) → p.saves ≡ n → Inv p → Inv (finish_save n p)
unfolding finish_save
finish_save-Inv zero p e v = v
finish_save-Inv (suc n) p e v =
    let last : n ≡ 0 = omega arith in
    record { distinct = v.distinct; known = v.known; one_save = omega arith; idle = λ _. last }

expire-Inv : (n : ℕ) (p : Page) → Inv p → Inv (expire n p)
unfolding expire
expire-Inv zero p v = v
expire-Inv (suc n) p v = record {
  distinct = v.distinct;
  known = v.known;
  one_save = v.one_save;
  idle = v.idle;
}

with_profile : String → Page → Page
with_profile n p = record p { selected_profile = n }

with_profile-Inv : (n : String) (p : Page) → Inv p → Inv (with_profile n p)
unfolding with_profile
with_profile-Inv n p v = record {
  distinct = v.distinct;
  known = v.known;
  one_save = v.one_save;
  idle = v.idle;
}

started : Page → Page
started p = record p { saving = true; saved = false; saves = p.saves + 1 }

started-Inv : (p : Page) → p.saving ≡ false → Inv p → Inv (started p)
unfolding started
started-Inv p h v =
    let none_waits = v.idle h in
    record { distinct = v.distinct; known = v.known; one_save = omega arith; idle = λ e. cc }

step-Inv : (p : Page) (e : Event) → Inv p → Inv (step p e)
unfolding step select_profile start_save started
step-Inv p (selects n) v = elim (Bool-cases (str_eq p.selected_profile n)) [
  | inl same ↦ rw same v
  | inr other ↦
      rw other
        (unfold with_profile in apply_profile-Inv (with_profile n p) (with_profile-Inv n p v))
]
step-Inv p (toggles n) v = elim (Bool-cases (contains n catalogue)) [
  | inl listed ↦ rw listed (toggle-Inv n p listed v)
  | inr absent ↦ rw absent v
]
step-Inv p saves v = elim (Bool-cases p.saving) [
  | inl busy ↦ subst (λ b. Inv (if b then p else started p)) (sym busy) v
  | inr free ↦ subst (λ b. Inv (if b then p else started p)) (sym free) (started-Inv p free v)
]
step-Inv p save_waited v = finish_save-Inv p.saves p refl v
step-Inv p timer_fired v = expire-Inv p.timers p v

run-Inv : (p : Page) (es : List Event) → Inv p → Inv (run p es)
unfolding run
run-Inv p [] v = v
run-Inv p (e ∷ es) v = run-Inv (step p e) es (step-Inv p e v)

-- After any clicks, saves and timers: the enabled extensions are distinct and all in the catalogue,
-- at most one save waits, and none does while the page is not saving.
pub run-initial-Inv : (es : List Event) → Inv (run initial es)
run-initial-Inv es = run-Inv initial es initial-Inv

-- So the heading never counts more enabled extensions than there are.
enabled-le_catalogue : (es : List Event) → length (run initial es).enabled_exts ≤ length catalogue
enabled-le_catalogue es =
    let v = run-initial-Inv es in
    length-le_of_Within (run initial es).enabled_exts catalogue v.distinct v.known
