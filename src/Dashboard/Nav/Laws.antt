-- ===== src/Dashboard/Nav/Laws.antt =====
-- Navigation, theme and palette.
use mathlib.Core.Path.{subst}
use go_php.Prelude.{
  ◌∙◌, filter, not, ◌&&◌, sym, ◌≤◌, ◌≡◌, refl, String, Option, some, Bool, true, false, List, [],
  ◌∷◌, All, length, arith, str_eq, eq_iff, if◌then◌else◌, Bool-cases, inl, inr,
}
use go_php.Prelude.Text.{starts_with, comparable, starts_with-comparable}
use go_php.Dashboard.Nav.{
  NavItem, home, sections, is_active, active_items, Shell, theme_effect, first_render, start,
  toggle_theme, Action, navigate, switch_theme, select, Event, opens_sidebar, closes_sidebar,
  opens_palette, closes_palette, toggles_theme, follows, types, selects, presses, step, run,
}

-- Every use of the dashboard but a click on the header's search button.
abbrev pub WithoutClick : List Event → Type 0
WithoutClick [] = Unit
WithoutClick (opens_palette ∷ es) = ⊥
WithoutClick (e ∷ es) = WithoutClick es

toggle_theme-palette_open : (s : Shell) → (toggle_theme s).palette_open ≡ s.palette_open
unfolding toggle_theme theme_effect
toggle_theme-palette_open s = ground arith

run-palette_open :
    (s : Shell) (es : List Event)
    → s.palette_open ≡ false
    → WithoutClick es
    → (run s es).palette_open ≡ false
unfolding run step
run-palette_open s [] h w = h
run-palette_open s (opens_palette ∷ es) h w = absurd w
run-palette_open s (opens_sidebar ∷ es) h w = run-palette_open (step s opens_sidebar) es h w
run-palette_open s (closes_sidebar ∷ es) h w = run-palette_open (step s closes_sidebar) es h w
run-palette_open s (closes_palette ∷ es) h w = run-palette_open (step s closes_palette) es refl w
run-palette_open s (toggles_theme ∷ es) h w =
    run-palette_open (step s toggles_theme) es (toggle_theme-palette_open s ∙ h) w
run-palette_open s (follows t ∷ es) h w = run-palette_open (step s (follows t)) es h w
run-palette_open s (types q ∷ es) h w = run-palette_open (step s (types q)) es (ground arith) w
run-palette_open s (selects a ∷ es) h w = run-palette_open (step s (selects a)) es (ground arith) w
run-palette_open s (presses m k ∷ es) h w =
    run-palette_open (step s (presses m k)) es (ground arith) w

-- No shortcut opens the palette: from a page just loaded, whatever keys are pressed and whatever else
-- is clicked and typed, the palette stays closed unless its search button is clicked.
palette_needs_click :
    (stored : Option String) (path : String) (es : List Event)
    → WithoutClick es
    → (run (start stored path) es).palette_open ≡ false
unfolding start theme_effect
palette_needs_click stored path es w = run-palette_open (start stored path) es (ground arith) w

-- Entries of which no two can satisfy the test together.
abbrev Exclusive {ℓ} : {A : Type ℓ} → (A → Bool) → List A → Type ℓ
Exclusive p [] = Unit
Exclusive p (x ∷ xs) = All (λ y. p x ≡ true → p y ≡ false) xs × Exclusive p xs

filter_none {ℓ} :
    {A : Type ℓ} (p : A → Bool) (xs : List A) → All (λ y. p y ≡ false) xs → filter p xs ≡ []
filter_none p [] h = refl
filter_none p (x ∷ xs) h = rw (h.0, filter_none p xs h.1)

All-apply {ℓ κ μ} :
    {A : Type ℓ} {B : Type κ} (P : A → Type μ) (xs : List A) → B → All (λ y. B → P y) xs → All P xs
All-apply P [] b h = tt
All-apply P (x ∷ xs) b h = (h.0 b, All-apply P xs b h.1)

length-filter-le_one {ℓ} :
    {A : Type ℓ} (p : A → Bool) (xs : List A) → Exclusive p xs → length (filter p xs) ≤ 1
length-filter-le_one p [] h = omega arith
length-filter-le_one p (x ∷ xs) h = elim (Bool-cases (p x)) [
  | inl hit ↦
      let others = filter_none p xs (All-apply (λ y. p y ≡ false) xs hit h.0) in
      rw (hit, others) (omega arith)
  | inr miss ↦ rw miss (length-filter-le_one p xs h.1)
]

starts_with_refl : (s : String) → starts_with s s ≡ true
unfolding starts_with
starts_with_refl String.[] = refl
starts_with_refl (String.◌∷◌ c s) = ground (arith, starts_with_refl s)

active-starts_with :
    (path : String) (i : NavItem) → is_active path i ≡ true → starts_with path i.to ≡ true
unfolding is_active
active-starts_with path i h =
    let same =
      λ (e : path ≡ i.to). subst (λ t. starts_with path t ≡ true) e (starts_with_refl path) in
    elim (Bool-cases (str_eq path i.to)) [
      | inl e ↦ same ((eq_iff path i.to).0 e)
      | inr n ↦ ground arith
    ]

apart :
    (path : String) (i j : NavItem)
    → comparable i.to j.to ≡ false
    → is_active path i ≡ true
    → is_active path j ≡ false
apart path i j c h = elim (Bool-cases (is_active path j)) [
  | inl k ↦
      let both =
        starts_with-comparable path i.to j.to (active-starts_with path i h)
          (active-starts_with path j k) in
      absurd (cc)
  | inr k ↦ k
]

abbrev apart_test : NavItem → List NavItem → Bool
apart_test i [] = true
apart_test i (j ∷ js) = not (comparable i.to j.to) && apart_test i js

abbrev separate : List NavItem → Bool
separate [] = true
separate (i ∷ is) = apart_test i is && separate is

apart_test-All :
    (path : String) (i : NavItem) (js : List NavItem)
    → apart_test i js ≡ true
    → All (λ j. is_active path i ≡ true → is_active path j ≡ false) js
apart_test-All path i [] t = tt
apart_test-All path i (j ∷ js) t =
    (λ h. apart path i j (ground arith) h, apart_test-All path i js (ground arith))

separate-Exclusive :
    (path : String) (is : List NavItem) → separate is ≡ true → Exclusive (is_active path) is
separate-Exclusive path [] t = tt
separate-Exclusive path (i ∷ is) t =
    (apart_test-All path i is (ground arith), separate-Exclusive path is (ground arith))

sections-Exclusive : (path : String) → Exclusive (is_active path) sections
unfolding comparable
sections-Exclusive path = separate-Exclusive path sections refl

home_alone : (path : String) → path ≡ "/" → All (λ i. is_active path i ≡ false) sections
unfolding is_active starts_with
home_alone path e =
    subst (λ p. All (λ i. is_active p i ≡ false) sections) (sym e)
      (refl, (refl, (refl, (refl, (refl, (refl, (refl, (refl, (refl, tt)))))))))

home_only : (path : String) → is_active path home ≡ true → path ≡ "/"
unfolding is_active
home_only path h = ground (arith, eq_iff path "/")

-- Whatever the location, the sidebar highlights at most one entry.
length-active_items-le : (path : String) → length (active_items path) ≤ 1
unfolding active_items
length-active_items-le path = elim (Bool-cases (is_active path home)) [
  | inl hit ↦
      let others = filter_none (is_active path) sections (home_alone path (home_only path hit)) in
      rw (hit, others) (omega arith)
  | inr miss ↦ rw miss (length-filter-le_one (is_active path) sections (sections-Exclusive path))
]

-- The theme class and the stored theme say what `darkMode` is.
abbrev pub Themed : Shell → Type 0
Themed s =
    (s.dark_class ≡ s.dark_mode) × (s.stored_theme ≡ some (if s.dark_mode then "dark" else "light"))

theme_effect-Themed : (s : Shell) → Themed (theme_effect s)
unfolding theme_effect
theme_effect-Themed s = (ground arith, ground arith)

toggle_theme-Themed : (s : Shell) → Themed (toggle_theme s)
unfolding toggle_theme
toggle_theme-Themed s = theme_effect-Themed (record s { dark_mode = not s.dark_mode })

select-Themed : (a : Action) (s : Shell) → Themed s → Themed (select a s)
unfolding select toggle_theme
select-Themed (navigate t) s h = h
select-Themed switch_theme s h = toggle_theme-Themed s

step-Themed : (s : Shell) (e : Event) → Themed s → Themed (step s e)
unfolding step toggle_theme
step-Themed s opens_sidebar h = h
step-Themed s closes_sidebar h = h
step-Themed s opens_palette h = h
step-Themed s closes_palette h = h
step-Themed s toggles_theme h = toggle_theme-Themed s
step-Themed s (follows t) h = h
step-Themed s (types q) h = ground arith
step-Themed s (selects a) h = elim (Bool-cases s.palette_open) [
  | inl shown ↦ subst (λ b. Themed (if b then select a s else s)) (sym shown) (select-Themed a s h)
  | inr hidden ↦ subst (λ b. Themed (if b then select a s else s)) (sym hidden) h
]
step-Themed s (presses m k) h = ground arith

run-Themed : (s : Shell) (es : List Event) → Themed s → Themed (run s es)
unfolding run
run-Themed s [] h = h
run-Themed s (e ∷ es) h = run-Themed (step s e) es (step-Themed s e h)

start-Themed : (stored : Option String) (path : String) → Themed (start stored path)
unfolding start
start-Themed stored path = theme_effect-Themed (first_render stored path)

reload_mode :
    (later : String) (dark : Bool)
    → (start (some (if dark then "dark" else "light")) later).dark_mode ≡ dark
unfolding start
reload_mode later true = refl
reload_mode later false = refl

-- After any use, a page that is loaded again, at any path, starts in the theme that was left.
pub theme_persists :
    (stored : Option String) (path later : String) (es : List Event)
    → (start (run (start stored path) es).stored_theme later).dark_mode
      ≡ (run (start stored path) es).dark_mode
theme_persists stored path later es =
    let h = run-Themed (start stored path) es (start-Themed stored path) in
    rw h.1 (reload_mode later (run (start stored path) es).dark_mode)
