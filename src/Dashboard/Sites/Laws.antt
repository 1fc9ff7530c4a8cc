-- ===== src/Dashboard/Sites/Laws.antt =====
-- The form and the requests of the sites page.
use go_php.Prelude.{
  String, ◌≡◌, refl, Option, none, some, true, false, List, [], ◌∷◌, All, arith, str_eq, eq_iff,
  ◌≢◌, if◌then◌else◌, Bool-cases, inl, inr,
}
use go_php.Prelude.Int.{ℤ, ◌<ℤ◌, max_ℤ-lt_left, max_ℤ-lt_right, lt-add_one}
use go_php.Prelude.Names.{
  contains, Distinct, contains-remove, contains-append_one, remove-Distinct, append_one-Distinct,
}
use go_php.Dashboard.Types.{Site}
use go_php.Dashboard.Hooks.{Settled, resolved, rejected}
use go_php.Dashboard.Client.Calls.{update_site}
use go_php.Dashboard.Sites.{
  Page, max_port, next_port, initial, open_create, open_edit, close_modal, edited_site, or_blank,
  or_empty, defined_text, defined_list,
}
use go_php.Dashboard.Sites.Handlers.{
  submit_call, submit_settled, delete_settled, toggle_settled, toggle_ext, Event, creates, closes,
  closes_toast, edits, types, toggles_ext, fetches, submits, deletes, toggles, step, run, type_into,
  toggle_site_ext, Input, name,
}

abbrev pub PortsBelow : ℤ → List Site → Type 0
PortsBelow n ss = All (λ (s : Site). s.port <ℤ n) ss

max_port-PortsBelow :
    (s : Site) (ss : List Site) (n : ℤ) → max_port s ss <ℤ n → PortsBelow n (s ∷ ss)
unfolding max_port
max_port-PortsBelow s [] n h = (h, tt)
max_port-PortsBelow s (t ∷ ts) n h = (
  max_ℤ-lt_left s.port (max_port t ts) n h,
  max_port-PortsBelow t ts n (max_ℤ-lt_right s.port (max_port t ts) n h),
)

-- The port that a new site is offered is above the port of every listed site.
next_port-PortsBelow : (ss : List Site) → PortsBelow (next_port ss) ss
unfolding next_port
next_port-PortsBelow [] = tt
next_port-PortsBelow (s ∷ ss) = max_port-PortsBelow s ss _ (lt-add_one (max_port s ss))

-- Clicking an extension button flips that extension and no other, and keeps the names distinct.
pub toggle_ext_lem :
    (n : String) (xs : List String)
    → Distinct xs
    → Distinct (toggle_ext n xs)
      × ((k : String)
          → contains k (toggle_ext n xs)
            ≡ (if str_eq n k then (if contains n xs then false else true) else contains k xs))
unfolding toggle_ext
toggle_ext_lem n xs d = elim (Bool-cases (contains n xs)) [
  | inl in_list ↦ rw in_list (remove-Distinct n xs d, λ k. contains-remove n k xs)
  | inr absent ↦ rw absent (append_one-Distinct n xs absent d, λ k. contains-append_one n k xs)
]

defined_text_of_blank : (o : Option String) → o ≢ some "" → defined_text (or_blank o) ≡ o
defined_text_of_blank none h = refl
defined_text_of_blank (some t) h = ground (arith, eq_iff t "")

defined_list_of_empty : (o : Option (List String)) → o ≢ some [] → defined_list (or_empty o) ≡ o
defined_list_of_empty none h = refl
defined_list_of_empty (some []) h = absurd (h refl)
defined_list_of_empty (some (x ∷ xs)) h = refl

-- Opening the editor on a site and saving at once sends that site back with a new `updated_at`, if
-- its profile is not the empty text and its extension list is not empty where they are defined.
pub edit-submit_unchanged :
    (s : Site) (p : Page) (now : String)
    → s.profile ≢ some ""
    → s.extensions ≢ some []
    → submit_call (open_edit s p) now ≡ update_site s.id (record s { updated_at = now })
unfolding submit_call open_edit edited_site
edit-submit_unchanged s p now h k = λ i. update_site s.id (record s {
  updated_at = now;
  profile = defined_text_of_blank s.profile h i;
  extensions = defined_list_of_empty s.extensions k i;
})

-- While creating, the request depends on the form alone: pages that differ in the chosen profile and
-- extensions send the same request, so that choice is lost.
create_ignores_extensions :
    (p : Page) (now later new_profile : String) (exts : List String)
    → p.editing ≡ none
    → submit_call (record p { site_profile = new_profile; site_exts = exts }) later
      ≡ submit_call p now
unfolding submit_call
create_ignores_extensions p now later new_profile exts h = rw h

-- A closed modal holds nothing of an earlier edit.
abbrev pub Clean : Page → Type 0
Clean p = p.modal_open ≡ false → (p.editing ≡ none) × (p.site_profile ≡ "") × (p.site_exts ≡ [])

submit_settled-Clean :
    (at p : Page) (r : Settled (Unit {0})) → Clean p → Clean (submit_settled at r p)
unfolding submit_settled
submit_settled-Clean at p (resolved _) h l = (refl, refl, refl)
submit_settled-Clean at p (rejected e) h l = h l

delete_settled-Clean :
    (s : Site) (p : Page) (r : Settled (Unit {0})) → Clean p → Clean (delete_settled s r p)
unfolding delete_settled
delete_settled-Clean s p (resolved _) h l = h l
delete_settled-Clean s p (rejected e) h l = h l

toggle_settled-Clean :
    (s : Site) (p : Page) (r : Settled (Unit {0})) → Clean p → Clean (toggle_settled s r p)
unfolding toggle_settled
toggle_settled-Clean s p (resolved _) h l = h l
toggle_settled-Clean s p (rejected e) h l = h l

type_into-modal_open : (i : Input) (p : Page) → (type_into i p).modal_open ≡ p.modal_open
unfolding type_into
type_into-modal_open (name v) p = refl
type_into-modal_open _ p = refl

step-Clean : (p : Page) (e : Event) → Clean p → Clean (step p e)
unfolding step open_create close_modal open_edit toggle_site_ext
step-Clean p creates h l = cc
step-Clean p closes h l = ground arith
step-Clean p closes_toast h l = h l
step-Clean p (edits s) h l = cc
step-Clean p (types i) h l = ground (arith, type_into-modal_open i p)
step-Clean p (toggles_ext n) h l = ground arith
step-Clean p (fetches e) h l = h l
step-Clean p (submits at r) h l = submit_settled-Clean at p r h l
step-Clean p (deletes s r) h l = delete_settled-Clean s p r h l
step-Clean p (toggles s r) h l = toggle_settled-Clean s p r h l

run-Clean : (p : Page) (es : List Event) → Clean p → Clean (run p es)
unfolding run
run-Clean p [] h = h
run-Clean p (e ∷ es) h = run-Clean (step p e) es (step-Clean p e h)

-- After any clicks, typing and settlements, in any order, a page whose modal is closed is not editing
-- a site and has no profile and no extension left chosen.
pub run-initial-Clean : (es : List Event) → Clean (run initial es)
unfolding initial
run-initial-Clean es = run-Clean _ es (λ _. (refl, refl, refl))
