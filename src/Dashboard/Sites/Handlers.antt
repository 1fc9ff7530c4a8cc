-- ===== src/Dashboard/Sites/Handlers.antt =====
-- The event handlers of dashboard/src/pages/Sites.tsx, and the page as a machine that takes events.
use Prim.Native.String.{◌++◌}
use mathlib.Core.List
use go_php.Prelude.{
  String, Option, none, some, Bool, false, ◌||◌, List, [], ◌∷◌, str_eq, ◌==◌, if◌then◌else◌,
}
use go_php.Prelude.Decimal.{print_ℤ, parse_int, int_or_zero}
use go_php.Prelude.Names.{contains, remove}
use go_php.Prelude.Int.{ℤ, pos, negsuc}
use go_php.Dashboard.Types.{Site, SiteStatus, active, stopped}
use go_php.Dashboard.Hooks.{Fetch, message_or, Settled, resolved, rejected}
use go_php.Dashboard.Hooks
use go_php.Dashboard.Client.Calls.{Call, create_site, update_site, delete_site}
use go_php.Dashboard.Notice.{toast, success, error}
use go_php.Dashboard.Sites.{Page, reset_form, open_create, open_edit, close_modal, edited_site}

-- !n, of a number
abbrev pub is_zero : ℤ → Bool
is_zero (pos n) = n == 0
is_zero (negsuc n) = false

-- The button's `disabled`: !form.name || !form.port
unfoldable pub submit_disabled : Page → Bool
submit_disabled p = str_eq p.form.name "" || is_zero p.form.port

-- The `try` of handleSubmit up to its `await`; `now` is new Date().toISOString().
unfoldable pub submit_call : Page → String → Call
unfolding edited_site create_site update_site
submit_call p now = elim p.editing [
  | none ↦ create_site p.form
  | some s ↦ update_site s.id (edited_site p s now)
]

submitted : Page → String
submitted at = elim at.editing [
  | none ↦ "Site \"" ++ (at.form.name ++ ("\" created on port " ++ print_ℤ at.form.port))
  | some s ↦ "Site \"" ++ (at.form.name ++ "\" updated")
]

-- What follows the await: the toast, setModalOpen(false), resetForm() and refetch(), or the `catch`.
unfoldable pub submit_settled : Page → Settled (Unit {0}) → Page → Page
unfolding submitted reset_form Hooks.load
submit_settled at (resolved _) p =
    let q =
      reset_form at (record p { toast_ = toast (submitted at) success; modal_open = false }) in
    record q { data_ = Hooks.load q.data_ }
submit_settled at (rejected e) p = record p { toast_ = toast (message_or e "Failed") error }

-- handleDelete; `confirmed` is the answer of `confirm`.
unfoldable pub delete_call : Bool → Site → Option Call
unfolding delete_site
delete_call confirmed s = if confirmed then some (delete_site s.id) else none

-- The end of handleDelete and handleToggle: `verb` is "deleted", "started" or "stopped".
site_settled : String → Site → Settled (Unit {0}) → Page → Page
unfolding Hooks.load
site_settled verb s (resolved _) p = record p {
  toast_ = toast ("Site \"" ++ (s.name ++ ("\" " ++ verb))) success;
  data_ = Hooks.load p.data_;
}
site_settled verb s (rejected e) p = record p { toast_ = toast (message_or e "Failed") error }

unfoldable pub delete_settled : Site → Settled (Unit {0}) → Page → Page
unfolding site_settled
delete_settled s r p = site_settled "deleted" s r p

-- site.status === 'active' ? 'stopped' : 'active'
unfoldable pub new_status : SiteStatus → SiteStatus
new_status active = stopped
new_status _ = active

unfoldable pub toggle_call : Site → String → Call
unfolding new_status update_site
toggle_call s now = update_site s.id (record s { status = new_status s.status; updated_at = now })

toggled : SiteStatus → String
toggled active = "started"
toggled _ = "stopped"

unfoldable pub toggle_settled : Site → Settled (Unit {0}) → Page → Page
unfolding site_settled toggled new_status
toggle_settled s r p = site_settled (toggled (new_status s.status)) s r p

-- prev.includes(name) ? prev.filter(e => e !== name) : [...prev, name]
unfoldable pub toggle_ext : String → List String → List String
unfolding contains remove
toggle_ext name prev = if contains name prev then remove name prev else List.◌++◌ prev (name ∷ [])

unfoldable pub toggle_site_ext : String → Page → Page
unfolding toggle_ext
toggle_site_ext name p = record p { site_exts = toggle_ext name p.site_exts }

-- The inputs of the modal: {...form, x}; parseInt(v) || 0 for the port.
pub data Input : Type 0 where
  name webroot php_version port profile : String → Input

unfoldable pub type_into : Input → Page → Page
unfolding parse_int
type_into (name v) p = record p { form = record (p.form) { name = v } }
type_into (webroot v) p = record p { form = record (p.form) { webroot = v } }
type_into (php_version v) p = record p { form = record (p.form) { php_version = v } }
type_into (port v) p = record p { form = record (p.form) { port = int_or_zero (parse_int v) } }
type_into (profile v) p = record p { site_profile = v }

-- What can happen to the page. A settlement comes with the page of the click that it belongs to.
pub data Event : Type 0 where
  creates closes closes_toast : Event
  edits : Site → Event
  types : Input → Event
  toggles_ext : String → Event
  fetches : Hooks.Event (List Site) → Event
  submits : Page → Settled (Unit {0}) → Event
  deletes toggles : Site → Settled (Unit {0}) → Event

-- The inputs and buttons of the modal are there only while it is open.
abbrev when_open : Page → Page → Page
when_open p q = if p.modal_open then q else p

unfoldable pub step : Page → Event → Page
step p creates = open_create p
step p closes = when_open p (close_modal p)
step p closes_toast = record p { toast_ = none }
step p (edits s) = open_edit s p
step p (types i) = when_open p (type_into i p)
step p (toggles_ext n) = when_open p (toggle_site_ext n p)
step p (fetches e) = record p { data_ = Hooks.step p.data_ e }
step p (submits at r) = submit_settled at r p
step p (deletes s r) = delete_settled s r p
step p (toggles s r) = toggle_settled s r p

unfoldable pub run : Page → List Event → Page
run p [] = p
run p (e ∷ es) = run (step p e) es
