-- ===== src/Dashboard/Sites.antt =====
-- dashboard/src/pages/Sites.tsx. The page is a record of its `useState` values and its `useApi`; an
-- event handler is a function on it. A handler that awaits is two functions: the call that it makes,
-- and what it does when the promise settles. The second takes the page of the render that the click
-- belongs to as well, since a closure reads that render's values.
pub mod Handlers
pub mod View
pub mod Laws
use Prim.Native.String.{◌++◌}
use mathlib.Core.List
use go_php.Prelude.{
  String, Option, none, some, Bool, true, false, not, ◌||◌, List, [], ◌∷◌, str_eq, ◌==◌,
  if◌then◌else◌,
}
use go_php.Prelude.Decimal.{print_ℤ, parse_int, int_or_zero}
use go_php.Prelude.Names.{contains, remove}
use go_php.Prelude.Int.{ℤ, pos, negsuc, ◌+ℤ◌, max_ℤ}
use go_php.Dashboard.Types.{Site, SiteStatus, active, stopped, SiteCreateRequest}
use go_php.Dashboard.Hooks.{Fetch, Thrown, message_or, Settled, resolved, rejected}
use go_php.Dashboard.Hooks
use go_php.Dashboard.Client.Calls.{Call, create_site, update_site, delete_site}
use go_php.Dashboard.Notice.{Toast, toast, success, error}

pub record Page : Type 0 where
  pub data_ : Fetch (List Site)
  pub modal_open : Bool
  pub editing : Option Site
  pub toast_ : Option Toast
  pub form : SiteCreateRequest
  pub site_profile : String
  pub site_exts : List String

-- data?.sites || []
abbrev pub or_empty {ℓ} : {A : Type ℓ} → Option (List A) → List A
or_empty none = []
or_empty (some xs) = xs

abbrev pub sites : Page → List Site
sites p = or_empty p.data_.value

-- Math.max(...sites.map((s) => s.port)), of a list that is not empty
unfoldable pub max_port : Site → List Site → ℤ
max_port s [] = s.port
max_port s (t ∷ ts) = max_ℤ s.port (max_port t ts)

unfoldable pub next_port : List Site → ℤ
unfolding max_port
next_port [] = pos 8081
next_port (s ∷ ss) = max_port s ss +ℤ pos 1

abbrev pub blank_form : ℤ → SiteCreateRequest
blank_form port = record { name = ""; port = port; webroot = ""; php_version = "8.3" }

unfoldable pub initial : Page
unfolding Hooks.initial
initial = record {
  data_ = Hooks.initial;
  modal_open = false;
  editing = none;
  toast_ = none;
  form = blank_form (pos 8081);
  site_profile = "";
  site_exts = [];
}

-- resetForm; `at` is the page of the render that the closure belongs to.
unfoldable pub reset_form : Page → Page → Page
unfolding next_port
reset_form at p = record p {
  form = blank_form (next_port (sites at));
  site_profile = "";
  site_exts = [];
  editing = none;
}

-- A click is handled by the closures of the page that it is made on.
unfoldable pub open_create : Page → Page
unfolding reset_form next_port
open_create p =
    let q = reset_form p p in
    record q { form = record (q.form) { port = next_port (sites p) }; modal_open = true }

-- site.profile || '' and site.extensions || []
abbrev pub or_blank : Option String → String
or_blank none = ""
or_blank (some s) = s

unfoldable pub open_edit : Site → Page → Page
open_edit s p = record p {
  editing = some s;
  form = record { name = s.name; port = s.port; webroot = s.webroot; php_version = s.php_version };
  site_profile = or_blank s.profile;
  site_exts = or_empty s.extensions;
  modal_open = true;
}

-- Closing the modal by its button, its overlay, Escape or `Cancel`.
unfoldable pub close_modal : Page → Page
unfolding reset_form
close_modal p = reset_form p (record p { modal_open = false })

-- siteProfile || undefined, siteExts.length > 0 ? siteExts : undefined
abbrev pub defined_text : String → Option String
defined_text s = if str_eq s "" then none else some s

abbrev pub defined_list {ℓ} : {A : Type ℓ} → List A → Option (List A)
defined_list [] = none
defined_list (x ∷ xs) = some (x ∷ xs)

-- {...editing, ...form, profile, extensions, updated_at}
unfoldable pub edited_site : Page → Site → String → Site
edited_site p s now = record s {
  name = p.form.name;
  port = p.form.port;
  webroot = p.form.webroot;
  php_version = p.form.php_version;
  profile = defined_text p.site_profile;
  extensions = defined_list p.site_exts;
  updated_at = now;
}
