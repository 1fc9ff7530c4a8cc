-- ===== src/Dashboard/Extensions.antt =====
-- dashboard/src/pages/Extensions.tsx: the catalogue, the profiles, and the page's state.
pub mod Laws
use Prim.Native.String.{◌++◌}
use go_php.Prelude.{
  ℕ, zero, suc, ◌+◌, String, Option, none, some, Bool, true, false, List, [], ◌∷◌, map, find,
  length, str_eq, if◌then◌else◌,
}
use go_php.Prelude.Names.{contains}
use go_php.Prelude.Decimal.{print_ℕ}
use go_php.Dashboard.Types.{ExtensionInfo, ExtensionProfile}
use go_php.Dashboard.Sites.Handlers.{toggle_ext}

abbrev entry : String → String → String → ExtensionInfo
entry n t d = record { name = n; type = t; description = d; version = "built-in" }

abbrev pub all_extensions : List ExtensionInfo
all_extensions =
    entry "curl" "extension" "cURL client library"
    ∷ entry "json" "extension" "JSON serialization support"
    ∷ entry "mbstring" "extension" "Multibyte string functions"
    ∷ entry "pdo" "extension" "PHP Data Objects interface"
    ∷ entry "pdo_sqlite" "extension" "PDO driver for SQLite"
    ∷ entry "pdo_mysql" "extension" "PDO driver for MySQL"
    ∷ entry "pdo_pgsql" "extension" "PDO driver for PostgreSQL"
    ∷ entry "opcache" "extension" "OPcache bytecode cache"
    ∷ entry "intl" "extension" "Internationalization extension"
    ∷ entry "xml" "extension" "XML parsing and processing"
    ∷ entry "gd" "extension" "Image processing library"
    ∷ entry "mysqlnd" "extension" "MySQL native driver"
    ∷ entry "redis" "extension" "Redis key-value store client"
    ∷ entry "memcached" "extension" "Memcached client library"
    ∷ entry "xdebug" "zend_extension" "PHP debugger and profiler"
    ∷ entry "imagick" "extension" "ImageMagick image processing"
    ∷ entry "zip" "extension" "ZIP file management"
    ∷ entry "bz2" "extension" "BZip2 compression support"
    ∷ entry "bcmath" "extension" "Arbitrary precision mathematics"
    ∷ entry "gmp" "extension" "GNU Multiple Precision arithmetic"
    ∷ entry "sockets" "extension" "Socket communication"
    ∷ []

abbrev profile : String → String → List String → ExtensionProfile
profile n d es = record { name = n; description = d; extensions = es }

abbrev pub built_in_profiles : List ExtensionProfile
built_in_profiles =
    profile "minimal" "Minimal set for basic PHP scripts"
      ("curl" ∷ "json" ∷ "mbstring" ∷ "pdo" ∷ "pdo_sqlite" ∷ "opcache" ∷ "xml" ∷ [])
    ∷ profile "web-standard" "Standard set for most web applications" (
        "curl" ∷ "json" ∷ "mbstring" ∷ "pdo" ∷ "pdo_sqlite" ∷ "pdo_mysql" ∷ "pdo_pgsql" ∷ "opcache"
        ∷ "intl" ∷ "xml" ∷ "gd" ∷ "zip" ∷ "bcmath" ∷ [])
    ∷ profile "wordpress" "Optimized for WordPress" (
        "curl" ∷ "json" ∷ "mbstring" ∷ "pdo" ∷ "pdo_mysql" ∷ "mysqlnd" ∷ "opcache" ∷ "intl" ∷ "xml"
        ∷ "gd" ∷ "zip" ∷ "bcmath" ∷ "sockets" ∷ [])
    ∷ profile "laravel" "Optimized for Laravel" (
        "curl" ∷ "json" ∷ "mbstring" ∷ "pdo" ∷ "pdo_mysql" ∷ "pdo_pgsql" ∷ "opcache" ∷ "intl"
        ∷ "xml" ∷ "gd" ∷ "zip" ∷ "bcmath" ∷ "sockets" ∷ [])
    ∷ profile "development" "Full feature set for development environments" (
        "curl" ∷ "json" ∷ "mbstring" ∷ "pdo" ∷ "pdo_sqlite" ∷ "pdo_mysql" ∷ "pdo_pgsql" ∷ "opcache"
        ∷ "intl" ∷ "xml" ∷ "gd" ∷ "zip" ∷ "bcmath" ∷ "xdebug" ∷ "imagick" ∷ "memcached" ∷ "redis"
        ∷ [])
    ∷ []

-- `timers` counts the pending setTimeout(() => setSaved(false), 2000), and `saves` the calls of
-- handleSave that are in their 300 ms wait.
pub record Page : Type 0 where
  pub selected_profile : String
  pub enabled_exts : List String
  pub saving : Bool
  pub saved : Bool
  pub saves : ℕ
  pub timers : ℕ

unfoldable pub find_profile : String → Option ExtensionProfile
find_profile n = find (λ (p : ExtensionProfile). str_eq p.name n) built_in_profiles

-- The effect on [selectedProfile].
unfoldable pub apply_profile : Page → Page
unfolding find_profile
apply_profile p = elim (find_profile p.selected_profile) [
  | none ↦ p
  | some q ↦ record p { enabled_exts = q.extensions }
]

abbrev pub first_render : Page
first_render = record {
  selected_profile = "web-standard";
  enabled_exts = [];
  saving = false;
  saved = false;
  saves = 0;
  timers = 0;
}

-- The first render, followed by the effect.
unfoldable pub initial : Page
unfolding apply_profile
initial = apply_profile first_render

-- React runs the effect only if the selection has changed.
unfoldable pub select_profile : String → Page → Page
unfolding apply_profile
select_profile n p =
    if str_eq p.selected_profile n then p else apply_profile (record p { selected_profile = n })

-- The names for which there is a button.
abbrev pub catalogue : List String
catalogue = map (λ (e : ExtensionInfo). e.name) all_extensions

unfoldable pub handle_toggle : String → Page → Page
unfolding toggle_ext
handle_toggle n p = record p { enabled_exts = toggle_ext n p.enabled_exts }

-- handleSave up to its await; the button is disabled while `saving`.
unfoldable pub start_save : Page → Page
start_save p =
    if p.saving then p else record p { saving = true; saved = false; saves = p.saves + 1 }

finish_save : ℕ → Page → Page
finish_save zero p = p
finish_save (suc n) p = record p { saves = n; saved = true; timers = p.timers + 1; saving = false }

expire : ℕ → Page → Page
expire zero p = p
expire (suc n) p = record p { timers = n; saved = false }

pub data Event : Type 0 where
  selects toggles : String → Event
  saves save_waited timer_fired : Event

unfoldable pub step : Page → Event → Page
unfolding finish_save expire
step p (selects n) = select_profile n p
step p (toggles n) = if contains n catalogue then handle_toggle n p else p
step p saves = start_save p
step p save_waited = finish_save p.saves p
step p timer_fired = expire p.timers p

unfoldable pub run : Page → List Event → Page
run p [] = p
run p (e ∷ es) = run (step p e) es

-- `Extensions (${enabledExts.length} of ${ALL_EXTENSIONS.length} enabled)`
unfoldable pub card_title : Page → String
card_title p =
    "Extensions ("
    ++ (print_ℕ (length p.enabled_exts)
        ++ (" of " ++ (print_ℕ (length all_extensions) ++ " enabled)")))

-- A button of the grid: its name, its description, whether it bears the Zend mark and is enabled.
unfoldable pub button : Page → ExtensionInfo → String × String × Bool × Bool
button p e = (e.name, e.description, str_eq e.type "zend_extension", contains e.name p.enabled_exts)
