-- ===== src/Gateway/Resolver.antt =====
-- internal/filesystem/resolver.go: from a path to an open file. filepath.Match, and what the system
-- answers, are parameters.
pub mod Clean
pub mod Located
pub mod Found
use go_php.Prelude.{
  ℕ, Option, none, some, List, [], ◌∷◌, ◌++◌, Bool, true, false, not, ◌||◌, ◌==◌, if◌then◌else◌,
}
use go_php.Prelude.Bytes.{Bytes, bytes, has_prefix, is_empty}
use go_php.Gateway.Path.{
  Move, skip, up, enter, move, drop_last, split_slash, collapse, join_slash, normalized,
}
use go_php.Gateway.FilePath.{is_rooted, clean, join_path, base}

pub data SymlinkMode : Type 0 where
  symlink_deny symlink_within_root symlink_allow_listed : SymlinkMode

pub record Resolver : Type 0 where
  pub root : Bytes
  pub symlinks : SymlinkMode
  pub protected : List Bytes

pub data ResolveError : Type 0 where
  not_absolute abs_failed lstat_failed eval_failed open_failed stat_error : ResolveError
  traversal protected_file not_regular_file symlink_denied symlink_escape : ResolveError
  special_file file_not_found : ResolveError

-- What Lstat says of a path.
pub data Lstat : Type 0 where
  missing unreadable plain symlink : Lstat

-- The type bits of an open file's mode.
pub data Kind : Type 0 where
  regular directory device named_pipe socket other_kind : Kind

-- What Stat says of a path.
pub data Stat : Type 0 where
  stat_missing stat_failed : Stat
  stat_of : Kind → Stat

pub data Opened : Type 0 where
  no_file not_opened no_stat : Opened
  opened : Kind → Opened

-- `match` is filepath.Match of a pattern and a name.
pub record System : Type 0 where
  pub cwd : Option Bytes
  pub lstat : Bytes → Lstat
  pub stat : Bytes → Stat
  pub eval_symlinks : Bytes → Option Bytes
  pub open_file : Bytes → Opened
  pub match : Bytes → Bytes → Bool

pub data Resolved : Type 0 where
  failed : ResolveError → Resolved
  found : Bytes → Resolved

abbrev pub absolute : System → Bytes → Option Bytes
absolute sys p =
    if is_rooted p
    then some (clean p)
    else elim sys.cwd [ none ↦ none | some dir ↦ some (join_path dir p) ]

abbrev pub new_resolver : Bytes → SymlinkMode → List Bytes → Resolver
new_resolver doc_root symlinks protected = record {
  root = clean doc_root;
  symlinks = symlinks;
  protected = protected;
}

-- DefaultProtectedPatterns.
abbrev pub default_patterns : List Bytes
default_patterns =
    bytes ".env"
    ∷ bytes ".env.*"
    ∷ bytes ".git"
    ∷ bytes ".git/**"
    ∷ bytes ".svn"
    ∷ bytes ".hg"
    ∷ bytes "composer.json"
    ∷ bytes "composer.lock"
    ∷ bytes "auth.json"
    ∷ bytes "php.ini"
    ∷ bytes ".user.ini"
    ∷ bytes ".htaccess"
    ∷ bytes ".htpasswd"
    ∷ bytes "*.sql"
    ∷ bytes "*.sqlite"
    ∷ bytes "*.sqlite3"
    ∷ bytes "*.log"
    ∷ bytes "*.bak"
    ∷ bytes "*.backup"
    ∷ bytes "*.swp"
    ∷ bytes "*.dist"
    ∷ bytes "Dockerfile"
    ∷ bytes "compose.yaml"
    ∷ bytes "docker-compose.yml"
    ∷ bytes "gateway.yaml"
    ∷ bytes "gateway.lock"
    ∷ []

abbrev pub any_matches : (Bytes → Bool) → List Bytes → Bool
any_matches p [] = false
any_matches p (s ∷ ss) = p s || any_matches p ss

unfoldable pub is_protected : System → List Bytes → Bytes → Bool
is_protected sys [] path = false
is_protected sys (pat ∷ pats) path =
    any_matches (sys.match pat) (split_slash path)
    || sys.match pat (base path)
    || sys.match pat path
    || is_protected sys pats path

-- What follows a prefix.
abbrev pub after_prefix : Bytes → Bytes → Option Bytes
after_prefix s [] = some s
after_prefix [] (b ∷ t) = none
after_prefix (a ∷ s) (b ∷ t) = let rest = after_prefix s t in if a == b then rest else none

abbrev pub at_boundary : Option Bytes → Bool
at_boundary none = false
at_boundary (some []) = true
at_boundary (some (b ∷ bs)) = b == b'/'

unfoldable pub is_under_root : Bytes → Bytes → Bool
is_under_root child root = at_boundary (after_prefix child root)

abbrev pub is_regular : Kind → Bool
is_regular regular = true
is_regular directory = false
is_regular device = false
is_regular named_pipe = false
is_regular socket = false
is_regular other_kind = false

abbrev pub is_special : Kind → Bool
is_special regular = false
is_special directory = false
is_special device = true
is_special named_pipe = true
is_special socket = true
is_special other_kind = false

abbrev pub after_open : Bytes → Opened → Resolved
after_open p no_file = failed file_not_found
after_open p not_opened = failed open_failed
after_open p no_stat = failed stat_error
after_open p (opened k) =
    if not (is_regular k)
    then failed not_regular_file
    else if is_special k
    then failed special_file
    else found p

abbrev pub after_eval : System → Resolver → Option Bytes → Resolved
after_eval sys r none = failed eval_failed
after_eval sys r (some real) =
    if is_under_root real r.root
    then after_open real (sys.open_file real)
    else failed symlink_escape

abbrev pub follow : System → Resolver → Bytes → SymlinkMode → Resolved
follow sys r abs symlink_deny = failed symlink_denied
follow sys r abs symlink_within_root = after_eval sys r (sys.eval_symlinks abs)
follow sys r abs symlink_allow_listed = failed symlink_denied

abbrev pub after_lstat : System → Resolver → Bytes → Lstat → Resolved
after_lstat sys r abs missing = failed file_not_found
after_lstat sys r abs unreadable = failed lstat_failed
after_lstat sys r abs plain = after_open abs (sys.open_file abs)
after_lstat sys r abs symlink = follow sys r abs r.symlinks

-- The absolute path under the root, or the error.
pub data Place : Type 0 where
  refused : ResolveError → Place
  at : Bytes → Place

abbrev pub checked_root : Bytes → Option Bytes → Place
checked_root root none = refused abs_failed
checked_root root (some abs) = if is_under_root abs root then at abs else refused traversal

unfoldable pub locate : System → Resolver → Bytes → Place
locate sys r path =
    if not (has_prefix path (bytes "/"))
    then refused not_absolute
    else if is_protected sys r.protected path
    then refused protected_file
    else checked_root r.root (absolute sys (join_path r.root path))

abbrev pub resolve_at : System → Resolver → Place → Resolved
resolve_at sys r (refused e) = failed e
resolve_at sys r (at abs) = after_lstat sys r abs (sys.lstat abs)

unfoldable pub resolve : System → Resolver → Bytes → Resolved
resolve sys r path = resolve_at sys r (locate sys r path)

-- ResolveInfo: the same tests, then Stat, which follows links.
pub data Info : Type 0 where
  no_info : ResolveError → Info
  info : Kind → Info

abbrev pub after_stat : Stat → Info
after_stat stat_missing = no_info file_not_found
after_stat stat_failed = no_info stat_error
after_stat (stat_of k) = info k

abbrev pub info_at : System → Place → Info
info_at sys (refused e) = no_info e
info_at sys (at abs) = after_stat (sys.stat abs)

unfoldable pub resolve_info : System → Resolver → Bytes → Info
resolve_info sys r path = info_at sys (locate sys r path)
