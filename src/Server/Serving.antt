-- ===== src/Server/Serving.antt =====
-- internal/ui/siteManager.go: how the server of a site answers a request: the path is parsed, and the
-- first of some candidates that is a regular file is served or given to PHP.
pub mod Roots
pub mod Inside
use go_php.Prelude.{
  ℕ, Option, none, some, List, [], ◌∷◌, ◌++◌, Bool, true, false, not, ◌&&◌, ◌==◌, if◌then◌else◌,
}
use go_php.Prelude.Bytes.{Bytes, bytes, ends_with, is_empty}
use go_php.Gateway.Path.{ParsedPath, Parsed, rejected, accepted, parse_path}
use go_php.Gateway.FilePath.{join_path}
use go_php.Gateway.Resolver.{
  System, Resolver, new_resolver, default_patterns, symlink_within_root, is_protected, is_regular,
  Kind, directory, Opened, no_file, not_opened, no_stat, opened, Info, no_info, info, resolve_info,
}

-- The handler of a site; an empty socket path is that of a server without PHP.
pub record SiteHandler : Type 0 where
  pub doc_root : Bytes
  pub sock_path : Bytes
  pub resolver : Resolver

abbrev pub new_site_handler : Bytes → Bytes → SiteHandler
new_site_handler doc_root sock_path = record {
  doc_root = doc_root;
  sock_path = sock_path;
  resolver = new_resolver doc_root symlink_within_root default_patterns;
}

-- What is answered: an error, a script that PHP is to run, or the contents of a file.
pub data Answer : Type 0 where
  bad_request forbidden not_found : Answer
  runs_php : Bytes → Answer
  serves : Bytes → Answer

-- strings.HasSuffix(s, "/")
abbrev pub ends_slash : Bytes → Bool
ends_slash [] = false
ends_slash (b ∷ []) = b == b'/'
ends_slash (a ∷ b ∷ s) = ends_slash (b ∷ s)

abbrev pub candidates : Bytes → List Bytes
candidates n =
    if ends_slash n
    then (n ++ bytes "index.php") ∷ (n ++ bytes "index.html") ∷ []
    else n ∷ (n ++ bytes "/index.php") ∷ (n ++ bytes "/index.html") ∷ []

-- strings.TrimPrefix(s, "/")
abbrev pub trim_slash : Bytes → Bytes
trim_slash [] = []
trim_slash (b ∷ s) = if b == b'/' then s else b ∷ s

-- A file is opened; a directory is passed over.
abbrev pub open_static : Bytes → Opened → Answer → Answer
open_static abs no_file next = next
open_static abs not_opened next = next
open_static abs no_stat next = next
open_static abs (opened directory) next = next
open_static abs (opened k) next = serves abs

abbrev pub serve_file : System → SiteHandler → Bytes → Bytes → Answer → Answer
serve_file sys h c abs next =
    if ends_with c (bytes ".php") && not (is_empty h.sock_path)
    then runs_php abs
    else open_static abs (sys.open_file abs) next

abbrev pub try_candidate : System → SiteHandler → Bytes → Info → Answer → Answer
try_candidate sys h c (no_info e) next = next
try_candidate sys h c (info k) next =
    if not (is_regular k)
    then next
    else if is_protected sys h.resolver.protected c
    then forbidden
    else serve_file sys h c (join_path h.doc_root (trim_slash c)) next

unfoldable pub try_all : System → SiteHandler → List Bytes → Answer
try_all sys h [] = not_found
try_all sys h (c ∷ cs) = try_candidate sys h c (resolve_info sys h.resolver c) (try_all sys h cs)

abbrev pub serve_normalized : System → SiteHandler → Bytes → Answer
serve_normalized sys h n =
    if is_protected sys h.resolver.protected n then forbidden else try_all sys h (candidates n)

abbrev pub serve_parsed : System → SiteHandler → Parsed → Answer
serve_parsed sys h (rejected e) = bad_request
serve_parsed sys h (accepted p) = serve_normalized sys h p.normalized_path

unfoldable pub serve : System → SiteHandler → Bytes → Answer
serve sys h path = serve_parsed sys h (parse_path path)
