-- ===== src/Witnesses/Decisions.antt =====
-- Routes, rules and the files of requests, at concrete inputs.
use go_php.Prelude.{◌≡◌, ◌≢◌, refl, none, some, [], ◌∷◌, ◌++◌, true, false, ◌&&◌, filter}
use go_php.Prelude.Int.{pos}
use go_php.Prelude.Bytes.{Bytes, bytes, same_bytes, has_prefix, replace_from, ends_with}
use go_php.Gateway.Path.{
  ParsedPath, accepted, has_byte, has_escape, before_query, has_control, first_bad, hex_digit,
  percent_decode, contains_percent_encoding, split_slash, move, collapse, split_and_collapse,
  join_slash, normalized, check_decoded, raw_error, parse_path,
}
use go_php.Gateway.Router.{
  Library, Route, rewrite_loop, first_applies, applies, split_query, put_captures, exceeded,
  result_at,
}
use go_php.Gateway.Router.Rounds.{Follows, rewrite_loop-Follows}
use go_php.Gateway.Router.Itself.{prepended, goal_of, rewrite_loop-itself}
use go_php.Gateway.Policy as Policy
use go_php.Gateway.Policy.{
  Context, Rule, add_rule, rule_applies, matches_conditions, matches_condition, matches_exclusions,
  value_matches, phase_request, deny, evaluate_rule, evaluate_from,
}
use go_php.Gateway.Policy.Mode.{
  mode_strict, new_engine_for_mode, default_rules, add_rules, mode_middleware,
}
use go_php.Gateway.Policy.Order.{InOrderOf, add_rules-InOrder}
use go_php.Gateway.Policy.Verdict.{Verdict, evaluate_rule-Verdict}
use go_php.Gateway.Policy.Enforced.{
  is_forbidden, enforces, any_denies, mode_middleware-is_forbidden,
}
use go_php.Gateway.FilePath.{clean}
use go_php.Gateway.Resolver.{
  System, new_resolver, symlink_deny, is_protected, plain, stat_of, regular, opened, locate, at,
  refused, traversal, resolve, found, is_under_root, resolve_info,
}
use go_php.Gateway.Resolver.Located.{locate-parse_path}
use go_php.Gateway.Resolver.Found.{IsServed, resolve-IsServed}
use go_php.Server.Serving.{serve, new_site_handler, serves, try_all}
use go_php.Server.Serving.Inside.{file_of, Inside, serve-Inside}

-- No expression compiles, and letters are compared as they are.
abbrev plain_library : Library
plain_library = record { compile = λ pattern. none; equal_fold = same_bytes }

-- Every path goes to one script.
abbrev front_controller : Route
front_controller = record {
  host = [];
  path = [];
  path_prefix = bytes "/";
  regex = [];
  target = bytes "/i?a";
  status = pos 0;
  methods = [];
  headers = [];
  compiled_regex = none;
}

rewrite_loop-Follows_example :
    Follows plain_library
      (front_controller ∷ [])
      3
      (record { path = bytes "/x"; query = bytes "b=1" })
      (rewrite_loop plain_library (front_controller ∷ []) (bytes "/x") (bytes "b=1") (pos 3))
rewrite_loop-Follows_example =
    rewrite_loop-Follows plain_library (front_controller ∷ []) (bytes "/x") (bytes "b=1") (pos 3)

first_is_front :
    first_applies plain_library (front_controller ∷ []) (bytes "/i") ≡ some (front_controller, [])
unfolding first_applies applies has_prefix
first_is_front = refl

goal_is_itself : (goal_of front_controller [] (bytes "/i")).0 ≡ bytes "/i"
unfolding split_query put_captures replace_from has_prefix
goal_is_itself = refl

rewrite_loop-itself_example :
    rewrite_loop plain_library (front_controller ∷ []) (bytes "/i") (bytes "b=1") (pos 3)
    ≡ exceeded (
        result_at
          (record {
            path = bytes "/i";
            query = prepended 3 (goal_of front_controller [] (bytes "/i")).1 (bytes "b=1");
          })
          (pos 0)
          false
          3)
rewrite_loop-itself_example =
    rewrite_loop-itself plain_library (front_controller ∷ []) (bytes "/i") front_controller []
      first_is_front refl goal_is_itself (bytes "b=1") (pos 3)

query_grows :
    prepended 3 (goal_of front_controller [] (bytes "/i")).1 (bytes "b=1") ≡ bytes "a&a&a&b=1"
unfolding split_query put_captures replace_from has_prefix
query_grows = refl

abbrev policy_library : Policy.Library
policy_library = record {
  compile = λ pattern. none;
  equal_fold = same_bytes;
  trim_space = λ s. s;
  parse_query = λ s. [];
  parse_int = λ s. none;
  parse_ip = λ s. none;
  ip_equal = same_bytes;
  parse_cidr = λ s. none;
}

abbrev request : Context
request = record {
  phase = phase_request;
  method = bytes "GET";
  path = bytes "/.env";
  host = bytes "h";
  header = λ name. [];
  query = [];
  body_size = pos 0;
  remote_ip = [];
  tls = true;
}

add_rules-InOrder_example :
    InOrderOf (default_rules mode_strict) (add_rules [] (default_rules mode_strict))
add_rules-InOrder_example = add_rules-InOrder (default_rules mode_strict)

evaluate_rule-Verdict_example :
    let v = evaluate_rule policy_library request (new_engine_for_mode mode_strict) in
    Verdict (filter (rule_applies policy_library request) (new_engine_for_mode mode_strict)) v.0 v.1
evaluate_rule-Verdict_example =
    evaluate_rule-Verdict policy_library request (new_engine_for_mode mode_strict)

mode_middleware-is_forbidden_example :
    is_forbidden
      (mode_middleware policy_library mode_strict request (new_engine_for_mode mode_strict))
    ≡ (enforces mode_strict
        && any_denies
            (filter (rule_applies policy_library request) (new_engine_for_mode mode_strict)))
mode_middleware-is_forbidden_example =
    mode_middleware-is_forbidden policy_library mode_strict request
      (new_engine_for_mode mode_strict)

-- A system on which every name is a regular file, and patterns match themselves.
abbrev all_files : System
all_files = record {
  cwd = some (bytes "/home");
  lstat = λ path. plain;
  stat = λ path. stat_of regular;
  eval_symlinks = λ path. some path;
  open_file = λ path. opened regular;
  match = same_bytes;
}

abbrev target : Bytes
target = bytes "/./x"

abbrev parsed : ParsedPath
parsed = record {
  raw_target = target;
  raw_path = target;
  escaped_path = target;
  decoded_segments = bytes "x" ∷ [];
  normalized_path = bytes "/x";
}

parse_target : parse_path target ≡ accepted parsed
unfolding parse_path raw_error has_byte has_escape before_query has_control first_bad hex_digit
    percent_decode contains_percent_encoding split_slash move collapse split_and_collapse join_slash
    normalized check_decoded
parse_target = refl

root_segments : collapse [] (split_slash (bytes "/w")) ≢ []
unfolding collapse split_slash move
root_segments e = cc

not_protected : is_protected all_files (bytes ".env" ∷ []) (bytes "/x") ≡ false
unfolding is_protected split_slash same_bytes
not_protected = refl

locate-parse_path_example :
    locate all_files (new_resolver (bytes "/w") symlink_deny (bytes ".env" ∷ [])) (bytes "/x")
    ≡ at (normalized (collapse [] (split_slash (bytes "/w")) ++ bytes "x" ∷ []))
locate-parse_path_example =
    locate-parse_path all_files (bytes "/w") symlink_deny (bytes ".env" ∷ []) target parsed refl
      root_segments parse_target not_protected

-- With "/" as the root, every path but the root itself is taken for one that escapes.
slash_is_no_root :
    locate all_files (new_resolver (bytes "/") symlink_deny []) (bytes "/x") ≡ refused traversal
unfolding locate has_prefix is_protected clean split_slash collapse move normalized join_slash
    is_under_root
slash_is_no_root = refl

finds_x :
    resolve all_files (new_resolver (bytes "/w") symlink_deny []) (bytes "/x")
    ≡ found (bytes "/w/x")
unfolding resolve locate has_prefix is_protected clean split_slash collapse move normalized
    join_slash is_under_root
finds_x = refl

resolve-IsServed_example :
    IsServed all_files (new_resolver (bytes "/w") symlink_deny []) (bytes "/x") (bytes "/w/x")
resolve-IsServed_example =
    resolve-IsServed all_files (new_resolver (bytes "/w") symlink_deny []) (bytes "/x")
      (bytes "/w/x") finds_x

serves_x : file_of (serve all_files (new_site_handler (bytes "/w") []) target) ≡ some (bytes "/w/x")
unfolding serve try_all resolve_info parse_path raw_error has_byte has_escape before_query
    has_control first_bad hex_digit percent_decode contains_percent_encoding split_slash move
    collapse split_and_collapse join_slash normalized check_decoded locate has_prefix is_protected
    clean is_under_root ends_with same_bytes
serves_x = refl

-- Without a socket a script is served as it is.
serves_source :
    serve all_files (new_site_handler (bytes "/w") []) (bytes "/i.php") ≡ serves (bytes "/w/i.php")
unfolding serve try_all resolve_info parse_path raw_error has_byte has_escape before_query
    has_control first_bad hex_digit percent_decode contains_percent_encoding split_slash move
    collapse split_and_collapse join_slash normalized check_decoded locate has_prefix is_protected
    clean is_under_root ends_with same_bytes
serves_source = refl

serve-Inside_example : Inside all_files (bytes "/w") target (bytes "/w/x")
serve-Inside_example = serve-Inside all_files (bytes "/w") [] target (bytes "/w/x") refl serves_x
