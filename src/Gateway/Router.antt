-- ===== src/Gateway/Router.antt =====
-- internal/router/match.go and rewrite.go: the matching of requests, and the rewriting of paths. What
-- the regular expressions of the package regexp match, and strings.EqualFold, are parameters.
pub mod Rounds
pub mod Itself
use go_php.Prelude.{
  ℕ, zero, suc, ◌+◌, Option, none, some, List, [], ◌∷◌, ◌++◌, Bool, true, false, not, ◌&&◌, ◌||◌,
  ◌==◌, if◌then◌else◌,
}
use go_php.Prelude.Int.{ℤ, pos, ltb_ℤ, limit_or}
use go_php.Prelude.Bytes.{Bytes, bytes, same_bytes, has_prefix, replace_all, is_empty}
use go_php.Prelude.Decimal.{print_ℕ}

-- A compiled expression gives the submatches of a text; it gives none where it does not match.
pub record Library : Type 0 where
  pub compile : Bytes → Option (Bytes → List Bytes)
  pub equal_fold : Bytes → Bytes → Bool

-- The headers are a list: the loop over the map asks for all of them.
pub record Route : Type 0 where
  pub host : Bytes
  pub path : Bytes
  pub path_prefix : Bytes
  pub regex : Bytes
  pub target : Bytes
  pub status : ℤ
  pub methods : List Bytes
  pub headers : List (Bytes × Bytes)
  pub compiled_regex : Option (Bytes → List Bytes)

-- What is used of an http.Request.
pub record Request : Type 0 where
  pub host : Bytes
  pub method : Bytes
  pub header : Bytes → Bytes
  pub path : Bytes

abbrev pub label : Route → Bytes
label r =
    if not (is_empty r.path)
    then r.path
    else if not (is_empty r.path_prefix)
    then r.path_prefix ++ bytes "*"
    else if not (is_empty r.regex)
    then bytes "re:" ++ r.regex
    else if not (is_empty r.host)
    then bytes "host:" ++ r.host
    else bytes "route"

abbrev pub compiled : Library → Route → Option Route
compiled lib r = if is_empty r.regex then some r else elim (lib.compile r.regex) [
  | none ↦ none
  | some re ↦ some (record r { compiled_regex = some re })
]

abbrev pub put_route : Option Route → Option (List Route) → Option (List Route)
put_route none rest = none
put_route (some r) none = none
put_route (some r) (some rs) = some (r ∷ rs)

unfoldable pub new_engine : Library → List Route → Option (List Route)
new_engine lib [] = some []
new_engine lib (r ∷ rs) = put_route (compiled lib r) (new_engine lib rs)

abbrev pub is_redirect : Route → Bool
is_redirect r = not (ltb_ℤ r.status (pos 300)) && ltb_ℤ r.status (pos 400)

abbrev pub has_method : Library → Bytes → List Bytes → Bool
has_method lib method [] = false
has_method lib method (m ∷ ms) = lib.equal_fold m method || has_method lib method ms

abbrev pub has_headers : Request → List (Bytes × Bytes) → Bool
has_headers q [] = true
has_headers q ((k, v) ∷ hs) = same_bytes (q.header k) v && has_headers q hs

abbrev pub some_match : List Bytes → Bool
some_match [] = false
some_match (m ∷ ms) = true

-- The expression that was compiled with the engine, or one that is compiled now.
abbrev pub regex_of : Library → Route → Option (Bytes → List Bytes)
regex_of lib r = elim r.compiled_regex [ none ↦ lib.compile r.regex | some re ↦ some re ]

abbrev pub matches : Option (Bytes → List Bytes) → Bytes → Bool
matches none path = false
matches (some re) path = some_match (re path)

abbrev pub match_path : Library → Route → Bytes → Bool
match_path lib r path =
    if not (is_empty r.regex)
    then matches (regex_of lib r) path
    else if not (is_empty r.path_prefix)
    then has_prefix path r.path_prefix
    else if not (is_empty r.path)
    then same_bytes r.path path
    else true

abbrev pub any_method : List Bytes → Bool
any_method [] = true
any_method (m ∷ ms) = false

unfoldable pub match_route : Library → Route → Request → Bool
match_route lib r q =
    if not (is_empty r.host) && not (same_bytes r.host q.host)
    then false
    else if not (any_method r.methods || has_method lib q.method r.methods)
    then false
    else if not (has_headers q r.headers)
    then false
    else match_path lib r q.path

unfoldable pub match_request : Library → List Route → Request → Option Route
match_request lib [] q = none
match_request lib (r ∷ rs) q =
    let rest = match_request lib rs q in if match_route lib r q then some r else rest

-- The loop over the captures: $0, $1 and so on.
unfoldable pub put_captures : ℕ → List Bytes → Bytes → Bytes
put_captures i [] target = target
put_captures i (m ∷ ms) target =
    put_captures (suc i) ms (replace_all target (bytes "$" ++ bytes (print_ℕ i)) m)

abbrev pub put_matches : Option (Bytes → List Bytes) → Bytes → Bytes → Bytes
put_matches none path target = target
put_matches (some re) path target = put_captures 0 (re path) target

unfoldable pub rewrite : Library → Route → Bytes → Bytes
rewrite lib r path =
    let whole = replace_all r.target (bytes "$0") path in
    if is_empty r.target
    then path
    else if is_empty r.regex
    then whole
    else put_matches (regex_of lib r) path whole

-- Whether a route with a target applies to the current path, and the captures of its expression.
abbrev pub taken : List Bytes → Option (List Bytes)
taken [] = none
taken (m ∷ ms) = some (m ∷ ms)

abbrev pub captured : Option (Bytes → List Bytes) → Bytes → Option (List Bytes)
captured none path = none
captured (some re) path = taken (re path)

unfoldable pub applies : Library → Route → Bytes → Option (List Bytes)
applies lib r path =
    if is_empty r.target
    then none
    else if not (is_empty r.regex)
    then captured (lib.compile r.regex) path
    else if not (is_empty r.path_prefix)
    then (if has_prefix path r.path_prefix then some [] else none)
    else if not (is_empty r.path)
    then (if same_bytes path r.path then some [] else none)
    else some []

-- A target up to its question mark, and what follows it.
abbrev pub shifted : ℕ → Bytes × Bytes → Bytes × Bytes
shifted b (p, q) = (b ∷ p, q)

unfoldable pub split_query : Bytes → Bytes × Bytes
split_query [] = ([], [])
split_query (b ∷ bs) = let rest = split_query bs in if b == b'?' then ([], bs) else shifted b rest

abbrev pub join_query : Bytes → Bytes → Bytes
join_query new old =
    if is_empty new then old else if is_empty old then new else new ++ bytes "&" ++ old

-- The path and the query between two rounds.
pub record Location : Type 0 where
  pub path : Bytes
  pub query : Bytes

abbrev pub located : Bytes → Bytes × Bytes → Location
located query (p, q) = record { path = p; query = join_query q query }

unfoldable pub rewritten : Route → List Bytes → Location → Location
unfolding put_captures split_query
rewritten r captures l =
    located l.query
      (split_query (replace_all (put_captures 0 captures r.target) (bytes "$0") l.path))

-- The loop over the routes: the first that applies, and the captures.
abbrev pub first_of :
    Route → Option (List Bytes) → Option (Route × List Bytes) → Option (Route × List Bytes)
first_of r none rest = rest
first_of r (some cs) rest = some (r, cs)

unfoldable pub first_applies : Library → List Route → Bytes → Option (Route × List Bytes)
first_applies lib [] path = none
first_applies lib (r ∷ rs) path = first_of r (applies lib r path) (first_applies lib rs path)

pub record RewriteResult : Type 0 where
  pub path : Bytes
  pub raw_query : Bytes
  pub redirect_code : ℤ
  pub is_terminal : Bool
  pub iterations : ℕ

-- The result, and whether it comes with ErrMaxIterationsExceeded.
pub data Rewritten : Type 0 where
  finished : RewriteResult → Rewritten
  exceeded : RewriteResult → Rewritten

abbrev pub result_at : Location → ℤ → Bool → ℕ → RewriteResult
result_at l code terminal n = record {
  path = l.path;
  raw_query = l.query;
  redirect_code = code;
  is_terminal = terminal;
  iterations = n;
}

-- A round, with the rounds that follow.
abbrev pub round : Option (Route × List Bytes) → Location → ℕ → (Location → Rewritten) → Rewritten
round none l n next = finished (result_at l (pos 0) false n)
round (some (r, cs)) l n next =
    if is_redirect r
    then finished (result_at (rewritten r cs l) r.status true n)
    else next (rewritten r cs l)

-- The rounds that are left, and the number of those that were made.
unfoldable pub rewrite_from : Library → List Route → ℕ → ℕ → Location → Rewritten
rewrite_from lib rs zero n l = exceeded (result_at l (pos 0) false n)
rewrite_from lib rs (suc left) n l =
    round (first_applies lib rs l.path) l (suc n) (rewrite_from lib rs left (suc n))

abbrev pub rewrite_loop : Library → List Route → Bytes → Bytes → ℤ → Rewritten
rewrite_loop lib rs path query max =
    rewrite_from lib rs (limit_or 10 max) 0 (record { path = path; query = query })
