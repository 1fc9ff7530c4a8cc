-- ===== src/Gateway/Policy.antt =====
-- internal/policy/engine.go: rules, and their evaluation. What regular expressions match, and what the
-- packages strings, strconv, url and net make of texts, are parameters. An address is its bytes.
pub mod Mode
pub mod Network
pub mod Order
pub mod Verdict
pub mod Enforced
use go_php.Prelude.{
  ℕ, Option, none, some, List, [], ◌∷◌, ◌++◌, Bool, true, false, not, ◌&&◌, ◌||◌, ◌==◌,
  if◌then◌else◌,
}
use go_php.Prelude.Int.{ℤ, pos, ltb_ℤ}
use go_php.Prelude.Bytes.{Bytes, bytes, same_bytes, has_prefix, includes_bytes, cut_at}

pub record Library : Type 0 where
  pub compile : Bytes → Option (Bytes → Bool)
  pub equal_fold : Bytes → Bytes → Bool
  pub trim_space : Bytes → Bytes
  pub parse_query : Bytes → List (Bytes × List Bytes)
  pub parse_int : Bytes → Option ℤ
  pub parse_ip : Bytes → Option Bytes
  pub ip_equal : Bytes → Bytes → Bool
  pub parse_cidr : Bytes → Option (Bytes → Bool)

abbrev pub phase_request : Bytes
phase_request = bytes "request"

pub data Decision : Type 0 where
  allow deny observe : Decision

abbrev pub decision_text : Decision → Bytes
decision_text allow = bytes "allow"
decision_text deny = bytes "deny"
decision_text observe = bytes "observe"

pub record Context : Type 0 where
  pub phase : Bytes
  pub method : Bytes
  pub path : Bytes
  pub host : Bytes
  pub header : Bytes → Bytes
  pub query : Bytes
  pub body_size : ℤ
  pub remote_ip : Bytes
  pub tls : Bool

-- The constants, and any other text.
pub data ConditionType : Type 0 where
  cond_method cond_path cond_path_prefix cond_path_regex cond_host cond_header : ConditionType
  cond_query_param cond_body_size cond_ip cond_ip_range cond_scheme : ConditionType
  cond_other : ConditionType

pub record Condition : Type 0 where
  pub type : ConditionType
  pub values : List Bytes
  pub negate : Bool

pub record Exclusion : Type 0 where
  pub type : ConditionType
  pub values : List Bytes

pub record Rule : Type 0 where
  pub name : Bytes
  pub phase : Bytes
  pub mode : Decision
  pub priority : ℤ
  pub conditions : List Condition
  pub exclusions : List Exclusion

-- The pass over the rules, from the last to the first.
abbrev pub swap_head : Rule → List Rule → List Rule
swap_head r [] = r ∷ []
swap_head r (next ∷ rest) =
    if ltb_ℤ next.priority r.priority then next ∷ r ∷ rest else r ∷ next ∷ rest

unfoldable pub bubble : List Rule → List Rule
bubble [] = []
bubble (r ∷ rs) = swap_head r (bubble rs)

unfoldable pub add_rule : Rule → List Rule → List Rule
add_rule r rules = bubble (rules ++ r ∷ [])

abbrev pub any_value : (Bytes → Bool) → List Bytes → Bool
any_value p [] = false
any_value p (v ∷ vs) = p v || any_value p vs

abbrev pub regex_matches : Option (Bytes → Bool) → Bytes → Bool
regex_matches none path = false
regex_matches (some re) path = re path

-- A header condition is a name and a value with a colon between them.
abbrev pub header_matches : Library → Context → Option (Bytes × Bytes) → Bool
header_matches lib ctx none = false
header_matches lib ctx (some (name, value)) =
    same_bytes (ctx.header (lib.trim_space name)) (lib.trim_space value)

abbrev pub values_of : Bytes → List (Bytes × List Bytes) → Option (List Bytes)
values_of name [] = none
values_of name ((k, vs) ∷ rest) =
    let later = values_of name rest in if same_bytes k name then some vs else later

-- A parameter that the query has must have the value, if one is given; else the whole condition must
-- be somewhere in the query.
abbrev pub param_matches : Library → Context → Bytes → Bytes → (Bytes → Bool) → Bool
param_matches lib ctx qp name good = elim (values_of name (lib.parse_query ctx.query)) [
  | none ↦ includes_bytes ctx.query qp
  | some vs ↦ any_value good vs
]

abbrev pub param_present : Library → Context → Bytes → Bool
param_present lib ctx qp = elim (values_of qp (lib.parse_query ctx.query)) [
  | none ↦ includes_bytes ctx.query qp
  | some vs ↦ true
]

abbrev pub query_matches : Library → Context → Bytes → Option (Bytes × Bytes) → Bool
query_matches lib ctx qp none = param_present lib ctx qp
query_matches lib ctx qp (some (name, value)) =
    param_matches lib ctx qp name (λ v. same_bytes v value)

abbrev pub larger_than : Context → Option ℤ → Bool
larger_than ctx none = false
larger_than ctx (some max) = ltb_ℤ max ctx.body_size

abbrev pub ip_matches : Library → Context → Option Bytes → Bool
ip_matches lib ctx none = false
ip_matches lib ctx (some ip) = lib.ip_equal ip ctx.remote_ip

abbrev pub scheme_matches : Context → Bytes → Bool
scheme_matches ctx s =
    (same_bytes s (bytes "https") && ctx.tls) || (same_bytes s (bytes "http") && not ctx.tls)

-- Whether one value of a condition matches.
unfoldable pub value_matches : Library → Context → ConditionType → Bytes → Bool
value_matches lib ctx cond_method v = lib.equal_fold v ctx.method
value_matches lib ctx cond_path v = same_bytes v ctx.path
value_matches lib ctx cond_path_prefix v = has_prefix ctx.path v
value_matches lib ctx cond_path_regex v = regex_matches (lib.compile v) ctx.path
value_matches lib ctx cond_host v = lib.equal_fold v ctx.host
value_matches lib ctx cond_header v = header_matches lib ctx (cut_at b':' v)
value_matches lib ctx cond_query_param v = query_matches lib ctx v (cut_at b'=' v)
value_matches lib ctx cond_body_size v = larger_than ctx (lib.parse_int v)
value_matches lib ctx cond_ip v = ip_matches lib ctx (lib.parse_ip v)
value_matches lib ctx cond_ip_range v = regex_matches (lib.parse_cidr v) ctx.remote_ip
value_matches lib ctx cond_scheme v = scheme_matches ctx v
value_matches lib ctx cond_other v = false

unfoldable pub matches_condition : Library → Context → Condition → Bool
matches_condition lib ctx c =
    let result = any_value (value_matches lib ctx c.type) c.values in
    if c.negate then not result else result

unfoldable pub matches_conditions : Library → Context → List Condition → Bool
matches_conditions lib ctx [] = true
matches_conditions lib ctx (c ∷ cs) = matches_condition lib ctx c && matches_conditions lib ctx cs

unfoldable pub matches_exclusions : Library → Context → List Exclusion → Bool
matches_exclusions lib ctx [] = false
matches_exclusions lib ctx (x ∷ xs) =
    matches_condition lib ctx (record { type = x.type; values = x.values; negate = false })
    || matches_exclusions lib ctx xs

-- The tests of the loop that do not `continue`.
unfoldable pub rule_applies : Library → Context → Rule → Bool
rule_applies lib ctx r =
    same_bytes r.phase ctx.phase
    && matches_conditions lib ctx r.conditions
    && not (matches_exclusions lib ctx r.exclusions)

-- The loop: what a rule that applies does, with the loop over the rules that follow.
abbrev pub apply_mode :
    Rule
    → Decision
    → Decision
    → Option Rule
    → (Decision → Option Rule → Decision × Option Rule)
    → Decision × Option Rule
apply_mode r deny result matched next = (deny, some r)
apply_mode r observe result matched next = next observe (some r)
apply_mode r allow observe matched next = next allow (some r)
apply_mode r allow allow matched next = next allow matched
apply_mode r allow deny matched next = next deny matched

unfoldable pub evaluate_from :
    Library → Context → List Rule → Decision → Option Rule → Decision × Option Rule
evaluate_from lib ctx [] result matched = (result, matched)
evaluate_from lib ctx (r ∷ rs) result matched = elim (rule_applies lib ctx r) [
  | true ↦ apply_mode r r.mode result matched (evaluate_from lib ctx rs)
  | false ↦ evaluate_from lib ctx rs result matched
]

abbrev pub evaluate_rule : Library → Context → List Rule → Decision × Option Rule
evaluate_rule lib ctx rules = evaluate_from lib ctx rules allow none

abbrev pub evaluate : Library → Context → List Rule → Decision
evaluate lib ctx rules = (evaluate_rule lib ctx rules).0

-- What an HTTP handler does: it answers 403 with the name of a rule, or goes on with a header or none.
pub data Handled : Type 0 where
  forbidden : Bytes → Handled
  passes : Option Bytes → Handled

-- The middleware, of a request's context.
unfoldable pub enforce : Library → Context → List Rule → Handled
enforce lib ctx rules = elim (evaluate lib ctx rules) [
  | deny ↦ forbidden (bytes "policy")
  | observe ↦ passes (some (bytes "true"))
  | allow ↦ passes none
]
