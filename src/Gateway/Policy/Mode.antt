-- ===== src/Gateway/Policy/Mode.antt =====
-- internal/policy/mode.go: the modes, their rules, and the middleware that enforces them.
use go_php.Prelude.{Option, none, some, List, [], ◌∷◌, ◌++◌, false, ◌||◌, if◌then◌else◌}
use go_php.Prelude.Int.{pos}
use go_php.Prelude.Bytes.{Bytes, bytes, same_bytes, is_empty}
use go_php.Gateway.Policy.{
  Library, Decision, allow, deny, observe, Context, Rule, Condition, ConditionType,
  cond_path_prefix, cond_method, cond_path_regex, phase_request, add_rule, evaluate_rule, Handled,
  forbidden, passes,
}

pub data Mode : Type 0 where
  mode_off mode_observe mode_balanced mode_strict : Mode

unfoldable pub parse_mode : Bytes → Option Mode
parse_mode s =
    if same_bytes s (bytes "off")
    then some mode_off
    else if same_bytes s (bytes "observe")
    then some mode_observe
    else if same_bytes s (bytes "balanced") || is_empty s
    then some mode_balanced
    else if same_bytes s (bytes "strict")
    then some mode_strict
    else none

abbrev pub one_condition : ConditionType → List Bytes → List Condition
one_condition t vs = record { type = t; values = vs; negate = false } ∷ []

abbrev pub deny_vcs_metadata : Decision → Rule
deny_vcs_metadata d = record {
  name = bytes "deny-vcs-metadata";
  phase = phase_request;
  mode = d;
  priority = pos 10;
  conditions =
      one_condition cond_path_prefix
        (bytes "/.git/" ∷ bytes "/.svn/" ∷ bytes "/.hg/" ∷ bytes "/.bzr/" ∷ []);
  exclusions = [];
}

abbrev pub deny_dotenv : Decision → Rule
deny_dotenv d = record {
  name = bytes "deny-dotenv";
  phase = phase_request;
  mode = d;
  priority = pos 10;
  conditions = one_condition cond_path_prefix (bytes "/.env" ∷ []);
  exclusions = [];
}

abbrev pub deny_trace_methods : Decision → Rule
deny_trace_methods d = record {
  name = bytes "deny-trace-methods";
  phase = phase_request;
  mode = d;
  priority = pos 20;
  conditions = one_condition cond_method (bytes "TRACE" ∷ bytes "TRACK" ∷ []);
  exclusions = [];
}

abbrev pub deny_connect_method : Rule
deny_connect_method = record {
  name = bytes "deny-connect-method";
  phase = phase_request;
  mode = deny;
  priority = pos 20;
  conditions = one_condition cond_method (bytes "CONNECT" ∷ []);
  exclusions = [];
}

-- The pattern is \.(bak|swp|orig|rej|save|old)$
abbrev pub editor_artifacts : Bytes
editor_artifacts = 92 ∷ bytes ".(bak|swp|orig|rej|save|old)$"

abbrev pub deny_editor_artifacts : Rule
deny_editor_artifacts = record {
  name = bytes "deny-editor-artifacts";
  phase = phase_request;
  mode = deny;
  priority = pos 30;
  conditions = one_condition cond_path_regex (editor_artifacts ∷ []);
  exclusions = [];
}

abbrev pub shared_rules : Decision → List Rule
shared_rules d = deny_vcs_metadata d ∷ deny_dotenv d ∷ deny_trace_methods d ∷ []

unfoldable pub default_rules : Mode → List Rule
default_rules mode_off = []
default_rules mode_observe = shared_rules observe
default_rules mode_balanced = shared_rules deny
default_rules mode_strict = shared_rules deny ++ deny_connect_method ∷ deny_editor_artifacts ∷ []

-- The rules of an engine, with more that are added one after the other.
unfoldable pub add_rules : List Rule → List Rule → List Rule
add_rules rules [] = rules
add_rules rules (r ∷ rs) = add_rules (add_rule r rules) rs

abbrev pub new_engine_for_mode : Mode → List Rule
new_engine_for_mode m = add_rules [] (default_rules m)

abbrev pub rule_name : Option Rule → Bytes
rule_name none = bytes "unknown"
rule_name (some r) = r.name

-- A denial is not enforced in observe mode.
abbrev pub enforced : Mode → Decision → Decision
enforced mode_observe deny = observe
enforced m d = d

abbrev pub answer : Decision → Bytes → Handled
answer deny name = forbidden name
answer observe name = passes (some name)
answer allow name = passes none

abbrev pub in_mode : Mode → Decision × Option Rule → Handled
in_mode mode_off v = passes none
in_mode m (d, r) = answer (enforced m d) (rule_name r)

unfoldable pub mode_middleware : Library → Mode → Context → List Rule → Handled
mode_middleware lib m ctx rules = in_mode m (evaluate_rule lib ctx rules)
