-- ===== src/Gateway/Policy/Enforced.antt =====
-- Which requests a mode forbids.
use go_php.Prelude.{
  ◌≡◌, ◌≢◌, refl, Option, List, [], ◌∷◌, ◌++◌, Bool, true, false, ◌&&◌, ◌||◌, filter, All, ◌∙◌, ap,
  sym, arith,
}
use go_php.Gateway.Policy.{
  Library, Context, Decision, allow, deny, observe, Rule, rule_applies, evaluate_rule, Handled,
  forbidden, passes,
}
use go_php.Gateway.Policy.Mode.{
  Mode, mode_off, mode_observe, mode_balanced, mode_strict, in_mode, mode_middleware,
}
use go_php.Gateway.Policy.Verdict.{
  Settled, quiet, observed, overruled, Verdict, denied, settled, evaluate_rule-Verdict,
}

abbrev pub is_deny : Decision → Bool
is_deny deny = true
is_deny allow = false
is_deny observe = false

abbrev pub any_denies : List Rule → Bool
any_denies [] = false
any_denies (r ∷ rs) = is_deny r.mode || any_denies rs

abbrev pub is_forbidden : Handled → Bool
is_forbidden (forbidden name) = true
is_forbidden (passes header) = false

-- The modes in which a denial is enforced.
abbrev pub enforces : Mode → Bool
enforces mode_off = false
enforces mode_observe = false
enforces mode_balanced = true
enforces mode_strict = true

not_deny : (d : Decision) → d ≢ deny → is_deny d ≡ false
not_deny allow h = refl
not_deny observe h = refl
not_deny deny h = absurd (h refl)

none_denies : (rules : List Rule) → All (λ s. s.mode ≢ deny) rules → any_denies rules ≡ false
none_denies [] h = refl
none_denies (r ∷ rs) h = rw (not_deny r.mode h.0) (none_denies rs h.1)

any_denies_first :
    (before : List Rule) (r : Rule) (after : List Rule)
    → r.mode ≡ deny
    → any_denies (before ++ r ∷ after) ≡ true
any_denies_first [] r after e = let d : is_deny r.mode ≡ true = ap is_deny e in rw d refl
any_denies_first (s ∷ before) r after e = ground (arith, any_denies_first before r after e)

Settled-not_deny :
    (rules : List Rule) (d : Decision) (named : Option Rule)
    → Settled rules d named
    → is_deny d ≡ false
Settled-not_deny _ _ _ (quiet rules h) = refl
Settled-not_deny _ _ _ (observed before r e) = refl
Settled-not_deny _ _ _ (overruled before r s after e f h) = refl

Verdict-any_denies :
    (rules : List Rule) (d : Decision) (named : Option Rule)
    → Verdict rules d named
    → is_deny d ≡ any_denies rules
Verdict-any_denies _ _ _ (denied before r after h e) = sym (any_denies_first before r after e)
Verdict-any_denies _ _ _ (settled rules d named h s) =
    Settled-not_deny rules d named s ∙ sym (none_denies rules h)

in_mode-is_forbidden :
    (m : Mode) (d : Decision) (named : Option Rule)
    → is_forbidden (in_mode m (d, named)) ≡ (enforces m && is_deny d)
in_mode-is_forbidden mode_off d named = refl
in_mode-is_forbidden mode_observe allow named = refl
in_mode-is_forbidden mode_observe deny named = refl
in_mode-is_forbidden mode_observe observe named = refl
in_mode-is_forbidden mode_balanced allow named = refl
in_mode-is_forbidden mode_balanced deny named = refl
in_mode-is_forbidden mode_balanced observe named = refl
in_mode-is_forbidden mode_strict allow named = refl
in_mode-is_forbidden mode_strict deny named = refl
in_mode-is_forbidden mode_strict observe named = refl

-- Whatever the rules, the mode and the context: the middleware forbids a request exactly if the mode
-- is balanced or strict and one of the rules that apply denies.
pub mode_middleware-is_forbidden :
    (lib : Library) (m : Mode) (ctx : Context) (rules : List Rule)
    → is_forbidden (mode_middleware lib m ctx rules)
      ≡ (enforces m && any_denies (filter (rule_applies lib ctx) rules))
unfolding mode_middleware
mode_middleware-is_forbidden lib m ctx rules =
    let v = evaluate_rule lib ctx rules in
    in_mode-is_forbidden m v.0 v.1
    ∙ ap (λ b. enforces m && b)
        (Verdict-any_denies (filter (rule_applies lib ctx) rules) v.0 v.1
          (evaluate_rule-Verdict lib ctx rules))
