-- ===== src/Gateway/Policy/Verdict.antt =====
-- What the loop over the rules decides, read off the rules that apply.
use mathlib.Core.List.{append_assoc, append-nil}
use mathlib.Core.Path.{subst}
use go_php.Prelude.{
  ◌≡◌, ◌≢◌, refl, Option, none, some, List, [], ◌∷◌, ◌++◌, filter, All, inl, inr, Bool-cases, sym,
}
use go_php.Gateway.Policy.{
  Library, Context, Decision, allow, deny, observe, Rule, rule_applies, evaluate_from,
  evaluate_rule, apply_mode,
}

-- What rules decide of which none denies, with the rule that is named for it.
pub data Settled : List Rule → Decision → Option Rule → Type 0 where
  -- Only rules that allow.
  quiet : (rules : List Rule) → All (λ s. s.mode ≡ allow) rules → Settled rules allow none
  -- The last rule observes.
  observed :
      (before : List Rule) (r : Rule)
      → r.mode ≡ observe
      → Settled (before ++ r ∷ []) observe (some r)
  -- Only rules that allow follow the last that observes: the first of these.
  overruled :
      (before : List Rule) (r s : Rule) (after : List Rule)
      → r.mode ≡ observe
      → s.mode ≡ allow
      → All (λ t. t.mode ≡ allow) after
      → Settled (before ++ r ∷ s ∷ after) allow (some s)

-- The first rule that denies decides, else what the others settle.
pub data Verdict : List Rule → Decision → Option Rule → Type 0 where
  denied :
      (before : List Rule) (r : Rule) (after : List Rule)
      → All (λ s. s.mode ≢ deny) before
      → r.mode ≡ deny
      → Verdict (before ++ r ∷ after) deny (some r)
  settled :
      (rules : List Rule) (d : Decision) (named : Option Rule)
      → All (λ s. s.mode ≢ deny) rules
      → Settled rules d named
      → Verdict rules d named

module _ (P : Rule → Type 0) where
  All-append_one : (rules : List Rule) (r : Rule) → All P rules → P r → All P (rules ++ r ∷ [])
  All-append_one [] r h p = (p, tt)
  All-append_one (s ∷ rules) r h p = (h.0, All-append_one rules r h.1 p)

module _ (r : Rule) where
  -- What the loop goes on with after a rule that allows.
  allows :
      (done : List Rule) (d : Decision) (named : Option Rule)
      → r.mode ≡ allow
      → Settled done d named
      → (next : Decision → Option Rule → Decision × Option Rule)
      → (goal : Decision × Option Rule → Type 0)
      → ((e : Decision) (named : Option Rule)
          → Settled (done ++ r ∷ []) e named
          → goal (next e named))
      → goal (apply_mode r allow d named next)
  allows _ _ _ e (quiet done h) next goal k =
      k allow none (quiet (done ++ r ∷ []) (All-append_one (λ s. s.mode ≡ allow) done r h e))
  allows _ _ _ e (observed before s o) next goal k = k allow (some r) (
      subst (λ l. Settled l allow (some r)) (sym (append_assoc before (s ∷ []) (r ∷ [])))
        (overruled before s r [] o e tt))
  allows _ _ _ e (overruled before s t after o a h) next goal k = k allow (some t) (
      subst (λ l. Settled l allow (some t)) (sym (append_assoc before (s ∷ t ∷ after) (r ∷ [])))
        (overruled before s t (after ++ r ∷ []) o a
          (All-append_one (λ s. s.mode ≡ allow) after r h e)))

  applies_mode :
      (mode d : Decision) (done rest : List Rule) (named : Option Rule)
      → r.mode ≡ mode
      → All (λ s. s.mode ≢ deny) done
      → Settled done d named
      → (next : Decision → Option Rule → Decision × Option Rule)
      → ((e : Decision) (by : Option Rule)
          → All (λ s. s.mode ≢ deny) (done ++ r ∷ [])
          → Settled (done ++ r ∷ []) e by
          → Verdict (done ++ r ∷ rest) (next e by).0 (next e by).1)
      → let v = apply_mode r mode d named next in Verdict (done ++ r ∷ rest) v.0 v.1
  applies_mode deny d done rest named e no_deny s next k = denied done r rest no_deny e
  applies_mode observe d done rest named e no_deny s next k =
      k observe (some r) (All-append_one (λ s. s.mode ≢ deny) done r no_deny (λ f. absurd (cc)))
        (observed done r e)
  applies_mode allow d done rest named e no_deny s next k =
      let none_denies = All-append_one (λ s. s.mode ≢ deny) done r no_deny (λ f. absurd (cc)) in
      allows done d named e s next (λ v. Verdict (done ++ r ∷ rest) v.0 v.1)
        (λ e2 by t. k e2 by none_denies t)

module _ (lib : Library) (ctx : Context) where
  evaluate_from-Verdict :
      (rules done : List Rule) (d : Decision) (named : Option Rule)
      → All (λ s. s.mode ≢ deny) done
      → Settled done d named
      → let v = evaluate_from lib ctx rules d named in
        Verdict (done ++ filter (rule_applies lib ctx) rules) v.0 v.1
  unfolding evaluate_from
  evaluate_from-Verdict [] done d named no_deny s =
      subst (λ l. Verdict l d named) (sym (append-nil done)) (settled done d named no_deny s)
  evaluate_from-Verdict (r ∷ rs) done d named no_deny s =
      elim (Bool-cases (rule_applies lib ctx r)) [
        | inl ours ↦
            rw (ours, evaluate_from)
              (applies_mode r r.mode d done (filter (rule_applies lib ctx) rs) named refl no_deny s
                (evaluate_from lib ctx rs)
                (λ e by none_denies t.
                  let v = evaluate_from lib ctx rs e by in
                  subst (λ l. Verdict l v.0 v.1)
                    (append_assoc done (r ∷ []) (filter (rule_applies lib ctx) rs))
                    (evaluate_from-Verdict rs (done ++ r ∷ []) e by none_denies t)))
        | inr other ↦ rw (other, evaluate_from) (evaluate_from-Verdict rs done d named no_deny s)
      ]

-- Whatever the rules and the context, of the rules that apply to it: the first that denies decides, if
-- one does; else the request is observed if the last of them observes, and allowed if not, in the name
-- of the rule that allows right after the last that observes, if there is one.
pub evaluate_rule-Verdict :
    (lib : Library) (ctx : Context) (rules : List Rule)
    → let v = evaluate_rule lib ctx rules in Verdict (filter (rule_applies lib ctx) rules) v.0 v.1
evaluate_rule-Verdict lib ctx rules =
    evaluate_from-Verdict lib ctx rules [] allow none tt (quiet [] tt)
