-- ===== src/Gateway/Policy/Order.antt =====
-- The order of the rules: by priority, and as they were added where priorities are the same.
use go_php.Prelude.{
  ◌≡◌, refl, List, [], ◌∷◌, ◌++◌, Bool, true, false, not, ◌&&◌, arith, filter, All, inl, inr,
  Bool-cases, ◌∙◌, ap, sym, if◌then◌else◌,
}
use mathlib.Core.List.{append_assoc, append-nil}
use mathlib.Core.Path.{subst}
use go_php.Prelude.Int.{ℤ, ltb_ℤ}
use go_php.Gateway.Policy.{Rule, swap_head, bubble, add_rule}
use go_php.Gateway.Policy.Mode.{add_rules}

-- A priority that is not larger.
abbrev pub UpTo : Rule → Rule → Type 0
UpTo r s = ltb_ℤ s.priority r.priority ≡ false

abbrev pub Sorted : List Rule → Type 0
Sorted [] = Unit
Sorted (r ∷ rs) = All (UpTo r) rs × Sorted rs

abbrev pub of_priority : ℤ → Rule → Bool
of_priority p r = not (ltb_ℤ r.priority p) && not (ltb_ℤ p r.priority)

-- Before the first rule with a larger priority.
abbrev pub inserted : Rule → List Rule → List Rule
inserted r [] = r ∷ []
inserted r (s ∷ rest) =
    let later = inserted r rest in if ltb_ℤ r.priority s.priority then r ∷ s ∷ rest else s ∷ later

UpTo-trans : (r s t : Rule) → UpTo r s → UpTo s t → UpTo r t
UpTo-trans r s t h k = ground arith

All-UpTo : (r s : Rule) (rest : List Rule) → UpTo r s → All (UpTo s) rest → All (UpTo r) rest
All-UpTo r s [] h k = tt
All-UpTo r s (t ∷ rest) h k = (UpTo-trans r s t h k.0, All-UpTo r s rest h k.1)

inserted-UpTo :
    (r s : Rule) (rest : List Rule) → UpTo s r → All (UpTo s) rest → All (UpTo s) (inserted r rest)
inserted-UpTo r s [] h k = (h, tt)
inserted-UpTo r s (t ∷ rest) h k = elim (Bool-cases (ltb_ℤ r.priority t.priority)) [
  | inl less ↦ rw less (h, k)
  | inr more ↦ rw more (k.0, inserted-UpTo r s rest h k.1)
]

less-UpTo : (r s : Rule) → ltb_ℤ r.priority s.priority ≡ true → UpTo r s
less-UpTo r s h = ground arith

inserted-Sorted : (r : Rule) (rules : List Rule) → Sorted rules → Sorted (inserted r rules)
inserted-Sorted r [] h = (tt, tt)
inserted-Sorted r (s ∷ rest) h = elim (Bool-cases (ltb_ℤ r.priority s.priority)) [
  | inl less ↦ let first = less-UpTo r s less in rw less ((first, All-UpTo r s rest first h.0), h)
  | inr more ↦ rw more (inserted-UpTo r s rest more h.0, inserted-Sorted r rest h.1)
]

swap_head-inserted :
    (r s : Rule) (rest : List Rule)
    → All (UpTo s) rest
    → swap_head s (inserted r rest) ≡ inserted r (s ∷ rest)
swap_head-inserted r s [] h = refl
swap_head-inserted r s (t ∷ rest) h = elim (Bool-cases (ltb_ℤ r.priority t.priority)) [
  | inl less ↦ rw less refl
  | inr more ↦
      let kept : ltb_ℤ t.priority s.priority ≡ false = h.0 in
      let after : ltb_ℤ r.priority s.priority ≡ false = UpTo-trans s t r h.0 more in
      rw (more, kept, after) refl
]

bubble-inserted :
    (r : Rule) (rules : List Rule) → Sorted rules → bubble (rules ++ r ∷ []) ≡ inserted r rules
unfolding bubble
bubble-inserted r [] h = refl
bubble-inserted r (s ∷ rest) h =
    ap (swap_head s) (bubble-inserted r rest h.1) ∙ swap_head-inserted r s rest h.0

-- None of the rules from a larger priority on has this one.
none_of_priority :
    (p : ℤ) (r : Rule) (rest : List Rule)
    → ltb_ℤ p r.priority ≡ true
    → All (UpTo r) rest
    → filter (of_priority p) rest ≡ []
none_of_priority p r [] h k = refl
none_of_priority p r (s ∷ rest) h k =
    let other : of_priority p s ≡ false =
      (let first : ltb_ℤ s.priority r.priority ≡ false = k.0 in ground arith) in
    rw other (none_of_priority p r rest h k.1)

filter-inserted :
    (p : ℤ) (r : Rule) (rules : List Rule)
    → Sorted rules
    → filter (of_priority p) (inserted r rules)
      ≡ filter (of_priority p) rules ++ filter (of_priority p) (r ∷ [])
filter-inserted p r [] h = refl
filter-inserted p r (s ∷ rest) h = elim (Bool-cases (ltb_ℤ r.priority s.priority)) [
  | inl less ↦ elim (Bool-cases (of_priority p r)) [
    | inl ours ↦
        let above : ltb_ℤ p s.priority ≡ true = ground arith in
        let other : of_priority p s ≡ false = ground arith in
        rw (less, ours, other, none_of_priority p s rest above h.0) refl
    | inr not_ours ↦ rw (less, not_ours) (sym (append-nil (filter (of_priority p) (s ∷ rest))))
  ]
  | inr more ↦ elim (Bool-cases (of_priority p s)) [
    | inl its ↦ rw (more, its) (ap (λ l. s ∷ l) (filter-inserted p r rest h.1))
    | inr not_its ↦ rw (more, not_its) (filter-inserted p r rest h.1)
  ]
]

filter-append :
    (p : ℤ) (xs ys : List Rule)
    → filter (of_priority p) (xs ++ ys) ≡ filter (of_priority p) xs ++ filter (of_priority p) ys
filter-append p [] ys = refl
filter-append p (x ∷ xs) ys = elim (Bool-cases (of_priority p x)) [
  | inl its ↦ rw its (ap (λ l. x ∷ l) (filter-append p xs ys))
  | inr other ↦ rw other (filter-append p xs ys)
]

-- The rules are in the order of priority, and those of each priority are these, in their order.
abbrev pub InOrderOf : List Rule → List Rule → Type 0
InOrderOf added rules =
    Sorted rules × ((p : ℤ) → filter (of_priority p) rules ≡ filter (of_priority p) added)

add_rule-InOrderOf :
    (added rules : List Rule) (r : Rule)
    → InOrderOf added rules
    → InOrderOf (added ++ r ∷ []) (add_rule r rules)
unfolding add_rule
add_rule-InOrderOf added rules r (h, k) =
    subst (InOrderOf (added ++ r ∷ [])) (sym (bubble-inserted r rules h)) (
      inserted-Sorted r rules h,
      λ p.
          filter-inserted p r rules h
          ∙ ap (λ l. l ++ filter (of_priority p) (r ∷ [])) (k p)
          ∙ sym (filter-append p added (r ∷ [])),
    )

add_rules-InOrderOf :
    (rs added rules : List Rule)
    → InOrderOf added rules
    → InOrderOf (added ++ rs) (add_rules rules rs)
unfolding add_rules
add_rules-InOrderOf [] added rules h = subst (λ l. InOrderOf l rules) (sym (append-nil added)) h
add_rules-InOrderOf (r ∷ rs) added rules h =
    subst (λ l. InOrderOf l (add_rules (add_rule r rules) rs)) (append_assoc added (r ∷ []) rs)
      (add_rules-InOrderOf rs (added ++ r ∷ []) (add_rule r rules)
        (add_rule-InOrderOf added rules r h))

-- Whatever rules are added to a new engine, one after the other: its rules are in the order of their
-- priorities, and for each priority they are those that were added with it, in the order in which they
-- were added.
pub add_rules-InOrder : (rs : List Rule) → InOrderOf rs (add_rules [] rs)
add_rules-InOrder rs = add_rules-InOrderOf rs [] [] (tt, λ p. refl)
