-- ===== src/Prelude/Lists.antt =====
-- Lists measured by native numbers, searched and filtered by Boolean tests.
use Prim.Native.Nat.{ℕ, zero, suc, ◌+◌, ◌-◌, ◌≤◌}
use mathlib.Core.Path.{◌≡◌, ap, subst, ◌∙◌}
use mathlib.Core.Bool.{Bool}
use mathlib.Core.List.{List, [], ◌∷◌, ◌++◌}
use mathlib.Core.Option.{Option, none, some}
use mathlib.Core.Logic.{inl, inr}
use native.Mathlib.Omega.{arith}
use package.go_php.Prelude.Tests.{if◌then◌else◌, Bool-cases, leb}

module _ {ℓ} {A : Type ℓ} where
  abbrev pub length : List A → ℕ
  length [] = 0
  length (x ∷ xs) = suc (length xs)

  abbrev pub drop : ℕ → List A → List A
  drop zero xs = xs
  drop (suc n) [] = []
  drop (suc n) (x ∷ xs) = drop n xs

  abbrev pub filter : (A → Bool) → List A → List A
  filter p [] = []
  filter p (x ∷ xs) = let rest = filter p xs in if p x then x ∷ rest else rest

  abbrev pub find : (A → Bool) → List A → Option A
  find p [] = none
  find p (x ∷ xs) = let rest = find p xs in if p x then some x else rest

  abbrev pub All {κ} : (A → Type κ) → List A → Type κ
  All P [] = Unit
  All P (x ∷ xs) = P x × All P xs

  pub length-append : (xs ys : List A) → length (xs ++ ys) ≡ length xs + length ys
  length-append [] ys = omega arith
  length-append (x ∷ xs) ys = omega (arith, length-append xs ys)

  pub length-drop : (n : ℕ) (xs : List A) → length (drop n xs) ≡ length xs - n
  length-drop zero xs = omega arith
  length-drop (suc n) [] = omega arith
  length-drop (suc n) (x ∷ xs) = omega (arith, length-drop n xs)

  -- The last `n` entries, or all if there are fewer.
  abbrev pub last_n : ℕ → List A → List A
  last_n n xs = drop (length xs - n) xs

  pub length-last_n-le : (n : ℕ) (xs : List A) → length (last_n n xs) ≤ n
  length-last_n-le n xs = omega (arith, length-drop (length xs - n) xs)

  pub last_n_of_le : (n : ℕ) (xs : List A) → length xs ≤ n → last_n n xs ≡ xs
  last_n_of_le n xs h = let e : length xs - n ≡ 0 = omega arith in rw e

  drop-drop-append :
      (k m : ℕ) (xs ys : List A)
      → k ≤ length xs
      → drop m (drop k xs ++ ys) ≡ drop (k + m) (xs ++ ys)
  drop-drop-append zero m xs ys h = let e : 0 + m ≡ m = omega arith in rw e
  drop-drop-append (suc k) m [] ys h = absurd (omega arith)
  drop-drop-append (suc k) m (x ∷ xs) ys h =
      let e : suc k + m ≡ suc (k + m) = omega arith in
      rw e (drop-drop-append k m xs ys (omega arith))

  -- Dropping early what is dropped in the end changes nothing.
  pub last_n-drop-append :
      (n k : ℕ) (xs ys : List A)
      → k ≤ length xs
      → k + n ≤ length xs + length ys
      → last_n n (drop k xs ++ ys) ≡ last_n n (xs ++ ys)
  last_n-drop-append n k xs ys h fits =
      let e : k + (length (drop k xs ++ ys) - n) ≡ length (xs ++ ys) - n =
        omega (arith, length-append (drop k xs) ys, length-drop k xs, length-append xs ys) in
      drop-drop-append k (length (drop k xs ++ ys) - n) xs ys h ∙ ap (λ j. drop j (xs ++ ys)) e

  -- What holds of all entries holds of the one that is found.
  pub find-All {κ} :
      (P : A → Type κ) (p : A → Bool) (xs : List A) (a : A) → All P xs → find p xs ≡ some a → P a
  find-All P p [] a h e = cc
  find-All P p (x ∷ xs) a h e = elim (Bool-cases (p x)) [
    | inl hit ↦ let found : some x ≡ some a = rw hit at e in subst P (cc) h.0
    | inr miss ↦ find-All P p xs a h.1 (rw miss at e)
  ]

  -- The last entries of the last entries and what follows them.
  pub last_n-last_n_append :
      (n : ℕ) (xs ys : List A) → last_n n (last_n n xs ++ ys) ≡ last_n n (xs ++ ys)
  last_n-last_n_append n xs ys = elim (Bool-cases (leb n (length xs))) [
    | inl long ↦ last_n-drop-append n (length xs - n) xs ys (omega arith) (ground arith)
    | inr short ↦ let all : length xs - n ≡ 0 = ground arith in rw all
  ]
