-- ===== src/Prelude/Names.antt =====
-- Lists of names: `includes` and `filter(e => e !== name)` of the sources, and lists without repeats.
use mathlib.Core.Bool.{Bool, true, false, ◌||◌, ◌&&◌, and-eq-true_iff}
use mathlib.Core.Path.{◌≡◌, refl}
use mathlib.Core.List.{List, [], ◌∷◌, ◌++◌}
use native.Mathlib.Omega.{arith}
use text.Mathlib.Text.{◌==◌}
use text.Mathlib.TextEquality.{eq_iff}
use Prim.Native.String.{String}
use Prim.Native.Nat.{◌≤◌, ◌<◌}
use package.go_php.Prelude.Lists.{length}
use package.go_php.Prelude.Tests.{if◌then◌else◌}

unfoldable pub contains : String → List String → Bool
contains n [] = false
contains n (x ∷ xs) = x == n || contains n xs

unfoldable pub remove : String → List String → List String
remove n [] = []
remove n (x ∷ xs) = let rest = remove n xs in if x == n then rest else x ∷ rest

-- No name occurs twice.
abbrev pub Distinct : List String → Type 0
Distinct [] = Unit
Distinct (x ∷ xs) = (contains x xs ≡ false) × Distinct xs

pub contains-remove :
    (n k : String) (xs : List String)
    → contains k (remove n xs) ≡ (if n == k then false else contains k xs)
unfolding contains remove
contains-remove n k [] = ground arith
contains-remove n k (x ∷ xs) =
    ground (arith, contains-remove n k xs, eq_iff x n, eq_iff x k, eq_iff n k)

pub contains-append_one :
    (n k : String) (xs : List String)
    → contains k (xs ++ n ∷ []) ≡ (if n == k then true else contains k xs)
unfolding contains
contains-append_one n k [] = ground arith
contains-append_one n k (x ∷ xs) = ground (arith, contains-append_one n k xs)

pub remove-Distinct : (n : String) (xs : List String) → Distinct xs → Distinct (remove n xs)
unfolding remove
remove-Distinct n [] h = tt
remove-Distinct n (x ∷ xs) h =
    ground (arith, contains-remove n x xs, remove-Distinct n xs h.1, eq_iff x n)

pub append_one-Distinct :
    (n : String) (xs : List String) → contains n xs ≡ false → Distinct xs → Distinct (xs ++ n ∷ [])
unfolding contains
append_one-Distinct n [] h k = ground arith
append_one-Distinct n (x ∷ xs) h k =
    ground (arith, contains-append_one n x xs, append_one-Distinct n xs, eq_iff x n, eq_iff n x)

pub remove_of_absent : (n : String) (xs : List String) → contains n xs ≡ false → remove n xs ≡ xs
unfolding contains remove
remove_of_absent n [] h = refl
remove_of_absent n (x ∷ xs) h = ground (arith, remove_of_absent n xs)

pub remove-append_one :
    (n : String) (xs : List String) → contains n xs ≡ false → remove n (xs ++ n ∷ []) ≡ xs
unfolding contains remove
remove-append_one n [] h = ground (arith, eq_iff n n)
remove-append_one n (x ∷ xs) h = ground (arith, remove-append_one n xs)

-- Every name of `xs` stands in `ys`.
abbrev pub Within : List String → List String → Type 0
Within xs ys = (k : String) → contains k xs ≡ true → contains k ys ≡ true

length-remove-le : (n : String) (xs : List String) → length (remove n xs) ≤ length xs
unfolding remove
length-remove-le n [] = omega arith
length-remove-le n (x ∷ xs) = ground (arith, length-remove-le n xs)

head_contains : (x : String) (xs : List String) → contains x (x ∷ xs) ≡ true
unfolding contains
head_contains x xs = ground (arith, eq_iff x x)

length-remove-lt :
    (n : String) (xs : List String) → contains n xs ≡ true → length (remove n xs) < length xs
unfolding contains remove
length-remove-lt n [] h = cc
length-remove-lt n (x ∷ xs) h = ground (arith, length-remove-lt n xs, length-remove-le n xs)

Within-remove :
    (x : String) (xs ys : List String)
    → contains x xs ≡ false
    → Within (x ∷ xs) ys
    → Within xs (remove x ys)
unfolding contains
Within-remove x xs ys absent w k h = ground (arith, contains-remove x k ys, w k, eq_iff x k)

-- Distinct names of a list are at most as many as the list has.
pub length-le_of_Within : (xs ys : List String) → Distinct xs → Within xs ys → length xs ≤ length ys
length-le_of_Within [] ys d w = omega arith
length-le_of_Within (x ∷ xs) ys d w = omega (
  arith,
  length-remove-lt x ys (w x (head_contains x xs)),
  length-le_of_Within xs (remove x ys) d.1 (Within-remove x xs ys d.0 w),
)

-- Tests of the two predicates, for concrete lists.
abbrev pub distinct_test : List String → Bool
distinct_test [] = true
distinct_test (x ∷ xs) = (if contains x xs then false else true) && distinct_test xs

pub distinct_test_sound : (xs : List String) → distinct_test xs ≡ true → Distinct xs
distinct_test_sound [] h = tt
distinct_test_sound (x ∷ xs) h = ground (arith, distinct_test_sound xs)

abbrev pub within_test : List String → List String → Bool
within_test [] ys = true
within_test (x ∷ xs) ys = contains x ys && within_test xs ys

pub within_test_sound : (xs ys : List String) → within_test xs ys ≡ true → Within xs ys
unfolding contains
within_test_sound [] ys h k m = cc
within_test_sound (x ∷ xs) ys h k m =
    let (here, later) = (and-eq-true_iff (contains x ys) (within_test xs ys)).0 h in
    let among = within_test_sound xs ys later k in ground (arith, among, here, eq_iff x k)
