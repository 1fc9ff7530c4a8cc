-- ===== src/Prelude/Text.antt =====
-- What the sources use of text: prefixes and substrings of native strings.
use Prim.Native.Char.{code}
use Prim.Native.String.{String}
use Prim.Native.Nat.{ℕ, zero, suc, ◌+◌}
use mathlib.Core.Path.{◌≡◌, refl, ap, ap₂, subst}
use mathlib.Core.Logic.{◌↔◌}
use text.Mathlib.TextEquality.{Char-path}
use mathlib.Core.Bool.{Bool, true, false, ◌&&◌, ◌||◌}
use native.Mathlib.Omega.{arith}
use package.go_php.Prelude.Tests.{◌==◌}

-- `s.startsWith(t)`
unfoldable pub starts_with : String → String → Bool
starts_with s String.[] = true
starts_with String.[] (String.◌∷◌ c t) = false
starts_with (String.◌∷◌ d s) (String.◌∷◌ c t) = code d == code c && starts_with s t

-- `s.includes(t)`
unfoldable pub includes : String → String → Bool
unfolding starts_with
includes String.[] t = starts_with String.[] t
includes (String.◌∷◌ c s) t = starts_with (String.◌∷◌ c s) t || includes s t

-- One of two texts continues the other.
unfoldable pub comparable : String → String → Bool
comparable String.[] t = true
comparable (String.◌∷◌ c s) String.[] = true
comparable (String.◌∷◌ c s) (String.◌∷◌ d t) = code c == code d && comparable s t

-- Two prefixes of one text continue one another.
pub starts_with-comparable :
    (s t u : String) → starts_with s t ≡ true → starts_with s u ≡ true → comparable t u ≡ true
unfolding starts_with comparable
starts_with-comparable s String.[] u h k = refl
starts_with-comparable s (String.◌∷◌ c t) String.[] h k = refl
starts_with-comparable String.[] (String.◌∷◌ c t) (String.◌∷◌ d u) h k = cc
starts_with-comparable (String.◌∷◌ e s) (String.◌∷◌ c t) (String.◌∷◌ d u) h k =
    ground (arith, starts_with-comparable s t u)

-- Concatenation by clauses, so that a literal on the left is consumed before a variable.
infixr 65 ◌++◌
abbrev pub ◌++◌ : String → String → String
String.[] ++ t = t
String.◌∷◌ c s ++ t = String.◌∷◌ c (s ++ t)

-- s == t
unfoldable pub same : String → String → Bool
same String.[] String.[] = true
same String.[] (String.◌∷◌ d t) = false
same (String.◌∷◌ c s) String.[] = false
same (String.◌∷◌ c s) (String.◌∷◌ d t) = code c == code d && same s t

-- strings.HasSuffix(s, t)
unfoldable pub has_suffix : String → String → Bool
unfolding same
has_suffix String.[] t = same String.[] t
has_suffix (String.◌∷◌ c s) t = same (String.◌∷◌ c s) t || has_suffix s t

abbrev pub text_length : String → ℕ
text_length String.[] = 0
text_length (String.◌∷◌ c s) = suc (text_length s)

-- s[n:] and s[:n]
abbrev pub text_drop : ℕ → String → String
text_drop zero s = s
text_drop (suc n) String.[] = ""
text_drop (suc n) (String.◌∷◌ c s) = text_drop n s

abbrev pub text_take : ℕ → String → String
text_take zero s = ""
text_take (suc n) String.[] = ""
text_take (suc n) (String.◌∷◌ c s) = String.◌∷◌ c (text_take n s)

same_refl : (s : String) → same s s ≡ true
unfolding same
same_refl String.[] = refl
same_refl (String.◌∷◌ c s) = ground (arith, same_refl s)

same_sound : (s t : String) → same s t ≡ true → s ≡ t
unfolding same
same_sound String.[] String.[] h = refl
same_sound String.[] (String.◌∷◌ d t) h = cc
same_sound (String.◌∷◌ c s) String.[] h = cc
same_sound (String.◌∷◌ c s) (String.◌∷◌ d t) h =
    let heads : code c ≡ code d = ground arith in
    let tails : same s t ≡ true = ground arith in
    ap₂ String.◌∷◌ (Char-path c d heads) (same_sound s t tails)

pub same_iff : (s t : String) → (same s t ≡ true) ↔ (s ≡ t)
same_iff s t = (same_sound s t, λ e. subst (λ u. same s u ≡ true) e (same_refl s))

pub text_length-++ : (s t : String) → text_length (s ++ t) ≡ text_length s + text_length t
text_length-++ String.[] t = omega arith
text_length-++ (String.◌∷◌ c s) t = omega (arith, text_length-++ s t)

pub text_take-++ : (s t : String) → text_take (text_length s) (s ++ t) ≡ s
text_take-++ String.[] t = refl
text_take-++ (String.◌∷◌ c s) t = ap (String.◌∷◌ c) (text_take-++ s t)

pub has_suffix_self : (t : String) → has_suffix t t ≡ true
unfolding has_suffix
has_suffix_self String.[] = refl
has_suffix_self (String.◌∷◌ c t) = ground (arith, same_refl (String.◌∷◌ c t))

pub has_suffix-++ : (s t : String) → has_suffix (s ++ t) t ≡ true
unfolding has_suffix
has_suffix-++ String.[] t = has_suffix_self t
has_suffix-++ (String.◌∷◌ c s) t = ground (arith, has_suffix-++ s t)

-- Every character's code passes the test.
abbrev pub AllChars : (ℕ → Bool) → String → Type 0
AllChars p String.[] = Unit
AllChars p (String.◌∷◌ c s) = (p (code c) ≡ true) × AllChars p s

module _ (p : ℕ → Bool) where
  pub AllChars-++ : (s t : String) → AllChars p s → AllChars p t → AllChars p (s ++ t)
  AllChars-++ String.[] t h k = k
  AllChars-++ (String.◌∷◌ c s) t h k = (h.0, AllChars-++ s t h.1 k)

  pub AllChars-drop : (n : ℕ) (s : String) → AllChars p s → AllChars p (text_drop n s)
  AllChars-drop zero s h = h
  AllChars-drop (suc n) String.[] h = tt
  AllChars-drop (suc n) (String.◌∷◌ c s) h = AllChars-drop n s h.1

  pub AllChars-take : (n : ℕ) (s : String) → AllChars p s → AllChars p (text_take n s)
  AllChars-take zero s h = tt
  AllChars-take (suc n) String.[] h = tt
  AllChars-take (suc n) (String.◌∷◌ c s) h = (h.0, AllChars-take n s h.1)

pub AllChars-mono :
    (p q : ℕ → Bool) (s : String)
    → ((c : ℕ) → p c ≡ true → q c ≡ true)
    → AllChars p s
    → AllChars q s
AllChars-mono p q String.[] f h = tt
AllChars-mono p q (String.◌∷◌ c s) f h = (f (code c) h.0, AllChars-mono p q s f h.1)

-- A test of a concrete text.
abbrev pub chars_test : (ℕ → Bool) → String → Bool
chars_test p String.[] = true
chars_test p (String.◌∷◌ c s) = p (code c) && chars_test p s

pub chars_test_sound : (p : ℕ → Bool) (s : String) → chars_test p s ≡ true → AllChars p s
chars_test_sound p String.[] h = tt
chars_test_sound p (String.◌∷◌ c s) h = ground (arith, chars_test_sound p s)
