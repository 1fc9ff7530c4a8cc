-- ===== src/Prelude/Bytes.antt =====
-- What the Go sources use of the package strings, on texts as lists of bytes.
use Prim.Native.Char.{code}
use Prim.Native.String.{String}
use Prim.Native.Nat.{ℕ, zero, suc, ◌-◌}
use mathlib.Core.Path.{◌≡◌, refl, ap₂, subst}
use mathlib.Core.Option.{Option, none, some}
use mathlib.Core.Logic.{◌↔◌}
use mathlib.Core.Bool.{Bool, true, false, ◌&&◌, ◌||◌}
use mathlib.Core.List.{List, [], ◌∷◌, ◌++◌}
use native.Mathlib.Omega.{arith}
use package.go_php.Prelude.Lists.{length}
use package.go_php.Prelude.Tests.{◌==◌, if◌then◌else◌}

abbrev pub Bytes : Type 0
Bytes = List ℕ

-- A literal of ASCII characters.
abbrev pub bytes : String → Bytes
bytes String.[] = []
bytes (String.◌∷◌ c s) = code c ∷ bytes s

-- s == t
unfoldable pub same_bytes : Bytes → Bytes → Bool
same_bytes [] [] = true
same_bytes [] (b ∷ t) = false
same_bytes (a ∷ s) [] = false
same_bytes (a ∷ s) (b ∷ t) = a == b && same_bytes s t

-- strings.HasPrefix(s, t)
unfoldable pub has_prefix : Bytes → Bytes → Bool
has_prefix s [] = true
has_prefix [] (b ∷ t) = false
has_prefix (a ∷ s) (b ∷ t) = a == b && has_prefix s t

-- strings.HasSuffix(s, t)
unfoldable pub ends_with : Bytes → Bytes → Bool
unfolding same_bytes
ends_with [] t = same_bytes [] t
ends_with (a ∷ s) t = same_bytes (a ∷ s) t || ends_with s t

-- strings.ReplaceAll(s, old, new) of an `old` that is not empty, with the bytes of a match to skip.
unfoldable pub replace_from : ℕ → Bytes → Bytes → Bytes → Bytes
unfolding has_prefix
replace_from n [] old new = []
replace_from zero (a ∷ s) old new =
    let match = replace_from (length old - 1) s old new in
    let other = replace_from zero s old new in
    if has_prefix (a ∷ s) old then new ++ match else a ∷ other
replace_from (suc n) (a ∷ s) old new = replace_from n s old new

abbrev pub replace_all : Bytes → Bytes → Bytes → Bytes
replace_all s old new = replace_from zero s old new

abbrev pub is_empty : Bytes → Bool
is_empty [] = true
is_empty (b ∷ bs) = false

-- strings.Contains(s, t)
unfoldable pub includes_bytes : Bytes → Bytes → Bool
unfolding has_prefix
includes_bytes [] t = has_prefix [] t
includes_bytes (a ∷ s) t = has_prefix (a ∷ s) t || includes_bytes s t

-- strings.SplitN(s, sep, 2): what is before the first byte `sep` and after it, if there is one.
abbrev pub after_byte : ℕ → Option (Bytes × Bytes) → Option (Bytes × Bytes)
after_byte a none = none
after_byte a (some (before, after)) = some (a ∷ before, after)

unfoldable pub cut_at : ℕ → Bytes → Option (Bytes × Bytes)
cut_at sep [] = none
cut_at sep (a ∷ s) = let rest = cut_at sep s in if a == sep then some ([], s) else after_byte a rest

same_bytes_refl : (s : Bytes) → same_bytes s s ≡ true
unfolding same_bytes
same_bytes_refl [] = refl
same_bytes_refl (b ∷ s) = ground (arith, same_bytes_refl s)

same_bytes_sound : (s t : Bytes) → same_bytes s t ≡ true → s ≡ t
unfolding same_bytes
same_bytes_sound [] [] h = refl
same_bytes_sound [] (b ∷ t) h = cc
same_bytes_sound (a ∷ s) [] h = cc
same_bytes_sound (a ∷ s) (b ∷ t) h =
    let heads : a ≡ b = ground arith in
    let tails : same_bytes s t ≡ true = ground arith in ap₂ ◌∷◌ heads (same_bytes_sound s t tails)

pub same_bytes_iff : (s t : Bytes) → (same_bytes s t ≡ true) ↔ (s ≡ t)
same_bytes_iff s t =
    (same_bytes_sound s t, λ e. subst (λ u. same_bytes s u ≡ true) e (same_bytes_refl s))

-- A text with a prefix is the prefix and a rest.
pub has_prefix-append : (s t : Bytes) → has_prefix s t ≡ true → (rest : Bytes) × (s ≡ t ++ rest)
unfolding has_prefix
has_prefix-append s [] h = (s, refl)
has_prefix-append [] (b ∷ t) h = absurd (cc)
has_prefix-append (a ∷ s) (b ∷ t) h =
    let (rest, e) = has_prefix-append s t (ground arith) in
    let heads : a ≡ b = ground arith in (rest, ap₂ ◌∷◌ heads e)
