-- ===== src/Prelude/Decimal.antt =====
-- JavaScript's numbers as text, for integers: `String(n)` and `parseInt(v)`.
use Prim.Native.Char.{code}
use Prim.Native.String.{String, ◌++◌}
use Prim.Native.Nat.{ℕ, zero, suc, ◌+◌, ◌-◌, ◌*◌, ◌/◌, ◌%◌}
use mathlib.Core.Bool.{Bool, ◌&&◌, ◌||◌}
use mathlib.Core.Option.{Option, none, some}
use mathlib.Core.List.{List, [], ◌∷◌}
use package.go_php.Prelude.Tests.{ltb, leb, ◌==◌, if◌then◌else◌}
use package.go_php.Prelude.Int.{ℤ, pos, negsuc}

unfoldable pub decimals : List String
decimals = "0" ∷ "1" ∷ "2" ∷ "3" ∷ "4" ∷ "5" ∷ "6" ∷ "7" ∷ "8" ∷ "9" ∷ []

unfoldable pub pick : List String → ℕ → String
pick [] n = ""
pick (d ∷ ds) zero = d
pick (d ∷ ds) (suc n) = pick ds n

-- A number has at most as many digits as its value, so the fuel `suc n` is enough.
unfoldable pub print_from : ℕ → ℕ → String
print_from zero n = ""
print_from (suc f) n =
    let higher = print_from f (n / 10) in
    if ltb n 10 then pick decimals n else higher ++ pick decimals (n % 10)

unfoldable pub print_ℕ : ℕ → String
unfolding print_from pick decimals
print_ℕ n = print_from (suc n) n

unfoldable pub print_ℤ : ℤ → String
unfolding print_ℕ
print_ℤ (pos n) = print_ℕ n
print_ℤ (negsuc n) = "-" ++ print_ℕ (suc n)

-- The white space and line terminators that parseInt skips.
is_space : ℕ → Bool
is_space c =
    (leb 9 c && leb c 13)
    || c == 32
    || c == 0xA0
    || c == 0x1680
    || (leb 0x2000 c && leb c 0x200A)
    || c == 0x2028
    || c == 0x2029
    || c == 0x202F
    || c == 0x205F
    || c == 0x3000
    || c == 0xFEFF

skip_spaces : String → String
skip_spaces String.[] = ""
skip_spaces (String.◌∷◌ c s) =
    let rest = skip_spaces s in if is_space (code c) then rest else String.◌∷◌ c s

-- The value of a digit in the radix, if the character is one.
digit_value : ℕ → ℕ → Option ℕ
digit_value radix c =
    if leb b'0' c && leb c b'9'
    then some (c - b'0')
    else if radix == 16 && leb b'a' c && leb c b'f'
    then some (c - b'a' + 10)
    else if radix == 16 && leb b'A' c && leb c b'F'
    then some (c - b'A' + 10)
    else none

-- The longest run of digits; `none` is NaN, when there is none.
digits_from : ℕ → Option ℕ → String → Option ℕ
digits_from radix acc String.[] = acc
digits_from radix acc (String.◌∷◌ c s) = elim (digit_value radix (code c)) [
  | none ↦ acc
  | some d ↦ digits_from radix (elim acc [ none ↦ some d | some a ↦ some (a * radix + d) ]) s
]

-- A prefix 0x or 0X selects radix 16.
unsigned : String → Option ℕ
unsigned (String.◌∷◌ c (String.◌∷◌ d s)) =
    if code c == b'0' && (code d == b'x' || code d == b'X')
    then digits_from 16 none s
    else digits_from 10 none (String.◌∷◌ c (String.◌∷◌ d s))
unsigned s = digits_from 10 none s

-- -0 is 0 for every use in the sources.
negate : ℕ → ℤ
negate zero = pos 0
negate (suc n) = negsuc n

signed : String → Option ℤ
signed String.[] = none
signed (String.◌∷◌ c s) =
    if code c == b'-'
    then (elim (unsigned s) [ none ↦ none | some n ↦ some (negate n) ])
    else if code c == b'+'
    then (elim (unsigned s) [ none ↦ none | some n ↦ some (pos n) ])
    else (elim (unsigned (String.◌∷◌ c s)) [ none ↦ none | some n ↦ some (pos n) ])

unfoldable pub parse_int : String → Option ℤ
unfolding skip_spaces is_space signed unsigned digits_from digit_value negate
parse_int s = signed (skip_spaces s)

-- parseInt(v) || 0
abbrev pub int_or_zero : Option ℤ → ℤ
int_or_zero none = pos 0
int_or_zero (some n) = n
