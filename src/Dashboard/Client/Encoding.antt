-- ===== src/Dashboard/Client/Encoding.antt =====
-- `encodeURIComponent`, the library function that client.ts puts every query value through: the
-- UTF-8 bytes of each character but the unreserved ones become %XX.
use Prim.Native.Char.{Char, code}
use go_php.Prelude.Text.{◌++◌}
use go_php.Prelude.{
  ℕ, zero, suc, ◌+◌, ◌/◌, ◌%◌, String, Bool, ◌||◌, ◌&&◌, List, [], ◌∷◌, ltb, leb, ◌==◌,
  if◌then◌else◌,
}

abbrev pub hex_digits : List String
hex_digits =
    "0" ∷ "1" ∷ "2" ∷ "3" ∷ "4" ∷ "5" ∷ "6" ∷ "7" ∷ "8" ∷ "9" ∷ "A" ∷ "B" ∷ "C" ∷ "D" ∷ "E" ∷ "F"
    ∷ []

abbrev pub pick : List String → ℕ → String
pick [] n = ""
pick (d ∷ ds) zero = d
pick (d ∷ ds) (suc n) = pick ds n

unfoldable pub digit_text : ℕ → String
digit_text n = pick hex_digits n

-- A-Z a-z 0-9 - _ . ! ~ * ' ( )
unfoldable pub is_unreserved : ℕ → Bool
is_unreserved c =
    (leb b'A' c && leb c b'Z')
    || (leb b'a' c && leb c b'z')
    || (leb b'0' c && leb c b'9')
    || c == b'-'
    || c == b'_'
    || c == b'.'
    || c == b'!'
    || c == b'~'
    || c == b'*'
    || c == 39
    || c == b'('
    || c == b')'

-- The bytes of a code point in UTF-8.
unfoldable pub utf8 : ℕ → List ℕ
utf8 c =
    if ltb c 0x80
    then c ∷ []
    else if ltb c 0x800
    then (0xC0 + c / 64) ∷ (0x80 + c % 64) ∷ []
    else if ltb c 0x10000
    then (0xE0 + c / 4096) ∷ (0x80 + c / 64 % 64) ∷ (0x80 + c % 64) ∷ []
    else (0xF0 + c / 262144) ∷ (0x80 + c / 4096 % 64) ∷ (0x80 + c / 64 % 64) ∷ (0x80 + c % 64) ∷ []

unfoldable pub percent : List ℕ → String
percent [] = ""
percent (b ∷ bs) = "%" ++ (digit_text (b / 16) ++ (digit_text (b % 16) ++ percent bs))

unfoldable pub encode_char : Char → String
unfolding is_unreserved utf8 percent digit_text
encode_char c = if is_unreserved (code c) then String.◌∷◌ c "" else percent (utf8 (code c))

unfoldable pub encode_uri_component : String → String
unfolding encode_char
encode_uri_component String.[] = ""
encode_uri_component (String.◌∷◌ c s) = encode_char c ++ encode_uri_component s
