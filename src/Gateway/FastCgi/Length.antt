-- ===== src/Gateway/FastCgi/Length.antt =====
-- Lengths of names and values: one byte below 128, else four with the top bit set.
use go_php.Prelude.{
  ℕ, ◌+◌, ◌*◌, ◌/◌, ◌%◌, ◌<◌, ◌≡◌, List, [], ◌∷◌, ◌++◌, ltb, leb, length, if◌then◌else◌, arith,
  String, Bool-cases, inl, inr,
}

-- byte(n)
abbrev pub byte : ℕ → ℕ
byte n = n % 256

-- b | 0x80, b & 0x80 != 0 and b & 0x7f, of a byte
abbrev set_top_bit : ℕ → ℕ
set_top_bit b = b % 128 + 128

unfoldable pub encode_length : ℕ → List ℕ
encode_length n =
    if ltb n 128
    then byte n ∷ []
    else set_top_bit (byte (n / 16777216)) ∷ byte (n / 65536) ∷ byte (n / 256) ∷ byte n ∷ []

-- A length with the number of bytes that it took, or an error.
pub data LengthResult : Type 0 where
  bad_length : String → LengthResult
  length_of : ℕ → ℕ → LengthResult

-- The branch of four bytes.
abbrev wide : ℕ → List ℕ → LengthResult
wide b (b1 ∷ b2 ∷ b3 ∷ rest) = length_of (b % 128 * 16777216 + b1 * 65536 + b2 * 256 + b3) 4
wide b _ = bad_length "fastcgi: truncated 4-byte length"

unfoldable pub decode_length : List ℕ → LengthResult
decode_length [] = bad_length "fastcgi: empty length data"
decode_length (b ∷ rest) = if leb 128 b then wide b rest else length_of b 1

-- A length below 2 ^ 31 is read back from its encoding, whatever follows, with the number of bytes
-- that the encoding has.
pub decode_length-encode_length :
    (n : ℕ) (rest : List ℕ)
    → n < 2147483648
    → decode_length (encode_length n ++ rest) ≡ length_of n (length (encode_length n))
unfolding decode_length encode_length
decode_length-encode_length n rest h = elim (Bool-cases (ltb n 128)) [
  | inl small ↦ rw small (ground arith)
  | inr large ↦ rw large (ground arith)
]
