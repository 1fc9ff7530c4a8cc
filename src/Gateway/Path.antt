-- ===== src/Gateway/Path.antt =====
-- internal/filesystem/path.go: the parser of request paths. A text is the list of its bytes.
pub mod Decode
pub mod Segments
pub mod Safe
pub mod Normal
use go_php.Prelude.{
  ℕ, ◌+◌, ◌-◌, ◌*◌, Bool, true, false, ◌||◌, ◌&&◌, List, [], ◌∷◌, ◌++◌, Option, none, some, ltb,
  leb, ◌==◌, if◌then◌else◌,
}

pub data PathError : Type 0 where
  invalid_percent_encoding nul_in_path control_char_in_path backslash_in_path : PathError
  encoded_slash_in_path double_encoding : PathError

-- The fields HadEncodedSlash and HadBackslash are false in every result: where they are set, an error
-- is returned in its place.
pub record ParsedPath : Type 0 where
  pub raw_target : List ℕ
  pub raw_path : List ℕ
  pub escaped_path : List ℕ
  pub decoded_segments : List (List ℕ)
  pub normalized_path : List ℕ

pub data Parsed : Type 0 where
  rejected : PathError → Parsed
  accepted : ParsedPath → Parsed

-- strings.ContainsRune, of an ASCII character
unfoldable pub has_byte : ℕ → List ℕ → Bool
has_byte x [] = false
has_byte x (b ∷ bs) = b == x || has_byte x bs

-- strings.Contains(s, "%ab")
unfoldable pub has_escape : ℕ → ℕ → List ℕ → Bool
has_escape x y (p ∷ a ∷ b ∷ bs) = (p == b'%' && a == x && b == y) || has_escape x y (a ∷ b ∷ bs)
has_escape x y _ = false

-- rawTarget[:strings.IndexByte(rawTarget, '?')], or all of it
unfoldable pub before_query : List ℕ → List ℕ
before_query [] = []
before_query (b ∷ bs) = let rest = before_query bs in if b == b'?' then [] else b ∷ rest

-- unicode.IsControl of the rune that starts at a byte: U+0000 to U+001F and U+007F are one byte, and
-- U+0080 to U+009F are 194 and a byte from 128 to 159 in UTF-8. 194 starts a rune wherever it stands.
abbrev pub starts_c1 : List ℕ → Bool
starts_c1 [] = false
starts_c1 (b ∷ bs) = leb 128 b && leb b 159

abbrev pub is_control : ℕ → List ℕ → Bool
is_control b bs = ltb b 32 || b == 127 || (b == 194 && starts_c1 bs)

-- The loop over the runes of the raw path, which has no NUL.
unfoldable pub has_control : List ℕ → Bool
has_control [] = false
has_control (b ∷ bs) = is_control b bs || has_control bs

-- The loop over the decoded runes: what the first NUL or control character is.
unfoldable pub first_bad : List ℕ → Option PathError
first_bad [] = none
first_bad (b ∷ bs) =
    let rest = first_bad bs in
    if b == 0 then some nul_in_path else if is_control b bs then some control_char_in_path else rest

unfoldable pub hex_digit : ℕ → Option ℕ
hex_digit c =
    if leb b'0' c && leb c b'9'
    then some (c - b'0')
    else if leb b'a' c && leb c b'f'
    then some (c - b'a' + 10)
    else if leb b'A' c && leb c b'F'
    then some (c - b'A' + 10)
    else none

-- What is written for an escape: %25 stays as it is.
abbrev pub escaped : ℕ → List ℕ → List ℕ
escaped v rest = if v == b'%' then b'%' ∷ b'2' ∷ b'5' ∷ rest else v ∷ rest

-- The value of the two digits of an escape.
abbrev pub hex_pair : ℕ → ℕ → Option ℕ
hex_pair a b = elim (hex_digit a) [
  | none ↦ none
  | some h1 ↦ elim (hex_digit b) [ none ↦ none | some h2 ↦ some (h1 * 16 + h2) ]
]

abbrev pub put : (List ℕ → List ℕ) → Option (List ℕ) → Option (List ℕ)
put f none = none
put f (some d) = some (f d)

-- An escape at the head, with the decoding of what follows it.
abbrev pub put_escape : Option ℕ → Option (List ℕ) → Option (List ℕ)
put_escape none rest = none
put_escape (some v) rest = put (escaped v) rest

unfoldable pub percent_decode : List ℕ → Option (List ℕ)
percent_decode [] = some []
percent_decode (p ∷ []) = if p == b'%' then none else some (p ∷ [])
percent_decode (p ∷ a ∷ []) =
    let rest = percent_decode (a ∷ []) in if p == b'%' then none else put (λ d. p ∷ d) rest
percent_decode (p ∷ a ∷ b ∷ bs) = elim (p == b'%') [
  | true ↦ put_escape (hex_pair a b) (percent_decode bs)
  | false ↦ put (λ d. p ∷ d) (percent_decode (a ∷ b ∷ bs))
]

abbrev is_hex : ℕ → Bool
is_hex c = elim (hex_digit c) [ none ↦ false | some h ↦ true ]

unfoldable pub contains_percent_encoding : List ℕ → Bool
contains_percent_encoding (p ∷ a ∷ b ∷ bs) =
    (p == b'%' && is_hex a && is_hex b) || contains_percent_encoding (a ∷ b ∷ bs)
contains_percent_encoding _ = false

-- strings.Split(path, "/")
abbrev pub prepend : ℕ → List (List ℕ) → List (List ℕ)
prepend b [] = (b ∷ []) ∷ []
prepend b (s ∷ ss) = (b ∷ s) ∷ ss

unfoldable pub split_slash : List ℕ → List (List ℕ)
split_slash [] = [] ∷ []
split_slash (b ∷ bs) = let rest = split_slash bs in if b == b'/' then [] ∷ rest else prepend b rest

abbrev pub drop_last : List (List ℕ) → List (List ℕ)
drop_last [] = []
drop_last (s ∷ []) = []
drop_last (s ∷ t ∷ ss) = s ∷ drop_last (t ∷ ss)

-- A segment is skipped, takes the last one off, or is put at the end.
pub data Move : Type 0 where
  skip up enter : Move

unfoldable pub move : List ℕ → Move
move [] = skip
move (a ∷ []) = if a == b'.' then skip else enter
move (a ∷ b ∷ []) = if a == b'.' && b == b'.' then up else enter
move (a ∷ b ∷ c ∷ bs) = enter

abbrev pub moved : Move → List ℕ → List (List ℕ) → List (List ℕ)
moved skip seg result = result
moved up seg result = drop_last result
moved enter seg result = result ++ seg ∷ []

unfoldable pub collapse : List (List ℕ) → List (List ℕ) → List (List ℕ)
collapse result [] = result
collapse result (seg ∷ segs) = collapse (moved (move seg) seg result) segs

abbrev is_root : List ℕ → Bool
is_root [] = true
is_root (b ∷ []) = b == b'/'
is_root _ = false

unfoldable pub split_and_collapse : List ℕ → List (List ℕ)
split_and_collapse path = if is_root path then [] else collapse [] (split_slash path)

-- strings.Join(segments, "/")
unfoldable pub join_slash : List (List ℕ) → List ℕ
join_slash [] = []
join_slash (s ∷ []) = s
join_slash (s ∷ t ∷ ss) = s ++ b'/' ∷ join_slash (t ∷ ss)

unfoldable pub normalized : List (List ℕ) → List ℕ
normalized segments = b'/' ∷ join_slash segments

abbrev pub result_of : List ℕ → List ℕ → List ℕ → ParsedPath
result_of target path decoded = record {
  raw_target = target;
  raw_path = path;
  escaped_path = path;
  decoded_segments = split_and_collapse decoded;
  normalized_path = normalized (split_and_collapse decoded);
}

-- The tests of the decoded text.
unfoldable pub check_decoded : List ℕ → List ℕ → List ℕ → Parsed
check_decoded target path decoded =
    if contains_percent_encoding decoded
    then rejected double_encoding
    else elim (first_bad decoded) [
      | some e ↦ rejected e
      | none ↦ accepted (result_of target path decoded)
    ]

-- The tests of the raw path (92 is a backslash): the first that fails, if one does.
unfoldable pub raw_error : List ℕ → Option PathError
raw_error path =
    if has_byte 0 path
    then some nul_in_path
    else if has_control path
    then some control_char_in_path
    else if has_byte 92 path
    then some backslash_in_path
    else if has_escape b'2' b'f' path || has_escape b'2' b'F' path
    then some encoded_slash_in_path
    else if has_escape b'3' b'f' path || has_escape b'3' b'F' path
    then some invalid_percent_encoding
    else if has_escape b'5' b'c' path || has_escape b'5' b'C' path
    then some backslash_in_path
    else none

unfoldable pub parse_path : List ℕ → Parsed
parse_path target =
    let path = before_query target in
    elim (raw_error path) [
      | some e ↦ rejected e
      | none ↦ elim (percent_decode path) [
        | none ↦ rejected invalid_percent_encoding
        | some decoded ↦ check_decoded target path decoded
      ]
    ]
