-- ===== src/Gateway/Cgi.antt =====
-- internal/php/cgi/response.go: what a script answers. A header is a name and a value, in the order in
-- which `Add` is called. strings.TrimSpace and strconv.Atoi are parameters.
pub mod Lines
pub mod Accepted
use go_php.Prelude.{
  ℕ, suc, ◌+◌, Option, none, some, List, [], ◌∷◌, Bool, true, false, not, ◌&&◌, ◌||◌, ltb, leb,
  ◌==◌, if◌then◌else◌, length,
}
use go_php.Prelude.Int.{ℤ, pos, ltb_ℤ}
use go_php.Prelude.Bytes.{Bytes, bytes, is_empty, cut_at, after_byte}
use go_php.Gateway.Path.{prepend}

pub record Library : Type 0 where
  pub trim_space : Bytes → Bytes
  pub atoi : Bytes → Option ℤ

pub data CgiError : Type 0 where
  header_too_large too_many_headers invalid_header header_injection : CgiError

abbrev pub Header : Type 0
Header = Bytes × Bytes

pub record Response : Type 0 where
  pub status_code : ℤ
  pub headers : List Header
  pub body : Bytes

pub data Parsed : Type 0 where
  fails : CgiError → Parsed
  responds : Response → Parsed

-- bytes.Index of CR LF CR LF: what is before it and what is after it.
unfoldable pub cut_headers : Bytes → Option (Bytes × Bytes)
cut_headers (a ∷ b ∷ c ∷ d ∷ rest) =
    let later = cut_headers (b ∷ c ∷ d ∷ rest) in
    if a == 13 && b == 10 && c == 13 && d == 10 then some ([], rest) else after_byte a later
cut_headers _ = none

-- bytes.Split at CR LF.
unfoldable pub split_lines : Bytes → List Bytes
split_lines [] = [] ∷ []
split_lines (a ∷ []) = (a ∷ []) ∷ []
split_lines (a ∷ b ∷ rest) = elim (a == 13 && b == 10) [
  | true ↦ [] ∷ split_lines rest
  | false ↦ prepend a (split_lines (b ∷ rest))
]

-- Runes below 128 are bytes, and no other byte is tested.
unfoldable pub name_control : Bytes → Bool
name_control [] = false
name_control (b ∷ bs) = ltb b 32 || b == 127 || name_control bs

-- A tab may stand in a value.
unfoldable pub value_control : Bytes → Bool
value_control [] = false
value_control (b ∷ bs) = (ltb b 32 && not (b == 9)) || b == 127 || value_control bs

pub data Line : Type 0 where
  bad_line : CgiError → Line
  good_line : Header → Line

abbrev pub checked_line : Bytes → Bytes → Line
checked_line name value =
    if is_empty name
    then bad_line invalid_header
    else if name_control name || value_control value
    then bad_line header_injection
    else good_line (name, value)

abbrev pub cut_line : Library → Option (Bytes × Bytes) → Line
cut_line lib none = bad_line invalid_header
cut_line lib (some (name, value)) = checked_line (lib.trim_space name) (lib.trim_space value)

unfoldable pub parse_header_line : Library → Bytes → Line
parse_header_line lib line = cut_line lib (cut_at b':' line)

pub data Headers : Type 0 where
  bad_headers : CgiError → Headers
  good_headers : List Header → Headers

abbrev pub with_header : Header → Headers → Headers
with_header h (bad_headers e) = bad_headers e
with_header h (good_headers hs) = good_headers (h ∷ hs)

abbrev pub after_line : Line → Headers → Headers
after_line (bad_line e) rest = bad_headers e
after_line (good_line h) rest = with_header h rest

-- The lines, with the bytes and the headers so far. An empty line is passed over.
abbrev pub checked_sizes : ℕ → ℕ → ℕ → Headers → Headers
checked_sizes size total count next =
    if ltb 8192 size || ltb 65536 total
    then bad_headers header_too_large
    else if ltb 100 count
    then bad_headers too_many_headers
    else next

unfoldable pub parse_lines : Library → List Bytes → ℕ → ℕ → Headers
parse_lines lib [] total count = good_headers []
parse_lines lib (line ∷ lines) total count = elim (is_empty line) [
  | true ↦ parse_lines lib lines total count
  | false ↦ checked_sizes (length line) (total + (length line + 2)) (suc count) (
      after_line (parse_header_line lib line)
        (parse_lines lib lines (total + (length line + 2)) (suc count)))
]

abbrev pub parse_headers : Library → Bytes → Headers
parse_headers lib data_bytes = parse_lines lib (split_lines data_bytes) 0 0

-- Names are compared in lower case, which for letters is what their canonical form does.
abbrev pub lower : ℕ → ℕ
lower c = if leb b'A' c && leb c b'Z' then c + 32 else c

unfoldable pub same_name : Bytes → Bytes → Bool
same_name [] [] = true
same_name [] (b ∷ t) = false
same_name (a ∷ s) [] = false
same_name (a ∷ s) (b ∷ t) = lower a == lower b && same_name s t

abbrev pub is_status : Header → Bool
is_status (name, value) = same_name name (bytes "Status")

-- headers.Get("Status") and headers.Del("Status")
abbrev pub get_status : List Header → Bytes
get_status [] = []
get_status ((n, v) ∷ hs) = let rest = get_status hs in if is_status (n, v) then v else rest

abbrev pub del_status : List Header → List Header
del_status [] = []
del_status (h ∷ hs) = let rest = del_status hs in if is_status h then rest else h ∷ rest

abbrev pub first_part : Bytes → Option (Bytes × Bytes) → Bytes
first_part s none = s
first_part s (some (before, after)) = before

abbrev pub in_range : Option ℤ → Option ℤ
in_range none = none
in_range (some code) = if ltb_ℤ code (pos 100) || ltb_ℤ (pos 599) code then none else some code

unfoldable pub parse_status_line : Library → Bytes → Option ℤ
parse_status_line lib s =
    let t = lib.trim_space s in in_range (lib.atoi (first_part t (cut_at b' ' t)))

abbrev pub with_status : List Header → Bytes → Option ℤ → Parsed
with_status hs body none = fails invalid_header
with_status hs body (some code) =
    responds (record { status_code = code; headers = del_status hs; body = body })

abbrev pub plain_response : List Header → Bytes → Parsed
plain_response hs body = responds (record { status_code = pos 200; headers = hs; body = body })

abbrev pub answer_of : Library → Bytes → Headers → Parsed
answer_of lib body (bad_headers e) = fails e
answer_of lib body (good_headers hs) =
    if is_empty (get_status hs)
    then plain_response hs body
    else with_status hs body (parse_status_line lib (get_status hs))

abbrev pub answer_cut : Library → Bytes → Option (Bytes × Bytes) → Parsed
answer_cut lib stdout none = plain_response [] stdout
answer_cut lib stdout (some (head, body)) = answer_of lib body (parse_headers lib head)

unfoldable pub parse_response : Library → Bytes → Parsed
parse_response lib stdout =
    if is_empty stdout then plain_response [] [] else answer_cut lib stdout (cut_headers stdout)
