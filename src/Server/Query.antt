-- ===== src/Server/Query.antt =====
-- What handlers of internal/ui/handlers.go read with r.URL.Query().Get: the query of a URL as the package
-- net/url reads it. A text's bytes are those of its characters in UTF-8.
pub mod Received
use Prim.Native.Char.{code}
use go_php.Prelude.{
  ℕ, ◌+◌, ◌-◌, ◌*◌, String, Option, none, some, List, [], ◌∷◌, ◌++◌, Bool, true, false, ◌&&◌, ◌||◌,
  leb, ◌==◌, if◌then◌else◌,
}
use go_php.Prelude.Text
use go_php.Prelude.Bytes.{Bytes, same_bytes}
use go_php.Dashboard.Client.Encoding.{utf8}

unfoldable pub utf8_bytes : String → Bytes
utf8_bytes String.[] = []
utf8_bytes (String.◌∷◌ c s) = utf8 (code c) ++ utf8_bytes s

-- What stands behind the first question mark.
unfoldable pub url_query : String → String
url_query String.[] = ""
url_query (String.◌∷◌ c s) = let rest = url_query s in if code c == b'?' then s else rest

-- A text up to the first of a character, and behind it.
unfoldable pub before : ℕ → String → String
before b String.[] = ""
before b (String.◌∷◌ c s) = let rest = before b s in if code c == b then "" else String.◌∷◌ c rest

unfoldable pub after : ℕ → String → String
after b String.[] = ""
after b (String.◌∷◌ c s) = let rest = after b s in if code c == b then s else rest

unfoldable pub has_char : ℕ → String → Bool
has_char b String.[] = false
has_char b (String.◌∷◌ c s) = code c == b || has_char b s

-- url.QueryUnescape; `none` is an error.
unfoldable pub hex_value : ℕ → Option ℕ
hex_value c =
    if leb b'0' c && leb c b'9'
    then some (c - b'0')
    else if leb b'a' c && leb c b'f'
    then some (c - b'a' + 10)
    else if leb b'A' c && leb c b'F'
    then some (c - b'A' + 10)
    else none

abbrev pub put_all : Bytes → Option Bytes → Option Bytes
put_all bs none = none
put_all bs (some rest) = some (bs ++ rest)

abbrev pub put_escape : Option ℕ → Option ℕ → Option Bytes → Option Bytes
put_escape (some x) (some y) rest = put_all ((x * 16 + y) ∷ []) rest
put_escape (some x) none rest = none
put_escape none y rest = none

-- A character that begins no escape.
abbrev pub plain : ℕ → Bytes
plain c = if c == b'+' then b' ' ∷ [] else utf8 c

unfoldable pub unescape : String → Option Bytes
unfolding hex_value
unescape String.[] = some []
unescape (String.◌∷◌ c String.[]) = if code c == b'%' then none else some (plain (code c))
unescape (String.◌∷◌ c (String.◌∷◌ x String.[])) =
    let rest = unescape (String.◌∷◌ x String.[]) in
    if code c == b'%' then none else put_all (plain (code c)) rest
unescape (String.◌∷◌ c (String.◌∷◌ x (String.◌∷◌ y s))) =
    let rest = unescape (String.◌∷◌ x (String.◌∷◌ y s)) in
    let behind = unescape s in
    if code c == b'%'
    then put_escape (hex_value (code x)) (hex_value (code y)) behind
    else put_all (plain (code c)) rest

-- The settings of a query, between its ampersands.
abbrev pub longer : String → List String → List String
longer c [] = c ∷ []
longer c (s ∷ ss) = Text.◌++◌ c s ∷ ss

unfoldable pub settings : String → List String
settings String.[] = "" ∷ []
settings (String.◌∷◌ c s) =
    let rest = settings s in if code c == b'&' then "" ∷ rest else longer (String.◌∷◌ c "") rest

-- url.ParseQuery leaves a setting out that is empty, holds a semicolon or cannot be unescaped. Get is
-- the value of the first setting with the name, or empty.
abbrev pub or_later : Bytes → Option Bytes → Option Bytes → Bytes → Bytes
or_later name (some n) (some v) later = if same_bytes n name then v else later
or_later name (some n) none later = later
or_later name none v later = later

unfoldable pub get : Bytes → List String → Bytes
unfolding has_char before after unescape
get name [] = []
get name (s ∷ ss) =
    let later = get name ss in
    if Text.same s "" || has_char b';' s
    then later
    else or_later name (unescape (before b'=' s)) (unescape (after b'=' s)) later

-- r.URL.Query().Get(name)
unfoldable pub query_value : Bytes → String → Bytes
unfolding get settings url_query
query_value name url = get name (settings (url_query url))
