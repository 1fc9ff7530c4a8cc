-- ===== src/Gateway/CgiParams.antt =====
-- internal/php/cgi/params.go: the variables of a script. A map is the list of its settings, the newest
-- first. net.SplitHostPort is a parameter. The names of headers are ASCII, as net/http reads them.
pub mod Protected
use go_php.Prelude.{
  ℕ, ◌+◌, ◌-◌, Option, none, some, List, [], ◌∷◌, ◌++◌, Bool, true, false, not, ◌&&◌, leb, ltb,
  ◌==◌, drop, length, String, if◌then◌else◌,
}
use go_php.Prelude.Int.{ℤ, pos, ltb_ℤ}
use go_php.Prelude.Decimal.{print_ℤ}
use go_php.Prelude.Bytes.{Bytes, bytes, same_bytes, has_prefix, is_empty}

-- What is read of the request: `version` is that of the build, `request_uri` is r.URL.RequestURI(),
-- `content_type` is what Get finds, and the headers are in the order in which the loop walks them.
pub record Request : Type 0 where
  pub version : Bytes
  pub proto : Bytes
  pub method : Bytes
  pub request_uri : Bytes
  pub path : Bytes
  pub raw_query : Bytes
  pub remote_addr : Bytes
  pub host : Bytes
  pub tls : Bool
  pub content_type : Bytes
  pub content_length : ℤ
  pub headers : List (Bytes × List Bytes)

abbrev pub Params : Type 0
Params = List (Bytes × Bytes)

abbrev pub set : String → Bytes → Params → Params
set name value ps = (bytes name, value) ∷ ps

unfoldable pub lookup : Bytes → Params → Option Bytes
lookup k [] = none
lookup k ((n, v) ∷ ps) = let rest = lookup k ps in if same_bytes n k then some v else rest

abbrev pub upper : ℕ → ℕ
upper c = if leb b'a' c && leb c b'z' then c - 32 else c

abbrev pub or_else : Bytes → Bytes → Bytes
or_else s default = if is_empty s then default else s

-- strings.EqualFold(name, "Proxy")
unfoldable pub folds_to : Bytes → Bytes → Bool
folds_to [] [] = true
folds_to [] (b ∷ t) = false
folds_to (a ∷ s) [] = false
folds_to (a ∷ s) (b ∷ t) = upper a == upper b && folds_to s t

abbrev pub cgi_char : ℕ → ℕ
cgi_char c = if c == b'-' then b'_' else upper c

unfoldable pub http_header_to_cgi : Bytes → Bytes
http_header_to_cgi [] = []
http_header_to_cgi (c ∷ s) = cgi_char c ∷ http_header_to_cgi s

-- strings.Join(values, ", ")
unfoldable pub join_comma : List Bytes → Bytes
join_comma [] = []
join_comma (v ∷ []) = v
join_comma (v ∷ w ∷ vs) = v ++ bytes ", " ++ join_comma (w ∷ vs)

unfoldable pub put_headers : List (Bytes × List Bytes) → Params → Params
put_headers [] ps = ps
put_headers ((name, values) ∷ hs) ps = put_headers hs (elim (folds_to name (bytes "Proxy")) [
  | true ↦ ps
  | false ↦ (bytes "HTTP_" ++ http_header_to_cgi name, join_comma values) ∷ ps
])

abbrev pub put_path_info : Bytes → Bytes → Bytes → Params → Params
put_path_info path script_name root ps =
    if not (is_empty script_name) && has_prefix path script_name
    then (let info = drop (length script_name) path in
        set "PATH_TRANSLATED" (root ++ info) (set "PATH_INFO" info ps))
    else ps

abbrev pub put_remote : Bytes → Option (Bytes × Bytes) → Params → Params
put_remote addr none ps = set "REMOTE_PORT" (bytes "0") (set "REMOTE_ADDR" addr ps)
put_remote addr (some (host, port)) ps = set "REMOTE_PORT" port (set "REMOTE_ADDR" host ps)

abbrev pub put_server : Bool → Bytes → Option (Bytes × Bytes) → Params → Params
put_server tls host none ps =
    set "SERVER_PORT" (if tls then bytes "443" else bytes "80") (set "SERVER_NAME" host ps)
put_server tls host (some (name, port)) ps = set "SERVER_PORT" port (set "SERVER_NAME" name ps)

abbrev pub put_if : Bool → String → Bytes → Params → Params
put_if test name value ps = if test then set name value ps else ps

-- The variables up to those of the request's headers.
unfoldable pub own_params :
    (Bytes → Option (Bytes × Bytes)) → Request → Bytes → Bytes → Bytes → Params
own_params split q script_filename script_name root =
    let first = set "DOCUMENT_ROOT" root (
      set "SCRIPT_NAME" script_name (
        set "SCRIPT_FILENAME" script_filename (
          set "QUERY_STRING" q.raw_query (
            set "DOCUMENT_URI" q.path (
              set "REQUEST_URI" (or_else q.request_uri (bytes "/")) (
                set "REQUEST_METHOD" q.method (
                  set "SERVER_PROTOCOL" q.proto (
                    set "SERVER_SOFTWARE"
                      (bytes "go-php-gateway/" ++ or_else q.version (bytes "1.0"))
                      (set "GATEWAY_INTERFACE" (bytes "CGI/1.1") []))))))))) in
    let placed = put_server q.tls q.host (split q.host) (
      put_remote q.remote_addr (split q.remote_addr)
        (put_path_info q.path script_name root first)) in
    put_if (not (ltb_ℤ q.content_length (pos 0))) "CONTENT_LENGTH"
      (bytes (print_ℤ q.content_length))
      (put_if (not (is_empty q.content_type)) "CONTENT_TYPE" q.content_type
        (put_if q.tls "HTTPS" (bytes "on") placed))

unfoldable pub build_params :
    (Bytes → Option (Bytes × Bytes)) → Request → Bytes → Bytes → Bytes → Params
build_params split q script_filename script_name root =
    set "REDIRECT_STATUS" (bytes "200")
      (put_headers q.headers (own_params split q script_filename script_name root))
