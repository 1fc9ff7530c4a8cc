-- ===== src/Gateway/CgiParams/Protected.antt =====
-- The variables that the headers of a request set.
use go_php.Prelude.{
  ℕ, ◌≡◌, refl, Option, none, some, List, [], ◌∷◌, ◌++◌, Bool, true, false, not, ◌&&◌, ◌==◌, All,
  arith, inl, inr, Bool-cases, ap, sym, ◌∙◌, if◌then◌else◌, String,
}
use go_php.Prelude.Int.{pos, ltb_ℤ}
use go_php.Prelude.Bytes.{Bytes, bytes, same_bytes, has_prefix, is_empty}
use go_php.Gateway.CgiParams.{
  Request, Params, lookup, upper, folds_to, cgi_char, http_header_to_cgi, join_comma, put_headers,
  set, put_if, put_path_info, put_remote, put_server, own_params, build_params,
}

same-has_prefix : (t s k : Bytes) → same_bytes (t ++ s) k ≡ true → has_prefix k t ≡ true
unfolding same_bytes has_prefix
same-has_prefix [] s k h = refl
same-has_prefix (b ∷ t) s [] h = absurd (cc)
same-has_prefix (b ∷ t) s (a ∷ k) h = ground (arith, same-has_prefix t s k)

-- A name that begins with HTTP_ is no other.
not_http :
    (s k : Bytes) → has_prefix k (bytes "HTTP_") ≡ false → same_bytes (bytes "HTTP_" ++ s) k ≡ false
not_http s k h = elim (Bool-cases (same_bytes (bytes "HTTP_" ++ s) k)) [
  | inr other ↦ other
  | inl same ↦ let begins = same-has_prefix (bytes "HTTP_") s k same in absurd (cc)
]

lookup-put_headers :
    (hs : List (Bytes × List Bytes)) (ps : Params) (k : Bytes)
    → has_prefix k (bytes "HTTP_") ≡ false
    → lookup k (put_headers hs ps) ≡ lookup k ps
unfolding put_headers lookup
lookup-put_headers [] ps k h = refl
lookup-put_headers ((name, values) ∷ hs) ps k h =
    elim (Bool-cases (folds_to name (bytes "Proxy"))) [
      | inl proxy ↦ rw (proxy, put_headers) (lookup-put_headers hs ps k h)
      | inr other ↦
          rw (other, put_headers)
            (lookup-put_headers hs
                ((bytes "HTTP_" ++ http_header_to_cgi name, join_comma values) ∷ ps) k h
              ∙ skip (not_http (http_header_to_cgi name) k h))
    ]
  where
    skip :
        same_bytes (bytes "HTTP_" ++ http_header_to_cgi name) k ≡ false
        → lookup k ((bytes "HTTP_" ++ http_header_to_cgi name, join_comma values) ∷ ps)
          ≡ lookup k ps
    skip e = rw e refl

-- Only a header of that name becomes PROXY.
abbrev uppers : Bytes → Bytes
uppers [] = []
uppers (c ∷ s) = upper c ∷ uppers s

upper_of_cgi : (c x : ℕ) → (x == b'_') ≡ false → (cgi_char c == x) ≡ true → (upper c == x) ≡ true
upper_of_cgi c x h k = elim (Bool-cases (c == b'-')) [
  | inl dash ↦ let e : (b'_' == x) ≡ true = rw dash at k in ground arith
  | inr other ↦ rw other at k
]

folds_of_same :
    (s t : Bytes)
    → All (λ b. (upper b == b'_') ≡ false) t
    → same_bytes (http_header_to_cgi s) (uppers t) ≡ true
    → folds_to s t ≡ true
unfolding same_bytes http_header_to_cgi folds_to
folds_of_same [] [] v h = refl
folds_of_same [] (b ∷ t) v h = absurd (cc)
folds_of_same (a ∷ s) [] v h = absurd (cc)
folds_of_same (a ∷ s) (b ∷ t) v h =
    let (first, rest) = both (cgi_char a == upper b) h in
    let e = upper_of_cgi a (upper b) v.0 first in rw (e, folds_of_same s t v.1 rest) refl
  where
    both :
        (x : Bool)
        → (x && same_bytes (http_header_to_cgi s) (uppers t)) ≡ true
        → (x ≡ true) × (same_bytes (http_header_to_cgi s) (uppers t) ≡ true)
    both true e = (refl, e)
    both false e = absurd (cc)

abbrev http_proxy : Bytes
http_proxy = bytes "HTTP_PROXY"

not_proxy :
    (name : Bytes)
    → folds_to name (bytes "Proxy") ≡ false
    → same_bytes (bytes "HTTP_" ++ http_header_to_cgi name) http_proxy ≡ false
unfolding same_bytes
not_proxy name h = elim (Bool-cases (same_bytes (http_header_to_cgi name) (bytes "PROXY"))) [
  | inr other ↦ other
  | inl same ↦
      let folds =
        folds_of_same name (bytes "Proxy") (refl, (refl, (refl, (refl, (refl, tt))))) same in
      absurd (cc)
]

lookup-set :
    (n v k : Bytes) (ps : Params) → same_bytes n k ≡ false → lookup k ((n, v) ∷ ps) ≡ lookup k ps
unfolding lookup
lookup-set n v k ps h = rw h refl

proxy-put_headers :
    (hs : List (Bytes × List Bytes)) (ps : Params)
    → lookup http_proxy ps ≡ none
    → lookup http_proxy (put_headers hs ps) ≡ none
unfolding put_headers
proxy-put_headers [] ps h = h
proxy-put_headers ((name, values) ∷ hs) ps h = elim (Bool-cases (folds_to name (bytes "Proxy"))) [
  | inl proxy ↦ rw (proxy, put_headers) (proxy-put_headers hs ps h)
  | inr other ↦
      let named = bytes "HTTP_" ++ http_header_to_cgi name in
      rw (other, put_headers)
        (proxy-put_headers hs ((named, join_comma values) ∷ ps)
          (lookup-set named (join_comma values) http_proxy ps (not_proxy name other) ∙ h))
]

lookup-put_if :
    (b : Bool) (name : String) (v k : Bytes) (ps : Params)
    → same_bytes (bytes name) k ≡ false
    → lookup k (put_if b name v ps) ≡ lookup k ps
lookup-put_if true name v k ps h = lookup-set (bytes name) v k ps h
lookup-put_if false name v k ps h = refl

proxy-put_server :
    (tls : Bool) (host : Bytes) (o : Option (Bytes × Bytes)) (ps : Params)
    → lookup http_proxy (put_server tls host o ps) ≡ lookup http_proxy ps
unfolding lookup same_bytes
proxy-put_server tls host none ps = refl
proxy-put_server tls host (some (name, port)) ps = refl

proxy-put_remote :
    (addr : Bytes) (o : Option (Bytes × Bytes)) (ps : Params)
    → lookup http_proxy (put_remote addr o ps) ≡ lookup http_proxy ps
unfolding lookup same_bytes
proxy-put_remote addr none ps = refl
proxy-put_remote addr (some (host, port)) ps = refl

proxy-put_path_info :
    (path script_name root : Bytes) (ps : Params)
    → lookup http_proxy (put_path_info path script_name root ps) ≡ lookup http_proxy ps
unfolding lookup same_bytes
proxy-put_path_info path script_name root ps =
    elim (Bool-cases (not (is_empty script_name) && has_prefix path script_name)) [
      | inl below ↦ rw below refl
      | inr other ↦ rw other refl
    ]

proxy-own_params :
    (split : Bytes → Option (Bytes × Bytes)) (q : Request) (filename name root : Bytes)
    → lookup http_proxy (own_params split q filename name root) ≡ none
unfolding own_params lookup same_bytes
proxy-own_params split q filename name root =
    lookup-put_if (not (ltb_ℤ q.content_length (pos 0))) "CONTENT_LENGTH" _ http_proxy _ refl
    ∙ lookup-put_if (not (is_empty q.content_type)) "CONTENT_TYPE" _ http_proxy _ refl
    ∙ lookup-put_if q.tls "HTTPS" _ http_proxy _ refl
    ∙ proxy-put_server q.tls q.host (split q.host) _
    ∙ proxy-put_remote q.remote_addr (split q.remote_addr) _
    ∙ proxy-put_path_info q.path name root _

lookup-below :
    (n v k : Bytes) (ps qs : Params)
    → lookup k ps ≡ lookup k qs
    → lookup k ((n, v) ∷ ps) ≡ lookup k ((n, v) ∷ qs)
unfolding lookup
lookup-below n v k ps qs e = ap (λ o. if same_bytes n k then some v else o) e

no_headers : (ps : Params) → put_headers [] ps ≡ ps
unfolding put_headers
no_headers ps = refl

own_params_of :
    (split : Bytes → Option (Bytes × Bytes)) (q : Request) (filename name root : Bytes)
    → own_params split q filename name root
      ≡ own_params split (record q { headers = [] }) filename name root
unfolding own_params
own_params_of split q filename name root = refl

last_set :
    (ps : Params)
    → lookup http_proxy (set "REDIRECT_STATUS" (bytes "200") ps) ≡ lookup http_proxy ps
unfolding lookup same_bytes
last_set ps = refl

-- Whatever headers are walked: each variable whose name does not begin with HTTP_ has the value that it
-- has if none is, and HTTP_PROXY is not set.
pub lookup-build_params :
    (split : Bytes → Option (Bytes × Bytes)) (q : Request) (filename name root : Bytes)
    → ((k : Bytes)
        → has_prefix k (bytes "HTTP_") ≡ false
        → lookup k (build_params split q filename name root)
          ≡ lookup k (build_params split (record q { headers = [] }) filename name root))
      × (lookup (bytes "HTTP_PROXY") (build_params split q filename name root) ≡ none)
unfolding build_params
lookup-build_params split q filename name root =
    let own = own_params split q filename name root in
    let bare = own_params split (record q { headers = [] }) filename name root in
    (
      λ k h.
          lookup-below (bytes "REDIRECT_STATUS") (bytes "200") k (put_headers q.headers own)
            (put_headers [] bare)
            (lookup-put_headers q.headers own k h
              ∙ ap (lookup k) (own_params_of split q filename name root ∙ sym (no_headers bare))),
      last_set (put_headers q.headers own)
          ∙ proxy-put_headers q.headers own (proxy-own_params split q filename name root),
    )
