-- ===== src/Witnesses/Requests.antt =====
-- The connection pool, and what a script is told and answers, at concrete inputs.
use go_php.Prelude.{
  ◌≡◌, ◌≤◌, refl, [], ◌∷◌, ◌++◌, false, true, none, Bool, some, arith, length, ◌==◌, if◌then◌else◌,
}
use go_php.Prelude.Bytes.{Bytes, bytes, cut_at, has_prefix}
use go_php.Gateway.CgiParams as CgiParams
use go_php.Gateway.CgiParams.{lookup, build_params}
use go_php.Gateway.CgiParams.Protected.{lookup-build_params}
use go_php.Gateway.Forwarded as Forwarded
use go_php.Gateway.Forwarded.{
  TrustedProxyConfig, peer_of, chain, client_ip, is_trusted, split_byte, valid_ips, last_untrusted,
}
use go_php.Gateway.Forwarded.Client.{Client, client_ip-Client}
use go_php.Gateway.Cgi as Cgi
use go_php.Gateway.Cgi.{
  Response, responds, parse_response, cut_headers, split_lines, parse_lines, parse_header_line,
  name_control, value_control, same_name, parse_status_line,
}
use go_php.Gateway.Cgi.Accepted.{IsAccepted, parse_response-IsAccepted}
use go_php.Prelude.Int.{pos, negsuc}
use go_php.Gateway.FastCgi.Pool.{PoolConfig, new_pool, reserve, sweep, put, close}
use go_php.Gateway.FastCgi.Pool.Moves.{
  World, new_world, after_reserve, after_put, Moves, reserved, connected, returned, shut_down,
  still, then_move,
}
use go_php.Gateway.FastCgi.Pool.Accounts.{Accounts}
use go_php.Gateway.FastCgi.Pool.Safe.{Moves-Accounted}

-- A pool of one connection: a call dials it, a second is refused, the pool is closed, and the
-- connection comes back.
abbrev one_connection : PoolConfig
one_connection = record { max_idle = pos 0; max_active = pos 1; idle_timeout = negsuc 0 }

abbrev asked : World → World
asked w = after_reserve w (reserve 5 w.pool)

abbrev served : World → World
served w = record w { dialling = 0; lent = 7 ∷ []; made = 7 ∷ w.made }

abbrev shut : World → World
shut w = after_put w w.lent (close w.pool)

abbrev given_back : World → World
given_back w = after_put w [] (put 9 7 false w.pool)

abbrev before_return : World
before_return = shut (asked (served (asked (new_world one_connection))))

-- The count of a closed pool is below zero.
below_zero : (given_back before_return).pool.active_count ≡ negsuc 0
unfolding new_pool reserve sweep put close
below_zero = refl

closes_in_use : Moves (new_world one_connection) (given_back before_return)
unfolding new_pool reserve sweep put close
closes_in_use =
    let w0 = new_world one_connection in
    let w1 = asked w0 in
    let w2 = served w1 in
    let w3 = asked w2 in
    then_move w0 before_return (given_back before_return)
      (then_move w0 w3 before_return
        (then_move w0 w2 w3
          (then_move w0 w1 w2 (then_move w0 w0 w1 (still w0) (reserved w0 5))
            (connected w1 0 7 refl refl))
          (reserved w2 5))
        (shut_down w3))
      (returned before_return [] [] 9 7 false refl)

Moves-Accounted_example : Accounts 10 1 (given_back before_return)
Moves-Accounted_example = Moves-Accounted one_connection (given_back before_return) closes_in_use

abbrev trim_left : Bytes → Bytes
trim_left [] = []
trim_left (b ∷ s) = if b == b' ' then s else b ∷ s

trim_left-le : (s : Bytes) → length (trim_left s) ≤ length s
trim_left-le [] = omega arith
trim_left-le (b ∷ s) = ground arith

abbrev cgi_library : Cgi.Library
cgi_library = record { trim_space = trim_left; atoi = λ s. some (pos 404) }

-- Two headers and a body of two bytes.
abbrev written : Bytes
written = bytes "Status: 404" ++ 13 ∷ 10 ∷ bytes "A: b" ++ 13 ∷ 10 ∷ 13 ∷ 10 ∷ bytes "hi"

abbrev read : Response
read = record { status_code = pos 404; headers = (bytes "A", bytes "b") ∷ []; body = bytes "hi" }

reads_written : parse_response cgi_library written ≡ responds read
unfolding parse_response cut_headers split_lines parse_lines parse_header_line cut_at name_control
    value_control same_name parse_status_line
reads_written = refl

parse_response-IsAccepted_example : IsAccepted written read
parse_response-IsAccepted_example =
    parse_response-IsAccepted cgi_library trim_left-le written read reads_written

-- A request with a header that would set a proxy.
abbrev with_proxy : CgiParams.Request
with_proxy = record {
  version = [];
  proto = bytes "HTTP/1.1";
  method = bytes "GET";
  request_uri = bytes "/i.php";
  path = bytes "/i.php";
  raw_query = [];
  remote_addr = bytes "1.2.3.4:5";
  host = bytes "h";
  tls = false;
  content_type = [];
  content_length = pos 0;
  headers = (bytes "Proxy", bytes "evil" ∷ []) ∷ (bytes "X-A", bytes "b" ∷ []) ∷ [];
}

lookup-build_params_example :
    ((k : Bytes)
      → has_prefix k (bytes "HTTP_") ≡ false
      → lookup k
          (build_params (λ s. none) with_proxy (bytes "/w/i.php") (bytes "/i.php") (bytes "/w"))
        ≡ lookup k (
            build_params
              (λ s. none)
              (record with_proxy { headers = [] })
              (bytes "/w/i.php")
              (bytes "/i.php")
              (bytes "/w")))
    × (lookup
          (bytes "HTTP_PROXY")
          (build_params (λ s. none) with_proxy (bytes "/w/i.php") (bytes "/i.php") (bytes "/w"))
        ≡ none)
lookup-build_params_example =
    lookup-build_params (λ s. none) with_proxy (bytes "/w/i.php") (bytes "/i.php") (bytes "/w")

-- Every text is its own address, and those that begin with a 9 are proxies.
abbrev begins_9 : Bytes → Bool
begins_9 [] = false
begins_9 (b ∷ s) = b == b'9'

abbrev net_library : Forwarded.Library
net_library = record {
  trim_space = trim_left;
  parse_ip = λ s. some s;
  is_v4 = λ s. true;
  parse_cidr = λ s. some begins_9;
  split_host_port = λ s. none;
}

abbrev proxies : TrustedProxyConfig
proxies = record { trusted_nets = begins_9 ∷ []; max_chain = 3 }

client_ip-Client_example :
    Client net_library proxies
      (peer_of net_library (bytes "9.1"))
      (chain net_library proxies (bytes "6.6, 7.7, 9.2"))
      (client_ip net_library proxies (bytes "9.1") (bytes "6.6, 7.7, 9.2"))
    × (length (chain net_library proxies (bytes "6.6, 7.7, 9.2")) ≤ 3)
client_ip-Client_example =
    client_ip-Client net_library proxies (bytes "9.1") (bytes "6.6, 7.7, 9.2")

finds_client : client_ip net_library proxies (bytes "9.1") (bytes "6.6, 7.7, 9.2") ≡ bytes "7.7"
unfolding client_ip chain is_trusted split_byte valid_ips last_untrusted
finds_client = refl
