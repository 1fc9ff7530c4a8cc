-- ===== src/Gateway/Forwarded.antt =====
-- internal/observability/forwarded.go: the address of a client behind trusted proxies. What the package
-- net makes of texts, and strings.TrimSpace, are parameters; a network is the test of its addresses.
pub mod Client
use go_php.Prelude.{
  ℕ, ◌-◌, Option, none, some, List, [], ◌∷◌, ◌++◌, Bool, true, false, ◌||◌, ltb, ◌==◌, drop, length,
  if◌then◌else◌,
}
use go_php.Prelude.Int.{ℤ, limit_or}
use go_php.Prelude.Bytes.{Bytes, bytes, includes_bytes, is_empty}
use go_php.Gateway.Path.{prepend}

-- `split_host_port` gives the host.
pub record Library : Type 0 where
  pub trim_space : Bytes → Bytes
  pub parse_ip : Bytes → Option Bytes
  pub is_v4 : Bytes → Bool
  pub parse_cidr : Bytes → Option (Bytes → Bool)
  pub split_host_port : Bytes → Option Bytes

pub record TrustedProxyConfig : Type 0 where
  pub trusted_nets : List (Bytes → Bool)
  pub max_chain : ℕ

-- An entry as a range: an address gets the length of its kind.
abbrev pub as_range : Library → Bytes → Option Bytes
as_range lib raw = if includes_bytes raw (bytes "/") then some raw else elim (lib.parse_ip raw) [
  | none ↦ none
  | some ip ↦ some (raw ++ (if lib.is_v4 ip then bytes "/32" else bytes "/128"))
]

abbrev pub network_of : Library → Option Bytes → Option (Bytes → Bool)
network_of lib none = none
network_of lib (some range) = lib.parse_cidr range

abbrev pub put_network :
    Option (Bytes → Bool) → Option (List (Bytes → Bool)) → Option (List (Bytes → Bool))
put_network none rest = none
put_network (some n) none = none
put_network (some n) (some ns) = some (n ∷ ns)

unfoldable pub parse_networks : Library → List Bytes → Option (List (Bytes → Bool))
parse_networks lib [] = some []
parse_networks lib (entry ∷ entries) =
    let rest = parse_networks lib entries in
    let raw = lib.trim_space entry in
    if is_empty raw then rest else put_network (network_of lib (as_range lib raw)) rest

abbrev pub new_config : Library → List Bytes → ℤ → Option TrustedProxyConfig
new_config lib entries max = elim (parse_networks lib entries) [
  | none ↦ none
  | some ns ↦ some (record { trusted_nets = ns; max_chain = limit_or 5 max })
]

abbrev pub in_networks : List (Bytes → Bool) → Bytes → Bool
in_networks [] ip = false
in_networks (n ∷ ns) ip = n ip || in_networks ns ip

abbrev pub host_ip : Library → Option Bytes → Option Bytes
host_ip lib none = none
host_ip lib (some host) = lib.parse_ip host

abbrev pub peer_ip : Library → Bytes → Option Bytes
peer_ip lib peer = elim (lib.parse_ip peer) [
  | some ip ↦ some ip
  | none ↦ host_ip lib (lib.split_host_port peer)
]

abbrev pub holds_ip : List (Bytes → Bool) → Option Bytes → Bool
holds_ip ns none = false
holds_ip ns (some ip) = in_networks ns ip

unfoldable pub is_trusted : Library → TrustedProxyConfig → Bytes → Bool
is_trusted lib cfg peer = holds_ip cfg.trusted_nets (peer_ip lib peer)

-- strings.Split at a byte.
unfoldable pub split_byte : ℕ → Bytes → List Bytes
split_byte sep [] = [] ∷ []
split_byte sep (b ∷ bs) =
    let rest = split_byte sep bs in if b == sep then [] ∷ rest else prepend b rest

abbrev pub keep_ip : Bytes → Option Bytes → List Bytes → List Bytes
keep_ip s none rest = rest
keep_ip s (some ip) rest = s ∷ rest

unfoldable pub valid_ips : Library → List Bytes → List Bytes
valid_ips lib [] = []
valid_ips lib (raw ∷ raws) =
    let s = lib.trim_space raw in keep_ip s (lib.parse_ip s) (valid_ips lib raws)

abbrev pub limited : ℕ → List Bytes → List Bytes
limited max ips = if ltb max (length ips) then drop (length ips - max) ips else ips

-- The walk from the last entry back to the first that is not trusted.
abbrev pub or_this : Bool → Bytes → Option Bytes → Option Bytes
or_this trusted ip (some later) = some later
or_this true ip none = none
or_this false ip none = some ip

unfoldable pub last_untrusted : Library → TrustedProxyConfig → List Bytes → Option Bytes
last_untrusted lib cfg [] = none
last_untrusted lib cfg (ip ∷ ips) = or_this (is_trusted lib cfg ip) ip (last_untrusted lib cfg ips)

abbrev pub first_unless : Bytes → Option Bytes → Bytes
first_unless first none = first
first_unless first (some ip) = ip

-- The second test for an empty chain is not in the code: with a limit of 0, which NewTrustedProxyConfig
-- never sets, it would index an empty slice.
abbrev pub walk : Library → TrustedProxyConfig → Bytes → List Bytes → Bytes
walk lib cfg peer [] = peer
walk lib cfg peer (ip ∷ ips) = first_unless ip (last_untrusted lib cfg (ip ∷ ips))

abbrev pub peer_of : Library → Bytes → Bytes
peer_of lib remote = elim (lib.split_host_port remote) [ none ↦ remote | some host ↦ host ]

-- The entries of X-Forwarded-For that count.
unfoldable pub chain : Library → TrustedProxyConfig → Bytes → List Bytes
chain lib cfg forwarded =
    if is_empty forwarded
    then []
    else limited cfg.max_chain (valid_ips lib (split_byte b',' forwarded))

-- The remote address and the header of a request.
unfoldable pub client_ip : Library → TrustedProxyConfig → Bytes → Bytes → Bytes
client_ip lib cfg remote forwarded =
    let peer = peer_of lib remote in
    if is_trusted lib cfg peer then walk lib cfg peer (chain lib cfg forwarded) else peer
