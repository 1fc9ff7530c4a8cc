-- ===== src/Gateway/Policy/Network.antt =====
-- internal/policy/network.go: where connections may go. A range is the test of the addresses in it.
use go_php.Prelude.{
  Option, none, some, List, [], ◌∷◌, ◌++◌, Bool, true, false, not, ◌&&◌, ◌||◌, if◌then◌else◌,
}
use go_php.Prelude.Bytes.{Bytes, bytes, same_bytes}

pub record NetLibrary : Type 0 where
  pub equal : Bytes → Bytes → Bool
  pub is_loopback : Bytes → Bool
  pub parse_cidr : Bytes → Option (Bytes → Bool)

pub record NetworkPolicy : Type 0 where
  pub allow_list : Option (List Bytes)
  pub deny_private : Bool
  pub deny_loopback : Bool
  pub deny_ranges : List (Bytes → Bool)

abbrev pub new_network_policy : NetworkPolicy
new_network_policy = record {
  allow_list = none;
  deny_private = true;
  deny_loopback = false;
  deny_ranges = [];
}

abbrev pub set_allow_list : Option (List Bytes) → NetworkPolicy → NetworkPolicy
set_allow_list ips p = record p { allow_list = ips }

abbrev pub set_deny_private : Bool → NetworkPolicy → NetworkPolicy
set_deny_private b p = record p { deny_private = b }

-- The range is added if it can be read.
abbrev pub add_denied_range : NetLibrary → Bytes → NetworkPolicy → NetworkPolicy × Bool
add_denied_range lib cidr p = elim (lib.parse_cidr cidr) [
  | none ↦ (p, false)
  | some range ↦ (record p { deny_ranges = p.deny_ranges ++ range ∷ [] }, true)
]

abbrev pub is_listed : NetLibrary → Bytes → List Bytes → Bool
is_listed lib ip [] = false
is_listed lib ip (x ∷ xs) = lib.equal x ip || is_listed lib ip xs

abbrev pub may_reach : NetLibrary → Bytes → Option (List Bytes) → Bool
may_reach lib ip none = true
may_reach lib ip (some xs) = is_listed lib ip xs

abbrev pub in_ranges : Bytes → List (Bytes → Bool) → Bool
in_ranges ip [] = false
in_ranges ip (range ∷ rest) = range ip || in_ranges ip rest

abbrev pub private_ranges : List Bytes
private_ranges =
    bytes "10.0.0.0/8"
    ∷ bytes "172.16.0.0/12"
    ∷ bytes "192.168.0.0/16"
    ∷ bytes "127.0.0.0/8"
    ∷ bytes "169.254.0.0/16"
    ∷ bytes "::1/128"
    ∷ bytes "fc00::/7"
    ∷ bytes "fe80::/10"
    ∷ []

-- A constant that could not be read would be a nil network, which has no address.
abbrev pub in_cidr : Option (Bytes → Bool) → Bytes → Bool
in_cidr none ip = false
in_cidr (some range) ip = range ip

abbrev pub in_cidrs : NetLibrary → Bytes → List Bytes → Bool
in_cidrs lib ip [] = false
in_cidrs lib ip (c ∷ cs) = in_cidr (lib.parse_cidr c) ip || in_cidrs lib ip cs

abbrev pub is_private_ip : NetLibrary → Bytes → Bool
is_private_ip lib ip = in_cidrs lib ip private_ranges

-- The reason for which an address is blocked, if it is.
unfoldable pub check_ip : NetLibrary → NetworkPolicy → Bytes → Option Bytes
check_ip lib p ip =
    if not (may_reach lib ip p.allow_list)
    then some (bytes "not in allowlist")
    else if p.deny_loopback && lib.is_loopback ip
    then some (bytes "loopback blocked")
    else if p.deny_private && is_private_ip lib ip
    then some (bytes "private IP blocked")
    else if in_ranges ip p.deny_ranges
    then some (bytes "IP in denied range")
    else none

pub record Detector : Type 0 where
  pub resolved_ips : List (Bytes × List Bytes)
  pub allowed_hosts : List Bytes

abbrev pub resolved : Bytes → List (Bytes × List Bytes) → Option (List Bytes)
resolved host [] = none
resolved host ((h, ips) ∷ rest) =
    let later = resolved host rest in if same_bytes h host then some ips else later

-- The newest entry of a host is the one that is found.
abbrev pub record_resolution : Bytes → List Bytes → Detector → Detector
record_resolution host ips d = record d { resolved_ips = (host, ips) ∷ d.resolved_ips }

unfoldable pub check_rebinding : NetLibrary → Detector → Bytes → Bytes → Bool
check_rebinding lib d host ip = elim (resolved host d.resolved_ips) [
  | none ↦ true
  | some previous ↦ is_listed lib ip previous
]

abbrev pub allow_host : Bytes → Detector → Detector
allow_host host d = record d { allowed_hosts = host ∷ d.allowed_hosts }

abbrev pub is_allowed_host : Bytes → List Bytes → Bool
is_allowed_host host [] = false
is_allowed_host host (h ∷ hs) = same_bytes h host || is_allowed_host host hs
