-- ===== src/Gateway/Forwarded/Client.antt =====
-- Which address is taken for the client's.
use mathlib.Core.Path.{subst}
use go_php.Prelude.{
  ◌≤◌, ◌≡◌, refl, Option, none, some, List, [], ◌∷◌, ◌++◌, Bool, true, false, ltb, All, arith,
  length, length-drop, inl, inr, Bool-cases, ap, sym, ◌-◌,
}
use go_php.Prelude.Bytes.{Bytes, is_empty}
use go_php.Gateway.Forwarded.{
  Library, TrustedProxyConfig, is_trusted, limited, or_this, last_untrusted, first_unless, walk,
  peer_of, valid_ips, split_byte, chain, client_ip,
}

module _ (lib : Library) (cfg : TrustedProxyConfig) where
  -- What is taken for the client of a peer with a chain of entries.
  pub data Client (peer : Bytes) : List Bytes → Bytes → Type 0 where
    -- The peer, if it is not trusted, or there is no entry.
    unknown : (ips : List Bytes) → is_trusted lib cfg peer ≡ false → Client peer ips peer
    direct : is_trusted lib cfg peer ≡ true → Client peer [] peer
    -- The last entry that is not trusted.
    reported :
        (before : List Bytes) (ip : Bytes) (after : List Bytes)
        → is_trusted lib cfg peer ≡ true
        → is_trusted lib cfg ip ≡ false
        → All (λ x. is_trusted lib cfg x ≡ true) after
        → Client peer (before ++ ip ∷ after) ip
    -- The first entry, if all are trusted.
    inner :
        (ip : Bytes) (ips : List Bytes)
        → All (λ x. is_trusted lib cfg x ≡ true) (peer ∷ ip ∷ ips)
        → Client peer (ip ∷ ips) ip

  -- What the walk finds.
  abbrev Found : List Bytes → Option Bytes → Type 0
  Found ips none = All (λ x. is_trusted lib cfg x ≡ true) ips
  Found ips (some ip) =
      (before : List Bytes) × (after : List Bytes) × (ips ≡ before ++ ip ∷ after)
      × (is_trusted lib cfg ip ≡ false)
      × All (λ x. is_trusted lib cfg x ≡ true) after

  or_this-Found :
      (b : Bool) (ip : Bytes) (ips : List Bytes) (o : Option Bytes)
      → is_trusted lib cfg ip ≡ b
      → Found ips o
      → Found (ip ∷ ips) (or_this b ip o)
  or_this-Found b ip ips (some later) e (before, after, eq, out, all) =
      (ip ∷ before, after, ap (λ l. ip ∷ l) eq, out, all)
  or_this-Found true ip ips none e all = (e, all)
  or_this-Found false ip ips none e all = ([], ips, refl, e, all)

  last_untrusted-Found : (ips : List Bytes) → Found ips (last_untrusted lib cfg ips)
  unfolding last_untrusted
  last_untrusted-Found [] = tt
  last_untrusted-Found (ip ∷ ips) =
      or_this-Found (is_trusted lib cfg ip) ip ips (last_untrusted lib cfg ips) refl
        (last_untrusted-Found ips)

  first_unless-Client :
      (peer ip : Bytes) (ips : List Bytes) (o : Option Bytes)
      → is_trusted lib cfg peer ≡ true
      → Found (ip ∷ ips) o
      → Client peer (ip ∷ ips) (first_unless ip o)
  first_unless-Client peer ip ips none known all = inner ip ips (known, all)
  first_unless-Client peer ip ips (some found) known (before, after, eq, out, all) =
      subst (λ l. Client peer l found) (sym eq) (reported before found after known out all)

  walk-Client :
      (peer : Bytes) (ips : List Bytes)
      → is_trusted lib cfg peer ≡ true
      → Client peer ips (walk lib cfg peer ips)
  walk-Client peer [] known = direct known
  walk-Client peer (ip ∷ ips) known =
      first_unless-Client peer ip ips (last_untrusted lib cfg (ip ∷ ips)) known
        (last_untrusted-Found (ip ∷ ips))

  length-limited-le : (ips : List Bytes) → length (limited cfg.max_chain ips) ≤ cfg.max_chain
  length-limited-le ips = elim (Bool-cases (ltb cfg.max_chain (length ips))) [
    | inl long ↦ rw long (omega (arith, length-drop (length ips - cfg.max_chain) ips))
    | inr short ↦ rw short (ground arith)
  ]

  length-chain-le : (forwarded : Bytes) → length (chain lib cfg forwarded) ≤ cfg.max_chain
  unfolding chain
  length-chain-le forwarded = elim (Bool-cases (is_empty forwarded)) [
    | inl missing ↦ rw missing (omega arith)
    | inr given ↦ rw given (length-limited-le (valid_ips lib (split_byte b',' forwarded)))
  ]

-- Whatever a request says: a peer that is not trusted, or that forwards no address, is the client
-- itself; else the client is the last entry of the chain that is not trusted, or its first if all are;
-- and the chain has no more entries than its limit.
pub client_ip-Client :
    (lib : Library) (cfg : TrustedProxyConfig) (remote forwarded : Bytes)
    → Client lib cfg
        (peer_of lib remote)
        (chain lib cfg forwarded)
        (client_ip lib cfg remote forwarded)
      × (length (chain lib cfg forwarded) ≤ cfg.max_chain)
unfolding client_ip
client_ip-Client lib cfg remote forwarded = (
  elim (Bool-cases (is_trusted lib cfg (peer_of lib remote))) [
    | inl known ↦
        rw known (walk-Client lib cfg (peer_of lib remote) (chain lib cfg forwarded) known)
    | inr other ↦ rw other (unknown (chain lib cfg forwarded) other)
  ],
  length-chain-le lib cfg forwarded,
)
