-- ===== src/Config/Checks.antt =====
-- The tests that `Load` (config/config.go) makes on values, and the parts that need no call of the
-- system.
use retry_endpoint.Config.Address.{AddrPort, has_to4, has_to16, is_loopback, is_mapped}
use retry_endpoint.Config.Flags.{IngressFlags}
use retry_endpoint.Config.Parts.{Backend, BitsConfig, SsmConfig, CacheConfig}
use retry_endpoint.Config.Result.{LoadError, Result, ok, ◌>>◌, check}
use retry_endpoint.Config.Text.{Text, runes, same, is_empty}
use retry_endpoint.ControlGroup.{Compat, ScopeName, BeaconScope, Prefixes}
use retry_endpoint.Prelude.{
  ℕ, ◌^◌, Bool, true, false, ◌&&◌, not, Option, none, some, List, [], ◌∷◌, leb, ◌==◌, if◌then◌else◌,
  length,
}
use retry_endpoint.Prelude.Bytes.{Bytes}
use retry_endpoint.Prelude.Int.{not_positive}
use retry_endpoint.Proxy.{Ttls}

-- The widths of the shard and of the BEEF plane.
unfoldable pub check_bits : IngressFlags → Result BitsConfig
check_bits f = do
  check (leb 1 f.shard_bits && leb f.shard_bits 12) LoadError.shard_bits_range
  check (leb f.beef_bits 12) LoadError.beef_bits_range
  ok record { shard_bits = f.shard_bits; beef_bits = f.beef_bits; num_groups = 2 ^ f.shard_bits }

-- The key of the table `Scopes` that a text is.
unfoldable pub scope_name : Text → ScopeName
scope_name s =
    if same s (runes "link")
    then ScopeName.link
    else if same s (runes "site")
    then ScopeName.site
    else if same s (runes "org")
    then ScopeName.org
    else if same s (runes "global")
    then ScopeName.global
    else ScopeName.other

-- `net.ParseIP` of a text gives an IPv6 address.
unfoldable pub is_ipv6 : Option Bytes → Bool
is_ipv6 none = false
is_ipv6 (some ip) = not (has_to4 ip)

-- An address that `Load` accepts for -nack-addr.
unfoldable pub is_nack_addr : Option Bytes → Bool
is_nack_addr none = false
is_nack_addr (some ip) = has_to16 ip && not (has_to4 ip)

-- A bootstrap list of the four.
unfoldable pub has_sources : SsmConfig → Bool
has_sources c = not (
    length c.manifest == 0
    && length c.beacon == 0
    && length c.subtree_announce == 0
    && length c.publishers == 0)

unfoldable pub parse_backend : Text → Option Backend
parse_backend s =
    if same s (runes "memory")
    then some Backend.memory
    else if same s (runes "redis")
    then some Backend.redis
    else if same s (runes "aerospike")
    then some Backend.aerospike
    else none

-- The checks of redis-addr and of aerospike-hosts.
unfoldable pub backend_configured : CacheConfig → Result (Unit {0})
backend_configured c = elim c.backend [
  | Backend.memory ↦ ok tt
  | Backend.redis ↦ check (not (is_empty c.redis_addr)) LoadError.no_redis_addr
  | Backend.aerospike ↦ check (not (length c.aero_hosts == 0)) LoadError.no_aerospike_hosts
]

-- Whether the loop over the TTLs finds none that is not positive.
unfoldable pub ttls_positive : Ttls → Bool
ttls_positive t =
    not (not_positive t.tx)
    && not (not_positive t.block)
    && not (not_positive t.subtree)
    && not (not_positive t.anchor)
    && not (not_positive t.beef)

unfoldable pub parse_beacon_scope : Text → Option (BeaconScope × ℕ)
parse_beacon_scope s =
    if same s (runes "site")
    then some (BeaconScope.site, 0x05)
    else if same s (runes "org")
    then some (BeaconScope.org, 0x08)
    else if same s (runes "global")
    then some (BeaconScope.global, 0x0E)
    else if same s (runes "both")
    then some (BeaconScope.both, 0xFF)
    else if same s (runes "all")
    then some (BeaconScope.all, 0xFF)
    else none

-- The switch over a trimmed text in lower case.
unfoldable pub parse_compat : Text → Option Compat
parse_compat s =
    if same s (runes "asm-only")
    then some Compat.asm_only
    else if same s (runes "both")
    then some Compat.both
    else if same s (runes "derived")
    then some Compat.derived
    else none

-- Every entry of the upstream list has a host and a port.
unfoldable pub all_texts : (Text → Bool) → List Text → Bool
all_texts p [] = true
all_texts p (s ∷ ss) = p s && all_texts p ss

unfoldable pub is_ok : Prefixes → Bool
is_ok (Prefixes.ok ps) = true
is_ok (Prefixes.error e) = false

unfoldable pub tee_checks : AddrPort → Result (Option AddrPort)
tee_checks ap = do
  check (is_loopback ap.addr && not (length ap.addr == 4) && not (is_mapped ap.addr))
      LoadError.tee_not_loopback
  check (not (ap.port == 0)) LoadError.tee_without_port
  ok (some ap)
