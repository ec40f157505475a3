-- ===== src/Startup/Identity.antt =====
-- What the endpoint says of itself (main.go, `hashInstanceID`, `pickBeaconNACKAddr` and the beacon's
-- configuration in `run`). crc32, net.ParseIP and the interface's addresses are parameters.
use retry_endpoint.Beacon
use retry_endpoint.Config.Address.{has_to4, is_zeros}
use retry_endpoint.Config.Parts.{Config}
use retry_endpoint.Config.Text.{Text, is_empty}
use retry_endpoint.Prelude.{
  ℕ, ◌+◌, ◌-◌, ◌/◌, ◌%◌, Bool, ◌&&◌, not, Option, none, some, List, [], ◌∷◌, ◌++◌, ◌==◌, length,
  get_or, replicate, if◌then◌else◌,
}
use retry_endpoint.Prelude.Bytes.{Bytes}
use retry_endpoint.Prelude.Int.{ℤ, pos, negsuc, to_ℕ}
use retry_endpoint.RateLimit.Tiers.{Runtime}

-- `hashInstanceID`, with `crc` for the CRC-32C of the name.
unfoldable pub hash_instance_id : (Text → ℕ) → Text → ℕ
hash_instance_id crc s = let h = crc s in if h == 0 then 1 else h

-- `ip.To16()` of a 16-byte address is the address; of 4 bytes, it is mapped into IPv6.
unfoldable pub to16 : Bytes → Option Bytes
to16 ip =
    if length ip == 16
    then some ip
    else if length ip == 4
    then some (replicate 10 0 ++ (0xFF ∷ 0xFF ∷ ip))
    else none

-- `ip.IsLinkLocalUnicast()` of 16 bytes.
unfoldable pub is_link_local : Bytes → Bool
is_link_local ip = get_or ip 0 0 == 0xFE && get_or ip 1 0 / 64 == 2

-- `ip.IsGlobalUnicast()` of an address that is not one of IPv4.
unfoldable pub is_global_unicast : Bytes → Bool
is_global_unicast ip =
    length ip == 16
    && not (is_zeros 16 ip)
    && not (is_zeros 15 ip && get_or ip 15 0 == 1)
    && not (get_or ip 0 0 == 0xFF)
    && not (is_link_local ip)

-- The loop over the addresses of the interface; `none` is an address without an IP.
unfoldable pub first_global : List (Option Bytes) → Option Bytes
first_global [] = none
first_global (none ∷ addrs) = first_global addrs
first_global (some ip ∷ addrs) =
    let rest = first_global addrs in
    if has_to4 ip
    then rest
    else if is_global_unicast ip && not (is_link_local ip)
    then to16 ip
    else rest

-- `if ip == nil { return nil, … }; return ip.To16(), nil`
abbrev pub explicit_addr : Option Bytes → Option Bytes
explicit_addr none = none
explicit_addr (some ip) = to16 ip

-- `pickBeaconNACKAddr`, with what `iface.Addrs` returns, `none` for its error. The result is `none`
-- for an error.
unfoldable pub pick_nack_addr :
    (Text → Option Bytes) → Text → Option (List (Option Bytes)) → Option Bytes
pick_nack_addr parse_ip explicit addrs =
    if not (is_empty explicit)
    then explicit_addr (parse_ip explicit)
    else elim addrs [ none ↦ none | some found ↦ first_global found ]

-- The flags of the ADVERT, whose bits are apart, so that `|=` is an addition.
unfoldable pub beacon_flag_bits : Bool → Bool → Bool → Bool → ℕ
beacon_flag_bits unicast multicast draining proxied =
    (if unicast then 0x0008 else 0)
    + (if multicast then 0x0010 else 0)
    + (if draining then 0x0004 else 0)
    + (if proxied then 0x0002 else 0)

-- `uint16(n)`
unfoldable pub to_uint16 : ℤ → ℕ
to_uint16 (pos n) = n % 65536
to_uint16 (negsuc n) = 65535 - n % 65536

-- The name that is hashed: InstanceID, else what os.Hostname returns, else the empty name.
unfoldable pub host_name : Text → Option Text → Text
host_name instance hostname =
    if is_empty instance then elim hostname [ none ↦ [] | some h ↦ h ] else instance

-- `beacon.Config` in `run`, from the picked address and the resolved prefixes.
unfoldable pub beacon_config :
    {rt : Runtime} → Config rt → (Text → ℕ) → Option Text → Bytes → List ℕ → Beacon.Config
beacon_config cfg crc hostname nack_ip prefixes = record {
  nack_addr = some nack_ip;
  nack_port = to_uint16 cfg.server.nack_port;
  tier = cfg.beacon.tier % 256;
  preference = cfg.beacon.preference % 256;
  interval = to_ℕ cfg.beacon.interval;
  scope = cfg.beacon.scope_byte;
  flags =
      beacon_flag_bits cfg.beacon.unicast cfg.beacon.multicast cfg.beacon.draining
        cfg.proxy.enabled;
  instance_id = hash_instance_id crc (host_name cfg.log.instance_id hostname);
  group_id = cfg.group_id;
  group_prefixes = prefixes;
}
