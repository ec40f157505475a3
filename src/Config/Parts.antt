-- ===== src/Config/Parts.antt =====
-- `Config` (config/config.go), by the part of the program that reads its fields.
use retry_endpoint.Config.Address.{AddrPort}
use retry_endpoint.Config.Flags.{LogFlags}
use retry_endpoint.Config.Text.{Text}
use retry_endpoint.ControlGroup.{Compat, BeaconScope}
use retry_endpoint.Prelude.{ℕ, Bool, Option, List}
use retry_endpoint.Prelude.Int.{ℤ}
use retry_endpoint.Proxy.{Ttls}
use retry_endpoint.RateLimit.Tiers
use retry_endpoint.RateLimit.Tiers.{Runtime}

-- The values of -cache-backend that `Load` accepts.
pub data Backend : Type 0 where
  memory redis aerospike : Backend

pub record BitsConfig : Type 0 where
  pub shard_bits : ℕ
  pub beef_bits : ℕ
  pub num_groups : ℕ

-- `ssm` tells whether SourceMode is "ssm".
pub record SsmConfig : Type 0 where
  pub ssm : Bool
  pub mc_prefix : ℕ
  pub bind_source : Text
  pub manifest : List Text
  pub beacon : List Text
  pub subtree_announce : List Text
  pub publishers : List Text
  pub refresh : ℤ

-- `tee_listen` is `none` for the zero AddrPort.
pub record IngressConfig : Type 0 where
  pub mc_iface : Text
  pub listen_port : ℤ
  pub tee_listen : Option AddrPort
  pub mc_join_enabled : Bool
  pub workers : ℤ
  pub recv_buf : ℤ
  pub queue_depth : ℤ
  pub procs : ℤ
  pub beef_enabled : Bool
  pub subtree_data : Bool

pub record CacheConfig : Type 0 where
  pub backend : Backend
  pub redis_addr : Text
  pub aero_hosts : List Text
  pub aero_namespace : Text
  pub aero_set : Text
  pub dial_timeout : ℤ
  pub op_timeout : ℤ
  pub max_keys : ℤ
  pub max_bytes : ℤ

pub record ServerConfig : Type 0 where
  pub nack_port : ℤ
  pub nack_workers : ℤ
  pub egress_ifaces : List Text
  pub egress_port : ℤ
  pub dedup_window : ℤ
  pub multicast_loop : Bool
  pub suppress_ack : Bool
  pub suppress_miss : Bool
  pub throttle_response : Bool
  pub drain_timeout : ℤ

pub record ProxyConfig : Type 0 where
  pub enabled : Bool
  pub upstreams : List Text
  pub timeout : ℤ
  pub max_endpoints : ℤ
  pub dedup_window : ℤ
  pub workers : ℤ
  pub queue_depth : ℤ

pub record BeaconConfig : Type 0 where
  pub enabled : Bool
  pub tier : ℕ
  pub preference : ℕ
  pub interval : ℤ
  pub scope : BeaconScope
  pub scope_byte : ℕ
  pub compat : Compat
  pub unicast : Bool
  pub multicast : Bool
  pub draining : Bool
  pub nack_addr : Text

pub record Config (rt : Runtime) : Type 0 where
  pub bits : BitsConfig
  pub ssm : SsmConfig
  pub group_id : ℕ
  pub ingress : IngressConfig
  pub cache : CacheConfig
  pub ttls : Ttls
  pub server : ServerConfig
  pub proxy : ProxyConfig
  pub rates : Tiers.Config rt
  pub beacon : BeaconConfig
  pub log : LogFlags rt
