-- ===== src/Config/Flags.antt =====
-- The flags of `Load` (config/config.go) with their environment variables and defaults. What
-- flag.Parse reads from the command line is a parameter: per flag, the value that is set last. A
-- command line that does not parse exits the program. Durations are in nanoseconds.
use Prim.Native.String.{String}
use retry_endpoint.Config.Address.{AddrPort}
use retry_endpoint.Config.Text.{Text, is_empty}
use retry_endpoint.ControlGroup.{Shard}
use retry_endpoint.Prelude.{ℕ, ◌-◌, Bool, Option, none, some, if◌then◌else◌}
use retry_endpoint.Prelude.Bytes.{Bytes}
use retry_endpoint.Prelude.Int.{ℤ, pos, negsuc}
use retry_endpoint.Proxy.{Ttls}
use retry_endpoint.RateLimit.Tiers
use retry_endpoint.RateLimit.Tiers.{Runtime}

-- What `Load` calls of os, flag, strconv, time, net, netip, runtime and package shard.
pub record Platform (rt : Runtime) : Type 0 where
  pub getenv : String → Text
  pub text_flag : String → Option Text
  pub int_flag : String → Option ℤ
  pub uint_flag : String → Option ℕ
  pub bool_flag : String → Option Bool
  pub float_flag : String → Option rt.floats.Float
  pub duration_flag : String → Option ℤ
  pub parse_int : Text → Option ℤ
  pub parse_bool : Text → Option Bool
  pub parse_float : Text → Option rt.floats.Float
  pub parse_duration : Text → Option ℤ
  pub parse_ip : Text → Option Bytes
  pub parse_addr_port : Text → Option AddrPort
  pub is_host_port : Text → Bool
  pub has_interface : Text → Bool
  pub num_cpu : ℤ
  pub linux : Bool
  pub shard : Shard
  pub ssm_scope : Text → Option (Option ℕ)  -- ParseScope, then Prefix(SourceModeSSM, …)

abbrev pub or_default {ℓ} : {A : Type ℓ} → Option A → A → A
or_default none d = d
or_default (some a) d = a

-- `uint(n)`, on 64 bits.
unfoldable pub to_uint : ℤ → ℕ
to_uint (pos n) = n
to_uint (negsuc n) = 0xFFFFFFFFFFFFFFFF - n

pub record IngressFlags : Type 0 where
  pub mc_iface : Text
  pub listen_port : ℤ
  pub tee_listen : Text
  pub mc_join_enabled : Bool
  pub workers : ℤ
  pub recv_buf : ℤ
  pub queue_depth : ℤ
  pub procs : ℤ
  pub shard_bits : ℕ
  pub beef_enabled : Bool
  pub beef_bits : ℕ
  pub subtree_data : Bool

pub record ScopeFlags : Type 0 where
  pub scope : Text
  pub group_id : Text
  pub source_mode : Text
  pub bind_source : Text
  pub manifest : Text
  pub beacon : Text
  pub subtree_announce : Text
  pub publishers : Text
  pub refresh : ℤ

pub record CacheFlags : Type 0 where
  pub backend : Text
  pub redis_addr : Text
  pub aero_hosts : Text
  pub aero_namespace : Text
  pub aero_set : Text
  pub dial_timeout : ℤ
  pub op_timeout : ℤ
  pub ttl : ℤ
  pub ttls : Ttls
  pub max_keys : ℤ
  pub max_bytes : ℤ

pub record ServerFlags : Type 0 where
  pub nack_port : ℤ
  pub nack_workers : ℤ
  pub egress_ifaces : Text
  pub egress_port : ℤ
  pub dedup_window : ℤ
  pub multicast_loop : Bool
  pub suppress_ack : Bool
  pub suppress_miss : Bool
  pub throttle_response : Bool
  pub drain_timeout : ℤ

pub record ProxyFlags : Type 0 where
  pub enabled : Bool
  pub upstreams : Text
  pub timeout : ℤ
  pub max_endpoints : ℤ
  pub dedup_window : ℤ
  pub workers : ℤ
  pub queue_depth : ℤ

pub record BeaconFlags : Type 0 where
  pub enabled : Bool
  pub tier : ℕ
  pub preference : ℕ
  pub interval : ℤ
  pub scope : Text
  pub compat : Text
  pub unicast : Bool
  pub multicast : Bool
  pub draining : Bool
  pub nack_addr : Text

pub record LogFlags (rt : Runtime) : Type 0 where
  pub debug : Bool
  pub log_format : Text
  pub log_level : Text
  pub trace_sampling : rt.floats.Float
  pub metrics_addr : Text
  pub instance_id : Text
  pub otlp_endpoint : Text
  pub otlp_interval : ℤ

-- The values of all flags after flag.Parse, by the part of the program that reads them.
pub record Flags (rt : Runtime) : Type 0 where
  pub ingress : IngressFlags
  pub scope : ScopeFlags
  pub cache : CacheFlags
  pub server : ServerFlags
  pub proxy : ProxyFlags
  pub rates : Tiers.Config rt
  pub beacon : BeaconFlags
  pub log : LogFlags rt

module _ {rt : Runtime} (os : Platform rt) where
  -- `envStr`
  unfoldable pub env_str : String → Text → Text
  env_str key d = let v = os.getenv key in if is_empty v then d else v

  -- `envInt`, `envBool`, `envFloat` and `envDuration`, which differ in the parser.
  unfoldable pub env_parsed {ℓ} : {A : Type ℓ} → (Text → Option A) → String → A → A
  env_parsed parse key d = let v = os.getenv key in if is_empty v then d else or_default (parse v) d

  -- `flag.StringVar(…, name, envStr(key, d), …)`, and so for the other types.
  unfoldable pub text_var : String → String → Text → Text
  text_var name key d = or_default (os.text_flag name) (env_str key d)

  unfoldable pub int_var : String → String → ℤ → ℤ
  int_var name key d = or_default (os.int_flag name) (env_parsed os.parse_int key d)

  unfoldable pub uint_var : String → String → ℤ → ℕ
  uint_var name key d = or_default (os.uint_flag name) (to_uint (env_parsed os.parse_int key d))

  unfoldable pub bool_var : String → String → Bool → Bool
  bool_var name key d = or_default (os.bool_flag name) (env_parsed os.parse_bool key d)

  unfoldable pub float_var : String → String → ℕ → rt.floats.Float
  float_var name key d =
      or_default (os.float_flag name) (env_parsed os.parse_float key (rt.floats.from_ℕ d))

  unfoldable pub duration_var : String → String → ℕ → ℤ
  duration_var name key d =
      or_default (os.duration_flag name) (env_parsed os.parse_duration key (pos d))
