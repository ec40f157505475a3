-- ===== src/Config/Accepted.antt =====
-- The parts that `Load` (config/config.go) accepts.
use native.Mathlib.Nat.{pow-le-pow_right}
use retry_endpoint.Config.Address.{AddrPort}
use retry_endpoint.Config.Checks.{check_bits, is_ipv6, has_sources, backend_configured, all_texts}
use retry_endpoint.Config.Flags.{
  Platform, IngressFlags, ScopeFlags, CacheFlags, ServerFlags, ProxyFlags,
}
use retry_endpoint.Config.Load.{
  check_ssm, check_sources, check_feed, check_cache, check_ingress, ingress_workers, check_egress,
  check_proxy, proxy_config,
}
use retry_endpoint.Config.Parts.{
  Backend, BitsConfig, SsmConfig, IngressConfig, CacheConfig, ServerConfig, ProxyConfig,
}
use retry_endpoint.Config.Result.{ok}
use retry_endpoint.Config.Text.{is_empty}
use retry_endpoint.Prelude.{◌^◌, ◌≤◌, ◌<◌, ◌≡◌, ◌≢◌, true, false, ◌||◌, Option, none, length, arith}
use retry_endpoint.Prelude.Int.{ℤ, to_ℕ, is_negative, not_positive→pos}
use retry_endpoint.RateLimit.Tiers.{Runtime}

pub record ValidBits (c : BitsConfig) : Type 0 where
  pub shard_low : 1 ≤ c.shard_bits
  pub shard_high : c.shard_bits ≤ 12
  pub beef_high : c.beef_bits ≤ 12
  pub groups : c.num_groups ≡ 2 ^ c.shard_bits

pub check_bits-Valid : (f : IngressFlags) {c : BitsConfig} → check_bits f ≡ ok c → ValidBits c
unfolding check_bits
check_bits-Valid f h = ground arith

-- Between 2 and 4096 groups.
pub ValidBits-groups : {c : BitsConfig} → ValidBits c → (2 ≤ c.num_groups) × (c.num_groups ≤ 4096)
ValidBits-groups {c} v =
    let low : 2 ^ 1 ≤ 2 ^ c.shard_bits = pow-le-pow_right (omega arith) v.shard_low in
    let high : 2 ^ c.shard_bits ≤ 2 ^ 12 = pow-le-pow_right (omega arith) v.shard_high in
    (omega (arith, v.groups, low), omega (arith, v.groups, high))

module _ {rt : Runtime} (os : Platform rt) where
  pub record ValidSsm (c : SsmConfig) : Type 0 where
    pub refreshed : 0 < to_ℕ c.refresh
    pub sources : c.ssm ≡ true → has_sources c ≡ true
    pub bound :
        c.ssm ≡ true → (is_empty c.bind_source || is_ipv6 (os.parse_ip c.bind_source)) ≡ true

  pub check_ssm-Valid : (f : ScopeFlags) {c : SsmConfig} → check_ssm os f ≡ ok c → ValidSsm c
  unfolding check_ssm check_sources
  check_ssm-Valid f h = ground (arith, not_positive→pos f.refresh)

  -- With no join of the multicast groups there is a tee.
  pub record ValidIngress (c : IngressConfig) : Type 0 where
    pub working : 0 < to_ℕ c.workers
    pub queued : 0 < to_ℕ c.queue_depth
    pub processed : 0 < to_ℕ c.procs
    pub fed : c.mc_join_enabled ≡ false → c.tee_listen ≢ none

  positive_workers : (n : ℤ) → 0 < to_ℕ (ingress_workers os n)
  unfolding ingress_workers
  positive_workers n = ground (arith, not_positive→pos n)

  pub check_ingress-Valid :
      (f : IngressFlags) (tee : Option AddrPort) {c : IngressConfig}
      → check_feed os f.mc_join_enabled tee ≡ ok tt
      → check_ingress os f tee ≡ ok c
      → ValidIngress c × (c.tee_listen ≡ tee)
  unfolding check_ingress check_feed
  check_ingress-Valid f tee g h =
      ground (
        arith,
        positive_workers f.workers,
        not_positive→pos f.queue_depth,
        not_positive→pos f.procs,
      )

  pub record ValidCache (c : CacheConfig) : Type 0 where
    pub redis_addr : c.backend ≡ Backend.redis → is_empty c.redis_addr ≡ false
    pub aero_hosts : c.backend ≡ Backend.aerospike → 0 < length c.aero_hosts

  pub check_cache-Valid :
      (f : CacheFlags) {c : CacheConfig} → check_cache os f ≡ ok c → ValidCache c
  unfolding check_cache backend_configured
  check_cache-Valid f h = ground arith

  pub record ValidServer (c : ServerConfig) : Type 0 where
    pub egress : 0 < length c.egress_ifaces
    pub present : all_texts os.has_interface c.egress_ifaces ≡ true
    pub workers : 0 < to_ℕ os.num_cpu → 0 < to_ℕ c.nack_workers

  pub check_egress-Valid :
      (f : ServerFlags) {c : ServerConfig} → check_egress os f ≡ ok c → ValidServer c
  unfolding check_egress
  check_egress-Valid f h = ground (arith, not_positive→pos f.nack_workers)

  -- A proxy that is enabled.
  pub record ValidProxy (c : ProxyConfig) : Type 0 where
    pub upstreams : c.enabled ≡ true → 0 < length c.upstreams
    pub addressed : c.enabled ≡ true → all_texts os.is_host_port c.upstreams ≡ true
    pub timeout : c.enabled ≡ true → 0 < to_ℕ c.timeout
    pub tried : c.enabled ≡ true → is_negative c.max_endpoints ≡ false
    pub workers : c.enabled ≡ true → 0 < to_ℕ c.workers
    pub queue : c.enabled ≡ true → 0 < to_ℕ c.queue_depth

  pub check_proxy-Valid :
      (f : ProxyFlags) {c : ProxyConfig} → check_proxy os f ≡ ok c → ValidProxy c
  unfolding check_proxy proxy_config
  check_proxy-Valid f h = ground (
    arith,
    not_positive→pos f.timeout,
    not_positive→pos f.workers,
    not_positive→pos f.queue_depth,
  )
