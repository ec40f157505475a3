-- ===== src/Config/Declared.antt =====
-- The declarations of the flags in `Load` (config/config.go): names, environment variables and
-- defaults.
use retry_endpoint.Config.Flags.{
  Platform, Flags, IngressFlags, ScopeFlags, CacheFlags, ServerFlags, ProxyFlags, BeaconFlags,
  LogFlags, text_var, int_var, uint_var, bool_var, float_var, duration_var,
}
use retry_endpoint.Config.Text.{runes}
use retry_endpoint.Prelude.{ℕ, ◌*◌, true, false}
use retry_endpoint.Prelude.Int.{pos}
use retry_endpoint.Proxy.{Ttls}
use retry_endpoint.RateLimit.Tiers
use retry_endpoint.RateLimit.Tiers.{Runtime}

abbrev pub seconds : ℕ → ℕ
seconds n = n * 1000000000

-- `defaultCacheTTLTx` and the others.
abbrev pub default_cache_ttl_tx : ℕ
default_cache_ttl_tx = seconds 60

abbrev pub default_cache_ttl_block : ℕ
default_cache_ttl_block = seconds 600

abbrev pub default_cache_ttl_subtree : ℕ
default_cache_ttl_subtree = seconds 300

abbrev pub default_cache_ttl_anchor : ℕ
default_cache_ttl_anchor = seconds 120

abbrev pub default_cache_ttl_beef : ℕ
default_cache_ttl_beef = seconds 60

module _ {rt : Runtime} (os : Platform rt) where
  unfoldable pub ingress_flags : IngressFlags
  ingress_flags = record {
    mc_iface = text_var os "mc-iface" "MC_IFACE" (runes "eth0");
    listen_port = int_var os "listen-port" "LISTEN_PORT" (pos 9001);
    tee_listen = text_var os "tee-listen" "TEE_LISTEN" (runes "");
    mc_join_enabled = bool_var os "mc-join-enabled" "MC_JOIN_ENABLED" true;
    workers = int_var os "ingress-workers" "INGRESS_WORKERS" (pos 1);
    recv_buf = int_var os "ingress-recv-buf-bytes" "INGRESS_RECV_BUF_BYTES" (pos 67108864);
    queue_depth = int_var os "ingress-queue-depth" "INGRESS_QUEUE_DEPTH" (pos 1024);
    procs = int_var os "ingress-procs" "INGRESS_PROCS" (pos 4);
    shard_bits = uint_var os "shard-bits" "SHARD_BITS" (pos 2);
    beef_enabled = bool_var os "beef-enabled" "BEEF_ENABLED" false;
    beef_bits = uint_var os "beef-shard-bits" "BEEF_SHARD_BITS" (pos 0);
    subtree_data = bool_var os "subtree-data-enabled" "SUBTREE_DATA_ENABLED" false;
  }

  unfoldable pub scope_flags : ScopeFlags
  scope_flags = record {
    scope = text_var os "scope" "MC_SCOPE" (runes "site");
    group_id = text_var os "mc-group-id" "MC_GROUP_ID" (runes "0x000B");
    source_mode = text_var os "source-mode" "SOURCE_MODE" (runes "asm");
    bind_source = text_var os "bind-source" "BIND_SOURCE" (runes "");
    manifest = text_var os "ssm-bootstrap-manifest" "SSM_BOOTSTRAP_MANIFEST" (runes "");
    beacon = text_var os "ssm-bootstrap-beacon" "SSM_BOOTSTRAP_BEACON" (runes "");
    subtree_announce =
        text_var os "ssm-bootstrap-subtree-announce" "SSM_BOOTSTRAP_SUBTREE_ANNOUNCE" (runes "");
    publishers = text_var os "ssm-publishers-static" "SSM_PUBLISHERS_STATIC" (runes "");
    refresh = duration_var os "ssm-bootstrap-refresh" "SSM_BOOTSTRAP_REFRESH" (seconds 30);
  }

  unfoldable pub ttl_flags : Ttls
  ttl_flags = record {
    tx = duration_var os "cache-ttl-tx" "CACHE_TTL_TX" default_cache_ttl_tx;
    block = duration_var os "cache-ttl-block" "CACHE_TTL_BLOCK" default_cache_ttl_block;
    subtree = duration_var os "cache-ttl-subtree" "CACHE_TTL_SUBTREE" default_cache_ttl_subtree;
    anchor = duration_var os "cache-ttl-anchor" "CACHE_TTL_ANCHOR" default_cache_ttl_anchor;
    beef = duration_var os "cache-ttl-beef" "CACHE_TTL_BEEF" default_cache_ttl_beef;
  }

  unfoldable pub cache_flags : CacheFlags
  cache_flags = record {
    backend = text_var os "cache-backend" "CACHE_BACKEND" (runes "memory");
    redis_addr = text_var os "redis-addr" "REDIS_ADDR" (runes "");
    aero_hosts = text_var os "aerospike-hosts" "AEROSPIKE_HOSTS" (runes "");
    aero_namespace = text_var os "aerospike-namespace" "AEROSPIKE_NAMESPACE" (runes "cache");
    aero_set = text_var os "aerospike-set" "AEROSPIKE_SET" (runes "bre");
    dial_timeout = duration_var os "cache-dial-timeout" "CACHE_DIAL_TIMEOUT" (seconds 1);
    op_timeout = duration_var os "cache-op-timeout" "CACHE_OP_TIMEOUT" (seconds 1);
    ttl = duration_var os "cache-ttl" "CACHE_TTL" (seconds 60);
    ttls = ttl_flags;
    max_keys = int_var os "cache-max-keys" "CACHE_MAX_KEYS" (pos 0);
    max_bytes = int_var os "cache-max-bytes" "CACHE_MAX_BYTES" (pos 0);
  }

  unfoldable pub server_flags : ServerFlags
  server_flags = record {
    nack_port = int_var os "nack-port" "NACK_PORT" (pos 9300);
    nack_workers = int_var os "nack-workers" "NACK_WORKERS" os.num_cpu;
    egress_ifaces = text_var os "egress-iface" "EGRESS_IFACE" (runes "eth0");
    egress_port = int_var os "egress-port" "EGRESS_PORT" (pos 9001);
    dedup_window = duration_var os "dedup-window" "DEDUP_WINDOW" (seconds 60);
    multicast_loop = bool_var os "egress-multicast-loop" "EGRESS_MULTICAST_LOOP" false;
    suppress_ack = bool_var os "suppress-ack" "SUPPRESS_ACK" false;
    suppress_miss = bool_var os "suppress-miss" "SUPPRESS_MISS" false;
    throttle_response = bool_var os "rl-throttle-response" "RL_THROTTLE_RESPONSE" false;
    drain_timeout = duration_var os "drain-timeout" "DRAIN_TIMEOUT" 0;
  }

  unfoldable pub proxy_flags : ProxyFlags
  proxy_flags = record {
    enabled = bool_var os "proxy-enabled" "PROXY_ENABLED" false;
    upstreams = text_var os "upstream-retry-endpoints" "UPSTREAM_RETRY_ENDPOINTS" (runes "");
    timeout = duration_var os "proxy-timeout" "PROXY_TIMEOUT" 300000000;
    max_endpoints = int_var os "proxy-max-endpoints" "PROXY_MAX_ENDPOINTS" (pos 0);
    dedup_window = duration_var os "proxy-dedup-window" "PROXY_DEDUP_WINDOW" (seconds 60);
    workers = int_var os "proxy-workers" "PROXY_WORKERS" (pos 4);
    queue_depth = int_var os "proxy-queue" "PROXY_QUEUE" (pos 1024);
  }

  unfoldable pub rate_flags : Tiers.Config rt
  rate_flags = record {
    ip_rate = float_var os "rl-ip-rate" "RL_IP_RATE" 100;
    ip_burst = int_var os "rl-ip-burst" "RL_IP_BURST" (pos 10);
    sender_rate = float_var os "rl-sender-rate" "RL_SENDER_RATE" 0;
    sender_window = duration_var os "rl-sender-window" "RL_SENDER_WINDOW" 0;
    chain_rate = float_var os "rl-chain-rate" "RL_CHAIN_RATE" 500;
    chain_window = duration_var os "rl-chain-window" "RL_CHAIN_WINDOW" (seconds 60);
    sequence_max = int_var os "rl-sequence-max" "RL_SEQUENCE_MAX" (pos 100);
    sequence_window = duration_var os "rl-sequence-window" "RL_SEQUENCE_WINDOW" (seconds 60);
    group_rate = float_var os "rl-group-rate" "RL_GROUP_RATE" 200;
    group_burst = int_var os "rl-group-burst" "RL_GROUP_BURST" (pos 50);
  }

  unfoldable pub beacon_flags : BeaconFlags
  beacon_flags = record {
    enabled = bool_var os "beacon-enabled" "BEACON_ENABLED" true;
    tier = uint_var os "beacon-tier" "BEACON_TIER" (pos 0);
    preference = uint_var os "beacon-preference" "BEACON_PREFERENCE" (pos 128);
    interval = duration_var os "beacon-interval" "BEACON_INTERVAL" (seconds 60);
    scope = text_var os "beacon-scope" "BEACON_SCOPE" (runes "site");
    compat = text_var os "control-group-compat" "CONTROL_GROUP_COMPAT" (runes "asm-only");
    unicast = bool_var os "beacon-flags-unicast" "BEACON_FLAGS_UNICAST" false;
    multicast = bool_var os "beacon-flags-multicast" "BEACON_FLAGS_MULTICAST" true;
    draining = bool_var os "beacon-flags-draining" "BEACON_FLAGS_DRAINING" false;
    nack_addr = text_var os "nack-addr" "NACK_ADDR" (runes "");
  }

  unfoldable pub log_flags : LogFlags rt
  log_flags = record {
    debug = bool_var os "debug" "DEBUG" false;
    log_format = text_var os "log-format" "LOG_FORMAT" (runes "text");
    log_level = text_var os "log-level" "LOG_LEVEL" (runes "info");
    trace_sampling = float_var os "trace-sampling" "TRACE_SAMPLING" 0;
    metrics_addr = text_var os "metrics-addr" "METRICS_ADDR" (runes ":9400");
    instance_id = text_var os "instance" "INSTANCE_ID" (runes "");
    otlp_endpoint = text_var os "otlp-endpoint" "OTLP_ENDPOINT" (runes "");
    otlp_interval = duration_var os "otlp-interval" "OTLP_INTERVAL" (seconds 30);
  }

  unfoldable pub flags : Flags rt
  flags = record {
    ingress = ingress_flags;
    scope = scope_flags;
    cache = cache_flags;
    server = server_flags;
    proxy = proxy_flags;
    rates = rate_flags;
    beacon = beacon_flags;
    log = log_flags;
  }
