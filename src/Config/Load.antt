-- ===== src/Config/Load.antt =====
-- `Load` (config/config.go) after flag.Parse, one definition per part, in the order of the source.
-- A part that is accepted is a part of the result; a rejected one, an error.
use retry_endpoint.Config.Address.{AddrPort}
use retry_endpoint.Config.Declared.{flags, seconds}
use retry_endpoint.Config.Flags.{
  Platform, Flags, IngressFlags, ScopeFlags, CacheFlags, ServerFlags, ProxyFlags, BeaconFlags,
}
use retry_endpoint.Config.Parts.{
  Config, SsmConfig, IngressConfig, CacheConfig, ServerConfig, ProxyConfig, BeaconConfig,
}
use retry_endpoint.Config.Result.{LoadError, Result, ok, error, ◌>>=◌, ◌>>◌, check, or_error}
use retry_endpoint.Config.Text.{
  Text, runes, same, is_empty, trim, to_lower, split, split_csv, tokens, parse_group_id,
}
use retry_endpoint.Config.Ttls.{resolved_ttls}
use retry_endpoint.ControlGroup.{asm_prefix, beacon_group_prefixes}
use retry_endpoint.Prelude.{
  ℕ, Bool, true, false, ◌&&◌, ◌||◌, not, Option, none, some, ltb, leb, ◌==◌, if◌then◌else◌, length,
}
use retry_endpoint.Prelude.Int.{ℤ, pos, not_positive, is_negative, to_ℕ}
use retry_endpoint.RateLimit.Tiers.{Runtime}
use retry_endpoint.Config.Checks.{
  check_bits, scope_name, is_ipv6, is_nack_addr, has_sources, parse_backend, backend_configured,
  ttls_positive, parse_beacon_scope, parse_compat, all_texts, is_ok, tee_checks,
}

module _ {rt : Runtime} (os : Platform rt) where
  -- The prefix under each source mode: whether it is SSM, and the upper 16 bits of the groups.
  unfoldable pub ssm_prefix : Option (Option ℕ) → Result (Bool × ℕ)
  ssm_prefix none = error LoadError.no_ssm_scope
  ssm_prefix (some none) = error LoadError.no_ssm_prefix
  ssm_prefix (some (some p)) = ok (true, p)

  unfoldable pub asm_mode_prefix : Option ℕ → Result (Bool × ℕ)
  asm_mode_prefix none = error LoadError.unknown_scope
  asm_mode_prefix (some p) = ok (false, p)

  unfoldable pub resolve_mode : ScopeFlags → Result (Bool × ℕ)
  resolve_mode f =
      if same (to_lower f.source_mode) (runes "asm")
      then asm_mode_prefix (asm_prefix (scope_name f.scope))
      else if same (to_lower f.source_mode) (runes "ssm")
      then ssm_prefix (os.ssm_scope f.scope)
      else error LoadError.invalid_source_mode

  -- The checks under SSM.
  unfoldable pub check_sources : SsmConfig → Result (Unit {0})
  check_sources c = if not c.ssm then ok tt else do
    check (is_empty c.bind_source || is_ipv6 (os.parse_ip c.bind_source))
        LoadError.invalid_bind_source
    check (has_sources c) LoadError.no_ssm_sources
    check (not (ltb 16 (length c.publishers) && length c.manifest == 0))
        LoadError.too_many_publishers

  unfoldable pub check_ssm : ScopeFlags → Result SsmConfig
  check_ssm f = do
    mode ← resolve_mode f
    check (not (not_positive f.refresh)) LoadError.refresh_not_positive
    let c : SsmConfig = record {
      ssm = mode.0;
      mc_prefix = mode.1;
      bind_source = f.bind_source;
      manifest = split_csv f.manifest;
      beacon = split_csv f.beacon;
      subtree_announce = split_csv f.subtree_announce;
      publishers = split_csv f.publishers;
      refresh = f.refresh;
    }
    check_sources c
    ok c

  unfoldable pub check_tee : Text → Result (Option AddrPort)
  check_tee s =
      if is_empty s
      then ok none
      else (or_error (os.parse_addr_port s) LoadError.invalid_tee >>= tee_checks)

  unfoldable pub check_feed : Bool → Option AddrPort → Result (Unit {0})
  check_feed true tee = ok tt
  check_feed false none = error LoadError.no_feed
  check_feed false (some ap) = ok tt

  unfoldable pub check_cache : CacheFlags → Result CacheConfig
  check_cache f = do
    backend ← or_error (parse_backend f.backend) LoadError.unknown_backend
    let c : CacheConfig = record {
      backend = backend;
      redis_addr = f.redis_addr;
      aero_hosts = tokens (split f.aero_hosts);
      aero_namespace = f.aero_namespace;
      aero_set = f.aero_set;
      dial_timeout = f.dial_timeout;
      op_timeout = f.op_timeout;
      max_keys = f.max_keys;
      max_bytes = f.max_bytes;
    }
    backend_configured c
    ok c

  -- The number of ingress workers: one where there are none, or off Linux.
  unfoldable pub ingress_workers : ℤ → ℤ
  ingress_workers n = if not_positive n || not os.linux then pos 1 else n

  unfoldable pub check_ingress : IngressFlags → Option AddrPort → Result IngressConfig
  check_ingress f tee = do
    check (not (not_positive f.queue_depth)) LoadError.queue_depth_not_positive
    check (not (not_positive f.procs)) LoadError.procs_not_positive
    ok record {
      mc_iface = f.mc_iface;
      listen_port = f.listen_port;
      tee_listen = tee;
      mc_join_enabled = f.mc_join_enabled;
      workers = ingress_workers f.workers;
      recv_buf = f.recv_buf;
      queue_depth = f.queue_depth;
      procs = f.procs;
      beef_enabled = f.beef_enabled;
      subtree_data = f.subtree_data;
    }

  unfoldable pub check_egress : ServerFlags → Result ServerConfig
  check_egress f = do
    let names = tokens (split f.egress_ifaces)
    check (all_texts os.has_interface names) LoadError.egress_not_found
    check (not (length names == 0)) LoadError.no_egress
    ok record {
      nack_port = f.nack_port;
      nack_workers = if not_positive f.nack_workers then os.num_cpu else f.nack_workers;
      egress_ifaces = names;
      egress_port = f.egress_port;
      dedup_window = f.dedup_window;
      multicast_loop = f.multicast_loop;
      suppress_ack = f.suppress_ack;
      suppress_miss = f.suppress_miss;
      throttle_response = f.throttle_response;
      drain_timeout = f.drain_timeout;
    }

  unfoldable pub proxy_config : ProxyFlags → ℤ → ProxyConfig
  proxy_config f workers = record {
    enabled = f.enabled;
    upstreams = split_csv f.upstreams;
    timeout = f.timeout;
    max_endpoints = f.max_endpoints;
    dedup_window = f.dedup_window;
    workers = workers;
    queue_depth = f.queue_depth;
  }

  unfoldable pub check_proxy : ProxyFlags → Result ProxyConfig
  check_proxy f = if not f.enabled then ok (proxy_config f f.workers) else do
    let upstreams = split_csv f.upstreams
    check (not (length upstreams == 0)) LoadError.no_upstreams
    check (all_texts os.is_host_port upstreams) LoadError.invalid_upstream
    check (not (not_positive f.timeout)) LoadError.proxy_timeout_not_positive
    check (not (is_negative f.max_endpoints)) LoadError.max_endpoints_negative
    let workers = if not_positive f.workers then pos 4 else f.workers
    check (not (not_positive f.queue_depth)) LoadError.proxy_queue_not_positive
    ok (proxy_config f workers)

  unfoldable pub nack_addr_valid : Text → Bool
  nack_addr_valid s = is_empty s || is_nack_addr (os.parse_ip s)

  unfoldable pub check_beacon : BeaconFlags → Bool → Result BeaconConfig
  check_beacon f ssm = do
    scope ← or_error (parse_beacon_scope f.scope) LoadError.invalid_beacon_scope
    compat ← or_error (parse_compat (to_lower (trim f.compat))) LoadError.invalid_compat
    check (not f.enabled || is_ok (beacon_group_prefixes os.shard ssm compat scope.0))
        LoadError.no_beacon_group
    check (leb f.tier 254) LoadError.tier_range
    check (leb f.preference 255) LoadError.preference_range
    check (leb (seconds 1) (to_ℕ f.interval)) LoadError.interval_too_short
    check (nack_addr_valid f.nack_addr) LoadError.invalid_nack_addr
    ok record {
      enabled = f.enabled;
      tier = f.tier;
      preference = f.preference;
      interval = f.interval;
      scope = scope.0;
      scope_byte = scope.1;
      compat = compat;
      unicast = f.unicast;
      multicast = f.multicast;
      draining = f.draining;
      nack_addr = f.nack_addr;
    }

  -- `Load` on the values of the flags.
  unfoldable pub load_flags : Flags rt → Result (Config rt)
  load_flags f = do
    let ttls = resolved_ttls os f.cache.ttl f.cache.ttls
    bits ← check_bits f.ingress
    ssm ← check_ssm f.scope
    group_id ← or_error (parse_group_id f.scope.group_id) LoadError.invalid_group_id
    tee ← check_tee f.ingress.tee_listen
    check_feed f.ingress.mc_join_enabled tee
    cache ← check_cache f.cache
    check (ttls_positive ttls) LoadError.ttl_not_positive
    ingress ← check_ingress f.ingress tee
    server ← check_egress f.server
    proxy ← check_proxy f.proxy
    beacon ← check_beacon f.beacon ssm.ssm
    ok record {
      bits = bits;
      ssm = ssm;
      group_id = group_id;
      ingress = ingress;
      cache = cache;
      ttls = ttls;
      server = server;
      proxy = proxy;
      rates = f.rates;
      beacon = beacon;
      log = f.log;
    }

  -- `Load`
  unfoldable pub load : Result (Config rt)
  load = load_flags (flags os)
