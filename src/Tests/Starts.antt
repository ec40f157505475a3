-- ===== src/Tests/Starts.antt =====
-- The configuration and the start of the program at concrete inputs.
use mathlib.Core.List.{Perm, Mem}
use retry_endpoint.Beacon
use retry_endpoint.Prelude.Bytes.{Bytes}
use retry_endpoint.Startup.Identity.{beacon_config}
use retry_endpoint.Config.Address.{has_to16, is_loopback, is_mapped, is_zeros}
use retry_endpoint.Config.Checks.{
  check_bits, scope_name, has_sources, parse_backend, backend_configured, ttls_positive,
  parse_beacon_scope, parse_compat, all_texts, is_ok, tee_checks,
}
use retry_endpoint.Config.Csv.{IsToken, join, split_csv_iff}
use retry_endpoint.Config.Declared.{
  flags, ingress_flags, scope_flags, ttl_flags, cache_flags, server_flags, proxy_flags, rate_flags,
  beacon_flags, log_flags,
}
use retry_endpoint.Config.Flags.{
  env_str, env_parsed, text_var, int_var, uint_var, bool_var, float_var, duration_var, to_uint,
}
use retry_endpoint.Config.Load.{
  load, load_flags, resolve_mode, asm_mode_prefix, check_ssm, check_sources, check_tee, check_feed,
  check_cache, ingress_workers, check_ingress, check_egress, proxy_config, check_proxy,
  nack_addr_valid, check_beacon,
}
use retry_endpoint.Config.Loaded.{IsValid, load-IsValid}
use retry_endpoint.Config.Parts.{Config}
use retry_endpoint.Config.Precedence.{expected_ttls, load-ttls}
use retry_endpoint.Config.Result.{ok}
use retry_endpoint.Config.Tee.{HasSizes}
use retry_endpoint.Config.Text.{
  Text, runes, same, trim, trim_left, trim_right, is_space, to_lower, lower, split, split_csv,
  tokens, parse_group_id, parse_trimmed, parse_uint16, digits_value, digit,
}
use retry_endpoint.Config.Ttls.{resolved_ttls, resolve_cache_ttls, is_explicit}
use retry_endpoint.ControlGroup.{
  asm_prefix, beacon_group_prefixes, named_prefixes, beacon_scope_names, collect, collect_next,
  control_group_prefixes, scope_prefixes, add_all, add_new, has,
}
use mathlib.Core.Option.{some-injective}
use retry_endpoint.Metrics
use retry_endpoint.Metrics.{Status, handle_readyz, worker_ready}
use retry_endpoint.Metrics.Series.{Call, stored, run, frames_of, stored-run}
use retry_endpoint.Prelude.{
  ℕ, Option, none, ◌+◌, ◌≤◌, ◌≡◌, ◌≢◌, ◌↔◌, refl, sym, ap, inr, true, false, replicate, ◌++◌, ◌%◌,
  ℕ_discrete, some, List, [], ◌∷◌, length, min, All, arith,
}
use retry_endpoint.Prelude.Assoc.{insert, lookup}
use retry_endpoint.Prelude.Int.{pos, to_ℕ}
use retry_endpoint.Ingress.Parts.{joined}
use retry_endpoint.RateLimit.Tiers.{IpBytes-discrete}
use retry_endpoint.Startup.Groups.{build_groups, parts}
use retry_endpoint.Startup.Joins.{extra, parts-Join}
use retry_endpoint.Startup.Readiness.{Starts, none_yet, Starts-Ready, tee_only-NotReady}
use retry_endpoint.Startup.Services.{State, first_state, services, here, more, starts, server, tee}
use retry_endpoint.Startup.Sources.{
  Addr, GroupSources, Sources, Discovery, without, exclude_own_source, own_source, group, resolve,
  resolve_groups, assign_band, assign_publishers, publishers, build_ssm_group_sources,
}
use retry_endpoint.Startup.Rosters.{Free, build-Free}
use retry_endpoint.Tests.Configs.{engine, platform, config, tee_address}
use retry_endpoint.Tests.Values.{runtime, listener}

loads : load platform ≡ ok config
unfolding load load_flags flags ingress_flags scope_flags ttl_flags cache_flags server_flags
    proxy_flags rate_flags beacon_flags log_flags env_str env_parsed text_var int_var uint_var
    bool_var float_var duration_var to_uint resolve_mode asm_mode_prefix check_ssm check_sources
    check_tee check_feed check_cache ingress_workers check_ingress check_egress proxy_config
    check_proxy nack_addr_valid check_beacon check_bits scope_name has_sources parse_backend
    backend_configured ttls_positive parse_beacon_scope parse_compat all_texts is_ok tee_checks
    is_loopback is_mapped is_zeros same trim trim_left trim_right is_space to_lower lower split
    split_csv tokens parse_group_id parse_trimmed parse_uint16 digits_value digit resolved_ttls
    resolve_cache_ttls is_explicit asm_prefix beacon_group_prefixes named_prefixes
    beacon_scope_names collect collect_next control_group_prefixes scope_prefixes add_all add_new
    has
loads = refl

platform-HasSizes : HasSizes platform
platform-HasSizes s listen e = inr (ap (λ a. length a.addr) (sym (some-injective _ _ e)))

load-IsValid_example : IsValid platform config
load-IsValid_example = load-IsValid platform config platform-HasSizes loads

load-ttls_example : config.ttls ≡ expected_ttls platform
load-ttls_example = load-ttls platform config loads

split_csv_iff_example :
    (split_csv (join (runes "up:9300" ∷ runes "far:9300" ∷ []))
      ≡ runes "up:9300" ∷ runes "far:9300" ∷ [])
    ↔ All IsToken (runes "up:9300" ∷ runes "far:9300" ∷ [])
split_csv_iff_example = split_csv_iff (runes "up:9300" ∷ runes "far:9300" ∷ [])

abbrev frames : List Call
frames =
    Call.pre_create (runes "a" ∷ runes "b" ∷ [])
    ∷ Call.cached (runes "a")
    ∷ Call.frame_received
    ∷ Call.cached (runes "b")
    ∷ Call.cached (runes "a")
    ∷ []

stored-run_example :
    stored (runes "a") (run frames (Metrics.new (pos 1))).measured ≡ frames_of (runes "a") frames
stored-run_example = stored-run (pos 1) frames (runes "a")

Starts-Ready_example :
    (later : State) × Starts (first_state (pos 2) true (some tee_address) 2) later
    × (later.waiting ≡ [])
    × (handle_readyz later.recorder ≡ Status.ready)
Starts-Ready_example =
    Starts-Ready (pos 2) (some tee_address) 2 (first_state (pos 2) true (some tee_address) 2)
      (omega arith) (none_yet _)

-- The tee and the server run, and four ingress workers are asked for.
tee_only-NotReady_example :
    handle_readyz
      (worker_ready (worker_ready (first_state (pos 4) false (some tee_address) 4).recorder))
    ≢ Status.ready
unfolding first_state services
tee_only-NotReady_example =
    tee_only-NotReady (pos 4) (some tee_address) 4
      (record {
        waiting = [];
        running = server ∷ tee ∷ [];
        recorder =
            worker_ready (worker_ready (first_state (pos 4) false (some tee_address) 4).recorder);
      })
      (omega arith)
      (more _ _ _ (more _ _ _ (here _) (starts [] (server ∷ []) [] tee _))
        (starts [] [] (tee ∷ []) server _))

parts-Join_example :
    Perm (joined (parts engine config)) (build_groups engine config)
    × Mem (engine.addr 3) (joined (parts engine config))
    × Mem engine.block_broadcast (joined (parts engine config))
    × (length (parts engine config)
        ≡ min
            (to_ℕ config.ingress.workers)
            (config.bits.num_groups + 1 + extra platform engine config))
    × (1 ≤ length (parts engine config))
parts-Join_example = parts-Join platform engine config 3 load-IsValid_example (omega arith)

-- Under SSM, with the node's own source first in the resolver's answer.
abbrev ssm_config : Config runtime
ssm_config = record config {
  ssm = record config.ssm {
    ssm = true;
    bind_source = runes "fd00::1";
    publishers = runes "pub" ∷ [];
  };
}

-- Another node's source.
abbrev publisher : Addr
publisher = replicate 15 0 ++ (2 ∷ [])

abbrev discovery : Discovery
discovery = record {
  starts = λ entries. true;
  current = λ entries ga. listener.ip ∷ publisher ∷ [];
  parse_addr = λ s. some listener.ip;
  group_addr = λ prefix gid idx. replicate 15 0 ++ (idx % 256 ∷ []);
  group_beacon = 0xFFFD;
  group_subtree_data = 0xFFFB;
  group_subtree_group = 0xFFFC;
  group_block = 0xFFFE;
}

abbrev roster : GroupSources
roster =
    (discovery.group_addr 0xFF05 11 0, publisher ∷ [])
    ∷ (discovery.group_addr 0xFF05 11 1, publisher ∷ [])
    ∷ (discovery.group_addr 0xFF05 11 2, publisher ∷ [])
    ∷ (discovery.group_addr 0xFF05 11 3, publisher ∷ [])
    ∷ []

own : own_source discovery ssm_config ≡ some listener.ip
unfolding own_source
own = refl

builds : build_ssm_group_sources discovery ssm_config ≡ Sources.ok roster
unfolding build_ssm_group_sources resolve resolve_groups publishers assign_publishers assign_band
    group own_source exclude_own_source without insert has_to16 ℕ_discrete
builds = refl

found : lookup IpBytes-discrete (discovery.group_addr 0xFF05 11 2) roster ≡ some (publisher ∷ [])
unfolding lookup ℕ_discrete
found = refl

build-Free_example : Free listener.ip (publisher ∷ [])
build-Free_example =
    build-Free discovery ssm_config listener.ip own roster (discovery.group_addr 0xFF05 11 2)
      (publisher ∷ []) builds found

-- An interface with one address.
abbrev addresses : Option (List (Option Bytes))
addresses = some (some (0xFD ∷ replicate 14 0 ++ (7 ∷ [])) ∷ [])

abbrev crc : Text → ℕ
crc s = 77

abbrev advertised : Beacon.Config
advertised = beacon_config config crc none (0xFD ∷ replicate 14 0 ++ (7 ∷ [])) (0xFF05 ∷ [])
