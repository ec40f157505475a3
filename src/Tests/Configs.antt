-- ===== src/Tests/Configs.antt =====
-- Concrete platforms and configurations.
use Prim.Native.String.{String}
use text.Mathlib.Text.{◌==◌}
use retry_endpoint.Config.Address.{AddrPort}
use retry_endpoint.Config.Flags.{Platform}
use retry_endpoint.Config.Parts.{Config, Backend}
use retry_endpoint.Config.Text.{Text, runes}
use retry_endpoint.ControlGroup.{Compat, BeaconScope}
use retry_endpoint.Prelude.{
  true, false, Option, none, some, [], ◌∷◌, ◌++◌, replicate, if◌then◌else◌,
}
use retry_endpoint.Prelude.Int.{ℤ, pos}
use retry_endpoint.Startup.Groups.{Engine}
use retry_endpoint.Tests.Values.{runtime, shard}

-- The address ::1 with port 9002.
abbrev pub tee_address : AddrPort
tee_address = record { addr = replicate 15 0 ++ (1 ∷ []); port = 9002 }

abbrev flags_set : String → Option Text
flags_set name =
    if name == "tee-listen"
    then some (runes "[::1]:9002")
    else if name == "upstream-retry-endpoints"
    then some (runes "up:9300, far:9300")
    else none

abbrev variables : String → Text
variables key = if key == "CACHE_TTL_BLOCK" then runes "20s" else []

abbrev durations : String → Option ℤ
durations name = if name == "cache-ttl" then some (pos 30000000000) else none

-- Linux with four processors, a tee, two upstreams, -cache-ttl at 30 s and CACHE_TTL_BLOCK at 20 s.
abbrev pub platform : Platform runtime
platform = record {
  getenv = variables;
  text_flag = flags_set;
  int_flag = λ name. none;
  uint_flag = λ name. none;
  bool_flag = λ name. if name == "proxy-enabled" then some true else none;
  float_flag = λ name. none;
  duration_flag = durations;
  parse_int = λ s. none;
  parse_bool = λ s. none;
  parse_float = λ s. none;
  parse_duration = λ s. some (pos 20000000000);
  parse_ip = λ s. none;
  parse_addr_port = λ s. some tee_address;
  is_host_port = λ s. true;
  has_interface = λ s. true;
  num_cpu = pos 4;
  linux = true;
  shard = shard;
  ssm_scope = λ s. some (some 0xFF35);
}

-- What `Load` makes of it.
abbrev pub config : Config runtime
config = record {
  bits = record { shard_bits = 2; beef_bits = 0; num_groups = 4 };
  ssm = record {
    ssm = false;
    mc_prefix = 0xFF05;
    bind_source = [];
    manifest = [];
    beacon = [];
    subtree_announce = [];
    publishers = [];
    refresh = pos 30000000000;
  };
  group_id = 11;
  ingress = record {
    mc_iface = runes "eth0";
    listen_port = pos 9001;
    tee_listen = some tee_address;
    mc_join_enabled = true;
    workers = pos 1;
    recv_buf = pos 67108864;
    queue_depth = pos 1024;
    procs = pos 4;
    beef_enabled = false;
    subtree_data = false;
  };
  cache = record {
    backend = Backend.memory;
    redis_addr = [];
    aero_hosts = [];
    aero_namespace = runes "cache";
    aero_set = runes "bre";
    dial_timeout = pos 1000000000;
    op_timeout = pos 1000000000;
    max_keys = pos 0;
    max_bytes = pos 0;
  };
  ttls = record {
    tx = pos 30000000000;
    block = pos 20000000000;
    subtree = pos 30000000000;
    anchor = pos 30000000000;
    beef = pos 60000000000;
  };
  server = record {
    nack_port = pos 9300;
    nack_workers = pos 4;
    egress_ifaces = runes "eth0" ∷ [];
    egress_port = pos 9001;
    dedup_window = pos 60000000000;
    multicast_loop = false;
    suppress_ack = false;
    suppress_miss = false;
    throttle_response = false;
    drain_timeout = pos 0;
  };
  proxy = record {
    enabled = true;
    upstreams = runes "up:9300" ∷ runes "far:9300" ∷ [];
    timeout = pos 300000000;
    max_endpoints = pos 0;
    dedup_window = pos 60000000000;
    workers = pos 4;
    queue_depth = pos 1024;
  };
  rates = record {
    ip_rate = 100;
    ip_burst = pos 10;
    sender_rate = 0;
    sender_window = pos 0;
    chain_rate = 500;
    chain_window = pos 60000000000;
    sequence_max = pos 100;
    sequence_window = pos 60000000000;
    group_rate = 200;
    group_burst = pos 50;
  };
  beacon = record {
    enabled = true;
    tier = 0;
    preference = 128;
    interval = pos 60000000000;
    scope = BeaconScope.site;
    scope_byte = 5;
    compat = Compat.asm_only;
    unicast = false;
    multicast = true;
    draining = false;
    nack_addr = [];
  };
  log = record {
    debug = false;
    log_format = runes "text";
    log_level = runes "info";
    trace_sampling = 0;
    metrics_addr = runes ":9400";
    instance_id = [];
    otlp_endpoint = [];
    otlp_interval = pos 30000000000;
  };
}

abbrev pub engine : Engine
engine = record {
  addr = λ i. record { ip = i ∷ []; port = 9001; zone = [] };
  block_broadcast = record { ip = 0xFF ∷ []; port = 9001; zone = [] };
  subtree_data = record { ip = 0xFE ∷ []; port = 9001; zone = [] };
}
