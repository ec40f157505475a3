-- ===== src/Tests/Values.antt =====
-- Concrete parameters: the constants of the wire format, a server and answering dependencies.
use retry_endpoint.Beacon
use retry_endpoint.Cache
use retry_endpoint.Cache.Views.{ReadsBack, Holds}
use retry_endpoint.ControlGroup
use retry_endpoint.ControlGroup.{ScopeName}
use retry_endpoint.Effects.{Run}
use retry_endpoint.Frames.{FrameLib, Header, InRange}
use retry_endpoint.Ingress
use retry_endpoint.Ingress.Frame
use retry_endpoint.Ingress.Pipeline
use retry_endpoint.Prelude.{
  ℕ, ◌+◌, Bool, true, false, Option, none, some, List, [], ◌∷◌, ◌++◌, ◌==◌, leb, length, get_or,
  replicate, if◌then◌else◌, arith, ℕ_discrete, ite, if_pos, if_neg, ap, refl, ◌≡◌, inl,
}
use retry_endpoint.Prelude.Bytes.{Bytes, uint_at, to_be}
use retry_endpoint.Prelude.Int.{ℤ, pos}
use retry_endpoint.Proxy
use retry_endpoint.Proxy.Recover
use retry_endpoint.RateLimit.Buckets
use retry_endpoint.RateLimit.Tiers
use retry_endpoint.Retransmit
use retry_endpoint.Server.Calls
use retry_endpoint.Server.Calls.{UdpAddr, Retrieved, Sent}
use retry_endpoint.Server.Handler
use retry_endpoint.Server.Wire.{Request}

abbrev pub is_version : ℕ → Bytes → Bool
is_version n raw = get_or raw 6 0 == n

-- A decoder that reads the two fields at their offsets.
abbrev pub decode_at : Bytes → Option Header
decode_at raw =
    if leb 56 (length raw)
    then some record { hash_key = uint_at 40 8 raw; seq_num = uint_at 48 8 raw }
    else none

abbrev pub lib : FrameLib
lib = record {
  magic = 0xE3E1F3E8;
  proto_ver = 0x02BF;
  header_size = 92;
  ver_v3 = 3;
  ver_v4 = 4;
  ver_v5 = 5;
  ver_v6 = 6;
  ver_v8 = 8;
  ver_v9 = 9;
  bundle_header_size = 66;
  is_block = is_version 4;
  is_subtree_data = is_version 5;
  is_anchor = is_version 6;
  is_bundle = is_version 8;
  is_beef = is_version 9;
  is_fragment = is_version 3;
  decode = decode_at;
  decode_block = decode_at;
  decode_subtree_data = decode_at;
  decode_anchor = decode_at;
  decode_beef = decode_at;
  decode_fragment = λ raw. none;
}

pub lib-InRange : InRange lib
lib-InRange = record { magic_u32 = omega arith; proto_ver_u16 = omega arith }

-- A transaction frame of flow 7 with sequence number 5.
abbrev pub tx_frame : Bytes
tx_frame =
    to_be 4 0xE3E1F3E8
    ++ (to_be 2 0x02BF
        ++ (2 ∷ 0 ∷ (replicate 32 9 ++ (to_be 8 7 ++ (to_be 8 5 ++ replicate 36 0)))))

abbrev pub listener : UdpAddr
listener = record { ip = replicate 15 0 ++ (1 ∷ []); port = 9300; zone = [] }

abbrev pub nack_frame : Bytes
nack_frame =
    to_be 4 0xE3E1F3E8
    ++ (to_be 2 0x02BF ++ (0x10 ∷ 0 ∷ (to_be 8 7 ++ (to_be 8 5 ++ (to_be 8 5 ++ replicate 32 0)))))

abbrev pub request : Request
request = record { proxied = false; hash_key = 7; start_seq = 5; end_seq = 5; subtree_id = [] }

-- A server that serves in both modes, with a proxy.
abbrev pub server : Handler.Server
server = record {
  rec = true;
  suppress_ack = false;
  suppress_miss = false;
  throttle_resp = true;
  shard_engine = some (λ tx. 3);
  beef_engine = none;
  retransmit_mc = true;
  retransmit_uc = true;
  proxy = true;
}

-- Dependencies that find the frame and send it.
abbrev pub hits : Calls.Deps Unit
hits = record {
  allow = λ w a h n. (none, w);
  allow_chain = λ w a h. (true, w);
  allow_group = λ w a g. (true, w);
  retrieve = λ w k. (Retrieved.found tx_frame, w);
  retransmit = λ w raw tx. (Sent.sent, w);
  retransmit_unicast = λ w raw a. (true, w);
  enqueue = λ w h n t a. (true, w);
  write_to = λ w buf a. (true, w);
}

-- Dependencies that do not find the frame.
abbrev pub misses : Calls.Deps Unit
misses = record hits { retrieve = λ w k. (Retrieved.missing, w) }

abbrev pub start : {C : Type 0} → Run Unit C
start = record { world = tt; calls = [] }

abbrev pub floats : Buckets.Floats
floats = record {
  Float = ℕ;
  is_zero = λ x. x == 0;
  at_most_zero = λ x. x == 0;
  to_int = pos;
  from_ℕ = λ n. n;
}

-- A bucket that gives as many tokens as its burst.
abbrev take_token : List (Unit {0}) → ℕ → Bool × List (Unit {0})
take_token [] now = (false, [])
take_token (t ∷ ts) now = (true, ts)

abbrev tokens : ℤ → List (Unit {0})
tokens (ℤ.pos n) = replicate n tt
tokens (ℤ.negsuc n) = []

abbrev pub rates : Buckets.Rates floats
rates = record { Bucket = List (Unit {0}); new_bucket = λ r b. tokens b; take = take_token }

abbrev pub runtime : Tiers.Runtime
runtime = record {
  floats = floats;
  rates = rates;
  ip_string = λ ip. ip;
  as16 = λ ip. ip;
  grow = λ have want. have + want;
}

abbrev pub limits : Tiers.Config runtime
limits = record {
  ip_rate = 10;
  ip_burst = pos 2;
  sender_rate = 0;
  sender_window = pos 0;
  chain_rate = 0;
  chain_window = pos 0;
  sequence_max = pos 2;
  sequence_window = pos 1000;
  group_rate = 0;
  group_burst = pos 0;
}

abbrev pub retransmitter : Retransmit.Retransmitter
retransmitter = record {
  engine = record {
    group_index = λ tx. 3;
    addr = λ g. listener;
    block_broadcast = listener;
    subtree_announce = listener;
  };
  beef_engine = none;
  dedup = true;
  rec = true;
  sockets = (1 ∷ []) ∷ (2 ∷ []) ∷ [];
  unicast_open = true;
}

abbrev pub sockets : Retransmit.Deps Unit
sockets = record {
  set_nx = λ w k. ((true, true), w);
  write_to = λ w name raw a. (true, w);
  write_unicast = λ w raw a. (true, w);
}

abbrev pub ttls : Proxy.Ttls
ttls = record { tx = pos 1; block = pos 2; subtree = pos 3; anchor = pos 4; beef = pos 5 }

abbrev pub proxy_config : Proxy.Config
proxy_config = record {
  upstreams = (1 ∷ []) ∷ (2 ∷ []) ∷ [];
  source_ip = none;
  timeout = pos 300;
  max_endpoints = pos 2;
  dedup_window = pos 60;
  workers = pos 4;
  queue_depth = pos 2;
  dedup = true;
  ttls = ttls;
  rec = true;
  multicast = true;
  unicast = true;
}

abbrev pub job : Proxy.Job
job = record { hash_key = 7; seq = 5; subtree = replicate 32 0; requester = some listener }

abbrev pub upstream : Recover.Deps Unit
upstream = record {
  is_done = λ w. (false, w);
  resolve = λ w e. (some listener, w);
  listen = λ w ip. (true, w);
  write_to = λ w buf a. (true, w);
  read_all = λ w t. (tx_frame ∷ [], w);
  set_nx = λ w k t. ((true, true), w);
  store = λ w k v t. (true, w);
  retransmit = λ w raw tx. (Sent.sent, w);
  retransmit_unicast = λ w raw a. (true, w);
}

abbrev pub worker : Ingress.Worker
worker = record { ttls = ttls; rec = true; recv_buf = pos 0; queue_depth = pos 0; procs = pos 0 }

abbrev pub accepting : Frame.Store Unit
accepting w k v t = (true, w)

abbrev pub tee : Pipeline.Tee
tee = record {
  header_size = 4;
  is_encap = λ raw. get_or raw 0 0 == 0x54;
  decap = λ raw. none;
  addr_string = λ a. a;
}

abbrev parse_scope : ScopeName → Bool
parse_scope ScopeName.link = false
parse_scope ScopeName.site = true
parse_scope ScopeName.org = false
parse_scope ScopeName.global = true
parse_scope ScopeName.other = false

abbrev ssm_prefix : ScopeName → Option ℕ
ssm_prefix ScopeName.link = none
ssm_prefix ScopeName.site = some 0xFF35
ssm_prefix ScopeName.org = none
ssm_prefix ScopeName.global = some 0xFF3E
ssm_prefix ScopeName.other = none

abbrev pub shard : ControlGroup.Shard
shard = record { parse_scope = parse_scope; ssm_prefix = ssm_prefix }

abbrev pub advert : Beacon.Config
advert = record {
  nack_addr = some (replicate 16 1);
  nack_port = 9300;
  tier = 0;
  preference = 128;
  interval = 60000000000;
  scope = 5;
  flags = 0x18;
  instance_id = 77;
  group_id = 11;
  group_prefixes = [];
}

-- A backend that keeps one value per key.
abbrev pub same_key : Discrete Bytes
same_key = hlevel ℕ_discrete

abbrev pub put : Bytes → Option Bytes → (Bytes → Option Bytes) → Bytes → Option Bytes
put k v st j = ite (same_key j k) v (st j)

abbrev pub answer : Option Bytes → Cache.Got
answer none = Cache.Got.missing
answer (some v) = Cache.Got.found v

abbrev pub memory : Cache.Backend (Bytes → Option Bytes)
memory = record {
  is_memory = true;
  set = λ c k v t st. (true, put k (some v) st);
  get = λ c k st. (answer (st k), st);
  del = λ c k st. (true, put k none st);
  set_nx = λ c k v t st. ((true, true), put k (some v) st);
  len = none;
}

pub memory-ReadsBack : ReadsBack memory
memory-ReadsBack = record {
  get-set = λ c k v ttl st live e. ap answer (if_pos (same_key k k) refl _ _);
}

answer-found : (o : Option Bytes) (u : Bytes) → answer o ≡ Cache.Got.found u → o ≡ some u
answer-found none u e = absurd (cc e)
answer-found (some v) u e = cc e

-- The memory holds what it answers, and loses nothing.
pub memory-Holds : Holds memory (λ st k. st k)
memory-Holds = record {
  get_sound = λ c k u st e. answer-found (st k) u e;
  set_here = λ c k v ttl st e. inl (if_pos (same_key k k) refl _ _);
  set_elsewhere = λ c k j v ttl st n. inl (if_neg (same_key j k) n _ _);
  set_nx_elsewhere = λ c k j v ttl st n. inl (if_neg (same_key j k) n _ _);
  del_elsewhere = λ c k j st n. inl (if_neg (same_key j k) n _ _);
  get_anywhere = λ c k j st. inl refl;
}
