-- ===== src/Server/Calls.antt =====
-- What a NACK worker calls, with the answers: the dependencies act on a world of their
-- own, and every metric, send and submission is recorded.
use retry_endpoint.Effects
use retry_endpoint.Prelude.{ℕ, suc, Bool, Option, List, [], ◌∷◌}
use retry_endpoint.Prelude.Bytes.{Bytes}
use retry_endpoint.RateLimit.Tiers.{Level, IpBytes}

-- `*net.UDPAddr`; the zone is the name of the interface, for a link-local address.
pub record UdpAddr : Type 0 where
  pub ip : IpBytes
  pub port : ℕ
  pub zone : Bytes

-- `cache.Retrieve`: an error, (nil, nil), or the frame.
pub data Retrieved : Type 0 where
  failed missing : Retrieved
  found : Bytes → Retrieved

-- `Retransmit`: nil, ErrDedupSuppressed, or another error.
pub data Sent : Type 0 where
  sent suppressed failed : Sent

pub data Label : Type 0 where
  ack miss throttled : Label

pub data Metric : Type 0 where
  nack_request cache_error cache_miss cache_hit retransmit unicast_retransmit : Metric
  rate_limit_drop : Level → Metric
  response_sent response_send_error : Label → Metric

pub data Call : Type 0 where
  metric : Metric → Call
  retransmit : Bytes → Sent → Call
  retransmit_unicast : Bytes → UdpAddr → Bool → Call
  enqueue : ℕ → ℕ → Bytes → Option UdpAddr → Call
  write_to : Bytes → UdpAddr → Bool → Call

-- The server's fields that are interfaces or shared objects, as functions on the world.
pub record Deps (W : Type 0) : Type 0 where
  pub allow : W → IpBytes → ℕ → ℕ → Option Level × W
  pub allow_chain : W → IpBytes → ℕ → Bool × W
  pub allow_group : W → IpBytes → ℕ → Bool × W
  pub retrieve : W → Bytes → Retrieved × W
  pub retransmit : W → Bytes → Bytes → Sent × W
  pub retransmit_unicast : W → Bytes → UdpAddr → Bool × W
  pub enqueue : W → ℕ → ℕ → Bytes → Option UdpAddr → Bool × W
  pub write_to : W → Bytes → UdpAddr → Bool × W

abbrev pub Run : Type 0 → Type 0
Run W = Effects.Run W Call

abbrev pub M : Type 0 → Type 0 → Type 0
M W A = Effects.M W Call A

-- The datagrams of a run that were written to the socket, and its submissions to the proxy.
abbrev pub writes : List Call → List (UdpAddr × Bytes)
writes [] = []
writes (Call.write_to buf a ok ∷ cs) = (a, buf) ∷ writes cs
writes (Call.metric m ∷ cs) = writes cs
writes (Call.retransmit raw out ∷ cs) = writes cs
writes (Call.retransmit_unicast raw a ok ∷ cs) = writes cs
writes (Call.enqueue h n t a ∷ cs) = writes cs

abbrev pub enqueues : List Call → ℕ
enqueues [] = 0
enqueues (Call.enqueue h n t a ∷ cs) = suc (enqueues cs)
enqueues (Call.metric m ∷ cs) = enqueues cs
enqueues (Call.retransmit raw out ∷ cs) = enqueues cs
enqueues (Call.retransmit_unicast raw a ok ∷ cs) = enqueues cs
enqueues (Call.write_to buf a ok ∷ cs) = enqueues cs
