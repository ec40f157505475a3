-- ===== src/Proxy/Recover.antt =====
-- The recovery of one gap: `recover`, `fetch` and `store` of proxy/proxy.go.
use retry_endpoint.Effects
use retry_endpoint.Effects.{pure, ◌>>=◌, ◌>>◌, ask, note, when}
use retry_endpoint.Frames.{FrameLib}
use retry_endpoint.Prelude.{
  Bool, true, false, Option, none, some, List, [], ◌∷◌, ◌++◌, ltb, if◌then◌else◌, length, get_or,
  take,
}
use retry_endpoint.Prelude.Bytes.{Bytes, slice}
use retry_endpoint.Prelude.Int.{ℤ, to_ℕ}
use retry_endpoint.Proxy.{Config, Job, claim_key, nack, accept, ttl_for}
use retry_endpoint.Server.Calls.{UdpAddr, Sent}
pub mod Attempts
pub mod Handovers

pub data Metric : Type 0 where
  request inflight_dedup retransmit unicast_retransmit proxy_recovered proxy_failed : Metric

pub data Call : Type 0 where
  metric : Metric → Call
  write_nack : Bytes → UdpAddr → Bool → Call
  cache_store : Bytes → Bytes → ℤ → Bool → Call
  retransmit : Bytes → Sent → Call
  retransmit_unicast : Bytes → UdpAddr → Bool → Call

-- The context, net, and the interfaces of `Config`. `set_nx` answers (no error, set); `none` of
-- `resolve` and `false` of `listen`, `write_to` and `store` are errors. `read_all` gives what
-- ReadFrom returns on the fetch socket, in order, until the deadline's error.
pub record Deps (W : Type 0) : Type 0 where
  pub is_done : W → Bool × W
  pub resolve : W → Bytes → Option UdpAddr × W
  pub listen : W → Option Bytes → Bool × W
  pub write_to : W → Bytes → UdpAddr → Bool × W
  pub read_all : W → ℤ → List Bytes × W
  pub set_nx : W → Bytes → ℤ → (Bool × Bool) × W
  pub store : W → Bytes → Bytes → ℤ → Bool × W
  pub retransmit : W → Bytes → Bytes → Sent × W
  pub retransmit_unicast : W → Bytes → UdpAddr → Bool × W

abbrev pub M : Type 0 → Type 0 → Type 0
M W A = Effects.M W Call A

module _ {W : Type 0} (lib : FrameLib) (deps : Deps W) (cfg : Config) where
  unfoldable pub count : Metric → M W (Unit {0})
  count m = when cfg.rec (note (Call.metric m))

  -- After the socket is open: the NACK goes out, and the answers come in.
  unfoldable pub exchange : UdpAddr → Job → M W (Option Bytes)
  exchange a j = do
    ok ← ask (λ w. deps.write_to w (nack lib j) a)
    note (Call.write_nack (nack lib j) a ok)
    (if ok
        then (do ds ← ask (λ w. deps.read_all w cfg.timeout); pure (accept lib ds))
        else pure none)

  unfoldable pub listened : Bool → UdpAddr → Job → M W (Option Bytes)
  listened true a j = exchange a j
  listened false a j = pure none

  unfoldable pub resolved : Option UdpAddr → Job → M W (Option Bytes)
  resolved none j = pure none
  resolved (some a) j = do ok ← ask (λ w. deps.listen w cfg.source_ip); listened ok a j

  -- `fetch`
  unfoldable pub fetch : Bytes → Job → M W (Option Bytes)
  fetch endpoint j = do a ← ask (λ w. deps.resolve w endpoint); resolved a j

  -- `store`, whose error is logged only. `raw[40:48]` and `raw[48:56]` are the key.
  unfoldable pub store : Bytes → M W (Unit {0})
  store raw = if ltb (length raw) lib.header_size then pure tt else (do
    ok ← ask (λ w.
        deps.store w (slice 40 8 raw ++ slice 48 8 raw) raw (ttl_for lib cfg.ttls (get_or raw 6 0)))
    note (
        Call.cache_store (slice 40 8 raw ++ slice 48 8 raw) raw
          (ttl_for lib cfg.ttls (get_or raw 6 0)) ok))

  unfoldable pub multicast_result : Sent → M W (Unit {0})
  multicast_result Sent.sent = count Metric.retransmit
  multicast_result Sent.suppressed = pure tt
  multicast_result Sent.failed = pure tt

  -- `if c.cfg.Multicast { … }`
  unfoldable pub multicast : Bytes → M W (Unit {0})
  multicast raw =
      if cfg.multicast
      then (do
        out ← ask (λ w. deps.retransmit w raw (slice 8 32 raw))
        note (Call.retransmit raw out)
        multicast_result out)
      else pure tt

  -- `if c.cfg.Unicast && j.requester != nil { … }`
  unfoldable pub unicast : Bytes → Option UdpAddr → M W (Unit {0})
  unicast raw none = pure tt
  unicast raw (some a) =
      if cfg.unicast
      then (do
        ok ← ask (λ w. deps.retransmit_unicast w raw a)
        note (Call.retransmit_unicast raw a ok)
        when ok (count Metric.unicast_retransmit))
      else pure tt

  -- The body of the loop after a fetch that gave a frame.
  unfoldable pub recovered : Bytes → Job → M W (Unit {0})
  recovered raw j = do
    store raw
    multicast raw
    unicast raw j.requester
    count Metric.proxy_recovered

  -- `if !ok { continue }`
  unfoldable pub fetched : M W (Unit {0}) → Option Bytes → Job → M W (Unit {0})
  fetched rest none j = rest
  fetched rest (some raw) j = recovered raw j

  -- The loop over the upstreams.
  unfoldable pub try_all : List Bytes → Job → M W (Unit {0})
  try_all [] j = count Metric.proxy_failed
  try_all (e ∷ es) j =
      let rest = try_all es j in
      do
        stop ← ask deps.is_done
        (if stop then pure tt else (do out ← fetch e j; fetched rest out j))

  -- `for i := 0; i < c.cfg.MaxEndpoints; i++`
  unfoldable pub try_upstreams : Job → M W (Unit {0})
  try_upstreams j = try_all (take (to_ℕ cfg.max_endpoints) cfg.upstreams) j

  -- The answer to the claim: an error does not stop the recovery, a claim that is held does.
  unfoldable pub claimed : Bool × Bool → Job → M W (Unit {0})
  claimed (false, set) j = try_upstreams j
  claimed (true, true) j = try_upstreams j
  claimed (true, false) j = count Metric.inflight_dedup

  -- `recover`
  unfoldable pub recover : Job → M W (Unit {0})
  recover j = do
    count Metric.request
    (if cfg.dedup
        then (do
          out ← ask (λ w. deps.set_nx w (claim_key cfg.unicast j) cfg.dedup_window)
          claimed out j)
        else try_upstreams j)
