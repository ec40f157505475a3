-- ===== src/Startup/Wiring.antt =====
-- The parts that `run` makes from the configuration (main.go): the server, the proxy, and the
-- backends of the dedup gates.
use retry_endpoint.Config.Parts.{Config, Backend}
use retry_endpoint.Config.Text.{Text, is_empty}
use retry_endpoint.Prelude.{
  ℕ, ◌≡◌, arith, Bool, true, false, Option, none, some, List, if◌then◌else◌,
}
use retry_endpoint.Prelude.Bytes.{Bytes}
use retry_endpoint.Proxy
use retry_endpoint.RateLimit.Tiers.{Runtime}
use retry_endpoint.Retransmit.Open
use retry_endpoint.Server.Handler
use retry_endpoint.Server.Handler.{Server}

-- The backend of the dedup gates: that of the frames, or a Redis of its own.
pub data DedupBackend : Type 0 where
  of_frames own_redis : DedupBackend

-- `switch cfg.CacheBackend`; `opens` says whether the Redis of its own can be opened.
unfoldable pub dedup_backend : Backend → Text → Bool → Option DedupBackend
dedup_backend Backend.redis addr opens = some of_frames
dedup_backend Backend.aerospike addr opens = some of_frames
dedup_backend Backend.memory addr opens =
    if is_empty addr then none else if opens then some own_redis else none

module _ {rt : Runtime} (cfg : Config rt) where
  -- `srv`; `tx_group` and `beef_group` are the GroupIndex functions of the two engines.
  unfoldable pub server_of : (Bytes → ℕ) → (Bytes → ℕ) → Server
  server_of tx_group beef_group =
      let made =
        Handler.set_retransmit_modes
          (Handler.set_beef_engine
            (Handler.set_shard_engine
              (Handler.set_throttle_response
                (Handler.set_suppress_miss
                  (Handler.set_suppress_ack (Handler.new true) cfg.server.suppress_ack)
                  cfg.server.suppress_miss)
                cfg.server.throttle_response)
              (some tx_group))
            (some beef_group))
          cfg.beacon.multicast cfg.beacon.unicast in
      if cfg.proxy.enabled then Handler.set_proxy made else made

  -- `proxyClient`, without its queue: nil where the proxy is not enabled.
  unfoldable pub proxy_of : Option DedupBackend → Bytes → Option Proxy.Config
  proxy_of dedup nack_ip =
      if cfg.proxy.enabled
      then some (
          Proxy.new (record {
            upstreams = cfg.proxy.upstreams;
            source_ip = some nack_ip;
            timeout = cfg.proxy.timeout;
            max_endpoints = cfg.proxy.max_endpoints;
            dedup_window = cfg.proxy.dedup_window;
            workers = cfg.proxy.workers;
            queue_depth = cfg.proxy.queue_depth;
            dedup = elim dedup [ none ↦ false | some b ↦ true ];
            ttls = cfg.ttls;
            rec = true;
            multicast = cfg.beacon.multicast;
            unicast = cfg.beacon.unicast;
          }))
      else none

  -- What `run` gives the retransmitter before `Open`.
  unfoldable pub egress_of : List Open.Interface → Bytes → Open.Egress
  egress_of ifaces nack_ip = Open.set_multicast_loop cfg.server.multicast_loop (
      Open.set_unicast_source nack_ip
        (record { ifaces = ifaces; unicast_src = none; multicast_loop = false }))

  pub server_of-retransmit_mc :
      (tx_group beef_group : Bytes → ℕ)
      → (server_of tx_group beef_group).retransmit_mc ≡ cfg.beacon.multicast
  unfolding server_of Handler.set_retransmit_modes Handler.set_proxy
  server_of-retransmit_mc tx_group beef_group = ground arith

  pub server_of-shard_engine :
      (tx_group beef_group : Bytes → ℕ)
      → (server_of tx_group beef_group).shard_engine ≡ some tx_group
  unfolding server_of Handler.set_retransmit_modes Handler.set_proxy Handler.set_beef_engine
      Handler.set_shard_engine
  server_of-shard_engine tx_group beef_group = ground arith

  -- The server submits to a proxy exactly where there is one, which delivers in the server's modes
  -- and caches again for the configured lifetimes.
  abbrev Agrees : Server → Option Proxy.Config → Type 0
  Agrees s none = s.proxy ≡ false
  Agrees s (some p) =
      (s.proxy ≡ true)
      × (p.multicast ≡ s.retransmit_mc)
      × (p.unicast ≡ s.retransmit_uc)
      × (p.ttls ≡ cfg.ttls)

  server_of-Agrees :
      (tx_group beef_group : Bytes → ℕ) (dedup : Option DedupBackend) (nack_ip : Bytes)
      → Agrees (server_of tx_group beef_group) (proxy_of dedup nack_ip)
  unfolding server_of proxy_of Proxy.new Handler.new Handler.set_retransmit_modes Handler.set_proxy
      Handler.set_suppress_ack Handler.set_suppress_miss Handler.set_throttle_response
      Handler.set_shard_engine Handler.set_beef_engine
  server_of-Agrees tx_group beef_group dedup nack_ip = ground arith
