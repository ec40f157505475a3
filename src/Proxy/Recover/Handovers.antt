-- ===== src/Proxy/Recover/Handovers.antt =====
-- What a recovered frame is handed to (proxy/proxy.go, `recover` and `store`).
use retry_endpoint.Effects.{Run, pure, ◌>>=◌, ◌>>◌, ask, note}
use retry_endpoint.Frames.{FrameLib}
use retry_endpoint.Prelude.{
  ◌≤◌, ◌≡◌, refl, ap, ◌∙◌, Bool, true, false, Option, none, some, List, [], ◌∷◌, ◌++◌, arith,
  length, get_or, if◌then◌else◌,
}
use retry_endpoint.Prelude.Bytes.{Bytes, slice}
use retry_endpoint.Prelude.Int.{ℤ}
use retry_endpoint.Ingress.Lifetimes.{lifetime}
use retry_endpoint.Proxy.{Config, Job, ttl_for}
use retry_endpoint.Proxy.Recover
use retry_endpoint.Proxy.Recover.{Call, Deps, Metric}
use retry_endpoint.Server.Calls.{UdpAddr, Sent}

-- What the proxy hands over, whatever comes of it: a frame to `Retransmit`, to `RetransmitUnicast`
-- with a requester, and to the cache's `Store` with a key and a lifetime.
pub data Handover : Type 0 where
  multicast : Bytes → Handover
  unicast : Bytes → UdpAddr → Handover
  store : Bytes → Bytes → ℤ → Handover

-- The latest first.
abbrev pub handovers : List Call → List Handover
handovers [] = []
handovers (Call.write_nack buf a ok ∷ cs) = handovers cs
handovers (Call.metric m ∷ cs) = handovers cs
handovers (Call.cache_store k raw ttl ok ∷ cs) = Handover.store k raw ttl ∷ handovers cs
handovers (Call.retransmit raw out ∷ cs) = Handover.multicast raw ∷ handovers cs
handovers (Call.retransmit_unicast raw a ok ∷ cs) = Handover.unicast raw a ∷ handovers cs

module _ {W : Type 0} (lib : FrameLib) (deps : Deps W) (cfg : Config) where
  abbrev pub kept : Bytes → Handover
  kept raw =
      Handover.store (slice 40 8 raw ++ slice 48 8 raw) raw (lifetime lib cfg.ttls (get_or raw 6 0))

  abbrev pub to_group : Bytes → List Handover → List Handover
  to_group raw ds = if cfg.multicast then Handover.multicast raw ∷ ds else ds

  abbrev pub to_requester : Bytes → Option UdpAddr → List Handover → List Handover
  to_requester raw none ds = ds
  to_requester raw (some a) ds = if cfg.unicast then Handover.unicast raw a ∷ ds else ds

  count-handovers :
      (m : Metric) (r : Run W Call)
      → handovers (Recover.count lib deps cfg m r).1.calls ≡ handovers r.calls
  unfolding Recover.count
  count-handovers m r = ground arith

  store-handovers :
      (raw : Bytes) (r : Run W Call)
      → lib.header_size ≤ length raw
      → handovers (Recover.store lib deps cfg raw r).1.calls ≡ kept raw ∷ handovers r.calls
  unfolding Recover.store ttl_for
  store-handovers raw r h = ground arith

  multicast_result-handovers :
      (out : Sent) (r : Run W Call)
      → handovers (Recover.multicast_result lib deps cfg out r).1.calls ≡ handovers r.calls
  unfolding Recover.multicast_result
  multicast_result-handovers Sent.sent r = count-handovers Metric.retransmit r
  multicast_result-handovers Sent.suppressed r = refl
  multicast_result-handovers Sent.failed r = refl

  multicast-handovers :
      (raw : Bytes) (r : Run W Call)
      → handovers (Recover.multicast lib deps cfg raw r).1.calls ≡ to_group raw (handovers r.calls)
  unfolding Recover.multicast
  multicast-handovers raw r = go cfg.multicast
    where
      go :
          (b : Bool)
          → handovers
              ((if b
                  then (ask (λ w. deps.retransmit w raw (slice 8 32 raw)) >>= λ out.
                      note (Call.retransmit raw out) >> Recover.multicast_result lib deps cfg out)
                  else pure tt)
                r).1.calls
            ≡ (if b then Handover.multicast raw ∷ handovers r.calls else handovers r.calls)
      go true = multicast_result-handovers _ _
      go false = refl

  unicast-handovers :
      (raw : Bytes) (o : Option UdpAddr) (r : Run W Call)
      → handovers (Recover.unicast lib deps cfg raw o r).1.calls
        ≡ to_requester raw o (handovers r.calls)
  unfolding Recover.unicast Recover.count
  unicast-handovers raw none r = refl
  unicast-handovers raw (some a) r = ground arith

  -- A recovered frame, long enough to be one, is handed to the cache under the 16 bytes of its HashKey
  -- and SeqNum with the lifetime of its version; then to the multicast retransmitter if that mode is
  -- on, and then to the unicast one, with the requester, if that mode is on and the requester is
  -- known: each of these once, in this order, whatever the ones before answer, and to nothing else.
  pub recovered-handovers :
      (raw : Bytes) (j : Job) (r : Run W Call)
      → lib.header_size ≤ length raw
      → handovers (Recover.recovered lib deps cfg raw j r).1.calls
        ≡ to_requester raw j.requester (to_group raw (kept raw ∷ handovers r.calls))
  unfolding Recover.recovered
  recovered-handovers raw j r h =
      count-handovers Metric.proxy_recovered _
      ∙ unicast-handovers raw j.requester _
      ∙ ap (to_requester raw j.requester)
          (multicast-handovers raw _ ∙ ap (to_group raw) (store-handovers raw r h))
