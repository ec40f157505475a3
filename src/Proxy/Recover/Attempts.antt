-- ===== src/Proxy/Recover/Attempts.antt =====
-- The NACKs and the sends of a recovery (proxy/proxy.go, `recover`).
use retry_endpoint.Effects.{Run, pure, ◌>>=◌, ◌>>◌, ask, note}
use retry_endpoint.Frames.{FrameLib}
use retry_endpoint.Prelude.{
  ℕ, suc, ◌+◌, ◌≤◌, Bool, true, false, Option, none, some, List, [], ◌∷◌, arith, min, length,
  length-take, take, if◌then◌else◌,
}
use retry_endpoint.Prelude.Bytes.{Bytes, slice}
use retry_endpoint.Prelude.Int.{to_ℕ}
use retry_endpoint.Proxy.{Config, Job, claim_key}
use retry_endpoint.Proxy.Recover
use retry_endpoint.Proxy.Recover.{Call, Deps, Metric}
use retry_endpoint.Server.Calls.{UdpAddr, Sent}

-- The NACKs and the recovered frames of a run.
abbrev pub nacks : List Call → ℕ
nacks [] = 0
nacks (Call.write_nack buf a ok ∷ cs) = suc (nacks cs)
nacks (Call.metric m ∷ cs) = nacks cs
nacks (Call.cache_store k raw ttl ok ∷ cs) = nacks cs
nacks (Call.retransmit raw out ∷ cs) = nacks cs
nacks (Call.retransmit_unicast raw a ok ∷ cs) = nacks cs

abbrev pub sends : List Call → ℕ
sends [] = 0
sends (Call.write_nack buf a ok ∷ cs) = sends cs
sends (Call.metric m ∷ cs) = sends cs
sends (Call.cache_store k raw ttl ok ∷ cs) = sends cs
sends (Call.retransmit raw out ∷ cs) = suc (sends cs)
sends (Call.retransmit_unicast raw a ok ∷ cs) = suc (sends cs)

module _ {W : Type 0} (lib : FrameLib) (deps : Deps W) (cfg : Config) where
  -- A part that adds at most `n` NACKs and `m` sends.
  abbrev Adds : {A : Type 0} → ℕ → ℕ → Recover.M W A → Type 0
  Adds n m act =
      (r : Run W Call)
      → (nacks (act r).1.calls ≤ n + nacks r.calls) × (sends (act r).1.calls ≤ m + sends r.calls)

  count-Adds : (m : Metric) → Adds 0 0 (Recover.count lib deps cfg m)
  unfolding Recover.count
  count-Adds m r = ground arith

  exchange-Adds : (a : UdpAddr) (j : Job) → Adds 1 0 (Recover.exchange lib deps cfg a j)
  unfolding Recover.exchange
  exchange-Adds a j r = ground arith

  listened-Adds :
      (ok : Bool) (a : UdpAddr) (j : Job) → Adds 1 0 (Recover.listened lib deps cfg ok a j)
  unfolding Recover.listened
  listened-Adds true a j = exchange-Adds a j
  listened-Adds false a j = λ r. omega arith

  resolved-Adds : (o : Option UdpAddr) (j : Job) → Adds 1 0 (Recover.resolved lib deps cfg o j)
  unfolding Recover.resolved
  resolved-Adds none j r = omega arith
  resolved-Adds (some a) j r = listened-Adds _ a j _

  fetch-Adds : (e : Bytes) (j : Job) → Adds 1 0 (Recover.fetch lib deps cfg e j)
  unfolding Recover.fetch
  fetch-Adds e j r = resolved-Adds _ j _

  store-Adds : (raw : Bytes) → Adds 0 0 (Recover.store lib deps cfg raw)
  unfolding Recover.store
  store-Adds raw r = ground arith

  multicast_result-Adds : (out : Sent) → Adds 0 0 (Recover.multicast_result lib deps cfg out)
  unfolding Recover.multicast_result
  multicast_result-Adds Sent.sent = count-Adds Metric.retransmit
  multicast_result-Adds Sent.suppressed = λ r. omega arith
  multicast_result-Adds Sent.failed = λ r. omega arith

  multicast-Adds : (raw : Bytes) → Adds 0 1 (Recover.multicast lib deps cfg raw)
  unfolding Recover.multicast
  multicast-Adds raw r = go cfg.multicast
    where
      go :
          (b : Bool)
          → let out =
              ((if b
                  then (ask (λ w. deps.retransmit w raw (slice 8 32 raw)) >>= λ out.
                      note (Call.retransmit raw out) >> Recover.multicast_result lib deps cfg out)
                  else pure tt)
                r).1 in
            (nacks out.calls ≤ 0 + nacks r.calls) × (sends out.calls ≤ 1 + sends r.calls)
      go true = omega (arith, multicast_result-Adds _ _)
      go false = omega arith

  unicast-Adds : (raw : Bytes) (o : Option UdpAddr) → Adds 0 1 (Recover.unicast lib deps cfg raw o)
  unfolding Recover.unicast Recover.count
  unicast-Adds raw none r = omega arith
  unicast-Adds raw (some a) r = ground arith

  recovered-Adds : (raw : Bytes) (j : Job) → Adds 0 2 (Recover.recovered lib deps cfg raw j)
  unfolding Recover.recovered
  recovered-Adds raw j r = omega (
    arith,
    store-Adds raw r,
    multicast-Adds raw (Recover.store lib deps cfg raw r).1,
    unicast-Adds raw j.requester _,
    count-Adds Metric.proxy_recovered _,
  )

  fetched-Adds :
      (n : ℕ) (rest : Recover.M W (Unit {0})) (o : Option Bytes) (j : Job)
      → Adds n 2 rest
      → Adds n 2 (Recover.fetched lib deps cfg rest o j)
  unfolding Recover.fetched
  fetched-Adds n rest none j h = h
  fetched-Adds n rest (some raw) j h = λ r. omega (arith, recovered-Adds raw j r)

  try_all-Adds :
      (es : List Bytes) (j : Job) → Adds (length es) 2 (Recover.try_all lib deps cfg es j)
  unfolding Recover.try_all
  try_all-Adds [] j r = omega (arith, count-Adds Metric.proxy_failed r)
  try_all-Adds (e ∷ es) j r = go (try_all-Adds es j) (deps.is_done r.world).0 _
    where
      rest : Recover.M W (Unit {0})
      rest = Recover.try_all lib deps cfg es j

      go :
          Adds (length es) 2 rest
          → (b : Bool)
          → Adds (suc (length es)) 2 (
              if b
              then pure tt
              else Recover.fetch lib deps cfg e j >>= λ out.
                  Recover.fetched lib deps cfg rest out j)
      go h true r = omega arith
      go h false r = omega (
        arith,
        fetch-Adds e j r,
        fetched-Adds (length es) rest (Recover.fetch lib deps cfg e j r).0 j h
            (Recover.fetch lib deps cfg e j r).1,
      )

  try_upstreams-Adds :
      (j : Job)
      → Adds
          (min (to_ℕ cfg.max_endpoints) (length cfg.upstreams))
          2
          (Recover.try_upstreams lib deps cfg j)
  unfolding Recover.try_upstreams
  try_upstreams-Adds j r = omega (
    arith,
    try_all-Adds (take (to_ℕ cfg.max_endpoints) cfg.upstreams) j r,
    length-take (to_ℕ cfg.max_endpoints) cfg.upstreams,
  )

  claimed-Adds :
      (out : Bool × Bool) (j : Job)
      → Adds
          (min (to_ℕ cfg.max_endpoints) (length cfg.upstreams))
          2
          (Recover.claimed lib deps cfg out j)
  unfolding Recover.claimed
  claimed-Adds (false, set) j = try_upstreams-Adds j
  claimed-Adds (true, true) j = try_upstreams-Adds j
  claimed-Adds (true, false) j = λ r. omega (arith, count-Adds Metric.inflight_dedup r)

  -- One recovery sends no more NACKs than `MaxEndpoints` and no more than there are upstreams, and
  -- makes at most two sends of a recovered frame, whatever the upstreams answer.
  pub recover-Adds :
      (j : Job)
      → Adds
          (min (to_ℕ cfg.max_endpoints) (length cfg.upstreams))
          2
          (Recover.recover lib deps cfg j)
  unfolding Recover.recover
  recover-Adds j r =
      go cfg.dedup (Recover.count lib deps cfg Metric.request r).1 (count-Adds Metric.request r)
    where
      go :
          (b : Bool) (r' : Run W Call)
          → (nacks r'.calls ≤ 0 + nacks r.calls) × (sends r'.calls ≤ 0 + sends r.calls)
          → let out =
              ((if b
                  then (ask (λ w. deps.set_nx w (claim_key cfg.unicast j) cfg.dedup_window)
                      >>= λ out. Recover.claimed lib deps cfg out j)
                  else Recover.try_upstreams lib deps cfg j)
                r').1 in
            (nacks out.calls ≤ min (to_ℕ cfg.max_endpoints) (length cfg.upstreams) + nacks r.calls)
            × (sends out.calls ≤ 2 + sends r.calls)
      go true r' h = omega (arith, claimed-Adds _ j (record r' { world = _ }))
      go false r' h = omega (arith, try_upstreams-Adds j r')
