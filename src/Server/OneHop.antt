-- ===== src/Server/OneHop.antt =====
-- The submissions of a NACK worker to the proxy (server/server.go, `processNACK`).
use retry_endpoint.Frames.{FrameLib}
use retry_endpoint.Prelude.{
  ℕ, ◌+◌, ◌≤◌, ◌≡◌, refl, ◌∙◌, Bool, true, false, ◌&&◌, not, Option, none, some, ◌∷◌, arith,
  if◌then◌else◌, ◌==◌,
}
use retry_endpoint.Prelude.Bytes.{Bytes}
use retry_endpoint.RateLimit.Tiers.{Level, IpBytes}
use retry_endpoint.Effects.{pure, ◌>>◌}
use retry_endpoint.Server.Calls.{UdpAddr, Retrieved, Sent, Label, Metric, Call, Deps, Run, enqueues}
use retry_endpoint.Server.Handler
use retry_endpoint.Server.Handler.{Server}
use retry_endpoint.Server.Wire.{NackError, Request, parse_request, validate_nack}

module _ {W : Type 0} (lib : FrameLib) (deps : Deps W) (s : Server) where
  abbrev enqueued : {A : Type 0} → A × Run W → ℕ
  enqueued out = enqueues out.1.calls

  enqueues-count :
      (m : Metric) (r : Run W) → enqueued (Handler.count lib deps s m r) ≡ enqueues r.calls
  unfolding Handler.count
  enqueues-count m r = ground arith

  enqueues-respond :
      (label : Label) (a : UdpAddr) (t flags n : ℕ) (r : Run W)
      → enqueued (Handler.respond lib deps s label a t flags n r) ≡ enqueues r.calls
  unfolding Handler.respond Handler.count
  enqueues-respond label a t flags n r = ground arith

  enqueues-throttle :
      (src : Option UdpAddr) (bucket n : ℕ) (r : Run W)
      → enqueued (Handler.throttle lib deps s src bucket n r) ≡ enqueues r.calls
  unfolding Handler.throttle Handler.respond Handler.count
  enqueues-throttle none bucket n r = refl
  enqueues-throttle (some a) bucket n r = ground arith

  enqueues-finish :
      (q : Request) (src : Option UdpAddr) (raw : Bytes) (flags : ℕ) (r : Run W)
      → enqueued (Handler.finish lib deps s q src raw flags r) ≡ enqueues r.calls
  unfolding Handler.finish Handler.unicast Handler.acknowledge Handler.respond Handler.count
  enqueues-finish q none raw flags r = refl
  enqueues-finish q (some a) raw flags r = ground arith

  enqueues-after_retransmit :
      (out : Sent) (q : Request) (src : Option UdpAddr) (raw : Bytes) (r : Run W)
      → enqueued (Handler.after_retransmit lib deps s out q src raw r) ≡ enqueues r.calls
  unfolding Handler.after_retransmit
  enqueues-after_retransmit Sent.sent q src raw r =
      enqueues-finish q src raw _ _ ∙ enqueues-count Metric.retransmit r
  enqueues-after_retransmit Sent.suppressed q src raw r = enqueues-finish q src raw _ r
  enqueues-after_retransmit Sent.failed q src raw r = refl

  enqueues-serve :
      (q : Request) (src : Option UdpAddr) (raw : Bytes) (r : Run W)
      → enqueued (Handler.serve lib deps s q src raw r) ≡ enqueues r.calls
  unfolding Handler.serve
  enqueues-serve q src raw r = ground (
    arith,
    enqueues-after_retransmit (deps.retransmit r.world raw (Handler.tx_id raw)).0 q src raw
        (record {
          world = (deps.retransmit r.world raw (Handler.tx_id raw)).1;
          calls = Call.retransmit raw (deps.retransmit r.world raw (Handler.tx_id raw)).0 ∷ r.calls;
        }),
    enqueues-finish q src raw 0 r,
  )

  enqueues-check_group :
      (engine : Option (Bytes → ℕ)) (q : Request) (src_ip : IpBytes) (src : Option UdpAddr)
      (raw : Bytes) (r : Run W)
      → enqueued (Handler.check_group lib deps s engine q src_ip src raw r) ≡ enqueues r.calls
  unfolding Handler.check_group Handler.group_verdict
  enqueues-check_group none q src_ip src raw r = enqueues-serve q src raw r
  enqueues-check_group (some f) q src_ip src raw r = go _ _
    where
      go :
          (ok : Bool) (r' : Run W)
          → enqueued (Handler.group_verdict lib deps s ok q src raw r') ≡ enqueues r'.calls
      go true r' = enqueues-serve q src raw r'
      go false r' = enqueues-throttle src _ _ _ ∙ enqueues-count _ r'

  -- What a miss submits: one job, or none.
  unfoldable pub submitted : Request → ℕ
  submitted q = if s.proxy && not q.proxied then 1 else 0

  enqueues-miss :
      (q : Request) (src : Option UdpAddr) (r : Run W)
      → enqueued (Handler.miss lib deps s q src r) ≡ submitted q + enqueues r.calls
  unfolding Handler.miss Handler.reply_miss Handler.recover Handler.respond Handler.count submitted
  enqueues-miss q none r = ground arith
  enqueues-miss q (some a) r = ground arith

  enqueues-retrieved :
      (out : Retrieved) (q : Request) (src_ip : IpBytes) (src : Option UdpAddr) (r : Run W)
      → enqueued (Handler.retrieved lib deps s out q src_ip src r)
        ≡ elim out [ Retrieved.missing ↦ submitted q + enqueues r.calls | _ ↦ enqueues r.calls ]
  unfolding Handler.retrieved Handler.hit
  enqueues-retrieved Retrieved.failed q src_ip src r = enqueues-count _ r
  enqueues-retrieved Retrieved.missing q src_ip src r = enqueues-miss q src r
  enqueues-retrieved (Retrieved.found raw) q src_ip src r =
      enqueues-check_group s.shard_engine q src_ip src raw _ ∙ enqueues-count _ r

  -- Nothing but the proxy's own submission is added, and that at most once.
  abbrev Within : Request → Run W → ℕ → Type 0
  Within q r n = (enqueues r.calls ≤ n) × (n ≤ submitted q + enqueues r.calls)

  retrieved-Within :
      (out : Retrieved) (q : Request) (src_ip : IpBytes) (src : Option UdpAddr) (r : Run W)
      → Within q r (enqueued (Handler.retrieved lib deps s out q src_ip src r))
  retrieved-Within Retrieved.failed q src_ip src r =
      omega (arith, enqueues-retrieved Retrieved.failed q src_ip src r)
  retrieved-Within Retrieved.missing q src_ip src r =
      omega (arith, enqueues-retrieved Retrieved.missing q src_ip src r)
  retrieved-Within (Retrieved.found raw) q src_ip src r =
      omega (arith, enqueues-retrieved (Retrieved.found raw) q src_ip src r)

  dropped-Within :
      (level : Level) (q : Request) (src : Option UdpAddr) (bucket n : ℕ) (r : Run W)
      → Within q r (
          enqueued (
            (Handler.count lib deps s (Metric.rate_limit_drop level)
                >> Handler.throttle lib deps s src bucket n)
              r))
  dropped-Within level q src bucket n r = omega (
    arith,
    enqueues-throttle src bucket n (Handler.count lib deps s (Metric.rate_limit_drop level) r).1,
    enqueues-count (Metric.rate_limit_drop level) r,
  )

  chain_verdict-Within :
      (ok : Bool) (q : Request) (src_ip : IpBytes) (src : Option UdpAddr) (r : Run W)
      → Within q r (enqueued (Handler.chain_verdict lib deps s ok q src_ip src r))
  unfolding Handler.chain_verdict Handler.look_up
  chain_verdict-Within true q src_ip src r = retrieved-Within _ q src_ip src _
  chain_verdict-Within false q src_ip src r = dropped-Within _ q src _ _ r

  tier_verdict-Within :
      (refused : Option Level) (q : Request) (src_ip : IpBytes) (src : Option UdpAddr) (r : Run W)
      → Within q r (enqueued (Handler.tier_verdict lib deps s refused q src_ip src r))
  unfolding Handler.tier_verdict Handler.refuse
  tier_verdict-Within (some Level.ip) q src_ip src r =
      omega (arith, enqueues-count (Metric.rate_limit_drop Level.ip) r)
  tier_verdict-Within (some Level.chain) q src_ip src r =
      omega (arith, enqueues-count (Metric.rate_limit_drop Level.chain) r)
  tier_verdict-Within (some Level.sequence) q src_ip src r = dropped-Within _ q src _ _ r
  tier_verdict-Within (some Level.group) q src_ip src r =
      omega (arith, enqueues-count (Metric.rate_limit_drop Level.group) r)
  tier_verdict-Within none q src_ip src r = chain_verdict-Within _ q src_ip src _

  handle-Within :
      (q : Request) (src : Option UdpAddr) (r : Run W)
      → Within q r (enqueued (Handler.handle lib deps s q src r))
  unfolding Handler.handle Handler.admit
  handle-Within q src r = go (q.end_seq == q.start_seq)
    where
      go :
          (b : Bool)
          → Within q r (
              enqueued (
                (if b
                    then Handler.admit lib deps s q (Handler.source_ip lib deps s src) src
                    else pure tt)
                  r))
      go true = tier_verdict-Within _ q _ src _
      go false = omega arith

  validated-Within :
      (out : Option NackError) (datagram : Bytes) (src : Option UdpAddr) (r : Run W)
      → Within
          (parse_request datagram)
          r
          (enqueued (Handler.validated lib deps s out datagram src r))
  unfolding Handler.validated
  validated-Within (some err) datagram src r = omega arith
  validated-Within none datagram src r = handle-Within (parse_request datagram) src r

  -- Handling a NACK submits at most one recovery job to the proxy, and none at all where there is
  -- no proxy or the NACK carries the proxied flag: a chain of endpoints is one hop long.
  pub process_nack-enqueues :
      (datagram : Bytes) (src : Option UdpAddr) (r : Run W)
      → let n = enqueues (Handler.process_nack lib deps s datagram src r).1.calls in
        (enqueues r.calls ≤ n)
        × (n
            ≤ (if s.proxy && not (parse_request datagram).proxied then 1 else 0) + enqueues r.calls)
  unfolding Handler.process_nack submitted
  process_nack-enqueues datagram src r = omega (
    arith,
    validated-Within (validate_nack lib datagram) datagram src
        (Handler.count lib deps s Metric.nack_request r).1,
    enqueues-count Metric.nack_request r,
  )
