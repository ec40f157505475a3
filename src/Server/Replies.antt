-- ===== src/Server/Replies.antt =====
-- The datagrams that a NACK worker writes (server/server.go, `processNACK` and the two functions
-- that send).
use retry_endpoint.Frames.{FrameLib}
use retry_endpoint.Prelude.{
  subst, if◌then◌else◌, ℕ, ◌≡◌, refl, Bool, true, false, not, ◌⊎◌, inl, inr, Option, none, some,
  List, ◌∷◌, arith, ◌==◌,
}
use retry_endpoint.Prelude.Bytes.{Bytes}
use retry_endpoint.RateLimit.Tiers.{Level, IpBytes}
use retry_endpoint.Effects.{pure, when, ◌>>◌}
use retry_endpoint.Server.Calls.{UdpAddr, Retrieved, Sent, Label, Metric, Deps, Run, M, writes}
use retry_endpoint.Server.Handler
use retry_endpoint.Server.Handler.{Server}
use retry_endpoint.Server.Wire.{NackError, Request, response, parse_request}

-- What a stage may do to the datagrams written: nothing, or one response to the source.
abbrev pub AtMostOne :
    FrameLib → Option UdpAddr → List (UdpAddr × Bytes) → List (UdpAddr × Bytes) → Type 0
AtMostOne lib src before after =
    (after ≡ before)
    ⊎ ((a : UdpAddr) × (t : ℕ) × (flags : ℕ) × (n : ℕ) × (src ≡ some a)
        × (after ≡ (a, response lib t flags n) ∷ before))

after_quiet :
    (lib : FrameLib) (src : Option UdpAddr) {before mid after : List (UdpAddr × Bytes)}
    → mid ≡ before
    → AtMostOne lib src mid after
    → AtMostOne lib src before after
after_quiet lib src {after = after} e h = subst (λ b. AtMostOne lib src b after) e h

-- The two branches of a test.
if_AtMostOne :
    {W : Type 0} (lib : FrameLib) (src : Option UdpAddr) (b : Bool) (m k : M W (Unit {0}))
    (r : Run W)
    → AtMostOne lib src (writes r.calls) (writes (m r).1.calls)
    → AtMostOne lib src (writes r.calls) (writes (k r).1.calls)
    → AtMostOne lib src (writes r.calls) (writes ((if b then m else k) r).1.calls)
if_AtMostOne lib src true m k r yes_case no_case = yes_case
if_AtMostOne lib src false m k r yes_case no_case = no_case

module _ {W : Type 0} (lib : FrameLib) (deps : Deps W) (s : Server) where
  -- The datagrams written by the end of a stage.
  abbrev written : {A : Type 0} → A × Run W → List (UdpAddr × Bytes)
  written out = writes out.1.calls

  pub writes-count :
      (m : Metric) (r : Run W) → written (Handler.count lib deps s m r) ≡ writes r.calls
  unfolding Handler.count
  writes-count m r = ground arith

  pub writes-respond :
      (label : Label) (a : UdpAddr) (t flags n : ℕ) (r : Run W)
      → written (Handler.respond lib deps s label a t flags n r)
        ≡ (a, response lib t flags n) ∷ writes r.calls
  unfolding Handler.respond
  writes-respond label a t flags n r = writes-count _ _

  respond-AtMostOne :
      (label : Label) (a : UdpAddr) (t flags n : ℕ) (b : Bool) (r : Run W)
      → AtMostOne lib
          (some a)
          (writes r.calls)
          (written (when b (Handler.respond lib deps s label a t flags n) r))
  respond-AtMostOne label a t flags n true r =
      inr (a, t, flags, n, refl, writes-respond label a t flags n r)
  respond-AtMostOne label a t flags n false r = inl refl

  throttle-AtMostOne :
      (src : Option UdpAddr) (bucket n : ℕ) (r : Run W)
      → AtMostOne lib src (writes r.calls) (written (Handler.throttle lib deps s src bucket n r))
  unfolding Handler.throttle
  throttle-AtMostOne none bucket n r = inl refl
  throttle-AtMostOne (some a) bucket n r = respond-AtMostOne _ a _ _ n s.throttle_resp r

  reply_miss-AtMostOne :
      (src : Option UdpAddr) (r : Run W)
      → AtMostOne lib src (writes r.calls) (written (Handler.reply_miss lib deps s src r))
  unfolding Handler.reply_miss
  reply_miss-AtMostOne none r = inl refl
  reply_miss-AtMostOne (some a) r = respond-AtMostOne _ a _ _ _ (not s.suppress_miss) r

  acknowledge-AtMostOne :
      (q : Request) (src : Option UdpAddr) (flags : ℕ) (r : Run W)
      → AtMostOne lib src (writes r.calls) (written (Handler.acknowledge lib deps s q src flags r))
  unfolding Handler.acknowledge
  acknowledge-AtMostOne q none flags r = inl refl
  acknowledge-AtMostOne q (some a) flags r = respond-AtMostOne _ a _ _ _ _ r

  writes-recover :
      (q : Request) (src : Option UdpAddr) (r : Run W)
      → written (Handler.recover lib deps s q src r) ≡ writes r.calls
  unfolding Handler.recover
  writes-recover q src r = ground arith

  writes-unicast :
      (q : Request) (src : Option UdpAddr) (raw : Bytes) (flags : ℕ) (r : Run W)
      → written (Handler.unicast lib deps s q src raw flags r) ≡ writes r.calls
  unfolding Handler.unicast Handler.count
  writes-unicast q none raw flags r = refl
  writes-unicast q (some a) raw flags r = ground arith

  miss-AtMostOne :
      (q : Request) (src : Option UdpAddr) (r : Run W)
      → AtMostOne lib src (writes r.calls) (written (Handler.miss lib deps s q src r))
  unfolding Handler.miss
  miss-AtMostOne q src r =
      rw (writes-recover q src _)
        (after_quiet lib src (writes-count Metric.cache_miss r) (reply_miss-AtMostOne src _))

  finish-AtMostOne :
      (q : Request) (src : Option UdpAddr) (raw : Bytes) (flags : ℕ) (r : Run W)
      → AtMostOne lib src (writes r.calls) (written (Handler.finish lib deps s q src raw flags r))
  unfolding Handler.finish
  finish-AtMostOne q src raw flags r =
      after_quiet lib src (writes-unicast q src raw flags r) (acknowledge-AtMostOne q src _ _)

  after_retransmit-AtMostOne :
      (out : Sent) (q : Request) (src : Option UdpAddr) (raw : Bytes) (r : Run W)
      → AtMostOne lib src
          (writes r.calls)
          (written (Handler.after_retransmit lib deps s out q src raw r))
  unfolding Handler.after_retransmit
  after_retransmit-AtMostOne Sent.sent q src raw r =
      after_quiet lib src (writes-count Metric.retransmit r) (finish-AtMostOne q src raw _ _)
  after_retransmit-AtMostOne Sent.suppressed q src raw r = finish-AtMostOne q src raw _ r
  after_retransmit-AtMostOne Sent.failed q src raw r = inl refl

  serve-AtMostOne :
      (q : Request) (src : Option UdpAddr) (raw : Bytes) (r : Run W)
      → AtMostOne lib src (writes r.calls) (written (Handler.serve lib deps s q src raw r))
  unfolding Handler.serve
  serve-AtMostOne q src raw r =
      if_AtMostOne lib src s.retransmit_mc _ _ r (after_retransmit-AtMostOne _ q src raw _)
        (finish-AtMostOne q src raw _ r)

  dropped-AtMostOne :
      (level : Level) (src : Option UdpAddr) (bucket n : ℕ) (r : Run W)
      → AtMostOne lib src (writes r.calls) (
          written (
            (Handler.count lib deps s (Metric.rate_limit_drop level)
                >> Handler.throttle lib deps s src bucket n)
              r))
  dropped-AtMostOne level src bucket n r =
      after_quiet lib src (writes-count (Metric.rate_limit_drop level) r)
        (throttle-AtMostOne src bucket n _)

  check_group-AtMostOne :
      (engine : Option (Bytes → ℕ)) (q : Request) (src_ip : IpBytes) (src : Option UdpAddr)
      (raw : Bytes) (r : Run W)
      → AtMostOne lib src
          (writes r.calls)
          (written (Handler.check_group lib deps s engine q src_ip src raw r))
  unfolding Handler.check_group Handler.group_verdict
  check_group-AtMostOne none q src_ip src raw r = serve-AtMostOne q src raw r
  check_group-AtMostOne (some f) q src_ip src raw r = go _ _
    where
      go :
          (ok : Bool) (r' : Run W)
          → AtMostOne lib src
              (writes r'.calls)
              (written (Handler.group_verdict lib deps s ok q src raw r'))
      go true r' = serve-AtMostOne q src raw r'
      go false r' = dropped-AtMostOne _ src _ _ r'

  retrieved-AtMostOne :
      (out : Retrieved) (q : Request) (src_ip : IpBytes) (src : Option UdpAddr) (r : Run W)
      → AtMostOne lib src
          (writes r.calls)
          (written (Handler.retrieved lib deps s out q src_ip src r))
  unfolding Handler.retrieved Handler.hit
  retrieved-AtMostOne Retrieved.failed q src_ip src r = inl (writes-count _ r)
  retrieved-AtMostOne Retrieved.missing q src_ip src r = miss-AtMostOne q src r
  retrieved-AtMostOne (Retrieved.found raw) q src_ip src r =
      after_quiet lib src (writes-count Metric.cache_hit r)
        (check_group-AtMostOne s.shard_engine q src_ip src raw _)

  chain_verdict-AtMostOne :
      (ok : Bool) (q : Request) (src_ip : IpBytes) (src : Option UdpAddr) (r : Run W)
      → AtMostOne lib src
          (writes r.calls)
          (written (Handler.chain_verdict lib deps s ok q src_ip src r))
  unfolding Handler.chain_verdict Handler.look_up
  chain_verdict-AtMostOne true q src_ip src r = retrieved-AtMostOne _ q src_ip src _
  chain_verdict-AtMostOne false q src_ip src r = dropped-AtMostOne _ src _ _ r

  tier_verdict-AtMostOne :
      (refused : Option Level) (q : Request) (src_ip : IpBytes) (src : Option UdpAddr) (r : Run W)
      → AtMostOne lib src
          (writes r.calls)
          (written (Handler.tier_verdict lib deps s refused q src_ip src r))
  unfolding Handler.tier_verdict Handler.refuse
  tier_verdict-AtMostOne (some Level.ip) q src_ip src r = inl (writes-count _ r)
  tier_verdict-AtMostOne (some Level.chain) q src_ip src r = inl (writes-count _ r)
  tier_verdict-AtMostOne (some Level.sequence) q src_ip src r = dropped-AtMostOne _ src _ _ r
  tier_verdict-AtMostOne (some Level.group) q src_ip src r = inl (writes-count _ r)
  tier_verdict-AtMostOne none q src_ip src r = chain_verdict-AtMostOne _ q src_ip src _

  admit-AtMostOne :
      (q : Request) (src_ip : IpBytes) (src : Option UdpAddr) (r : Run W)
      → AtMostOne lib src (writes r.calls) (written (Handler.admit lib deps s q src_ip src r))
  unfolding Handler.admit
  admit-AtMostOne q src_ip src r = tier_verdict-AtMostOne _ q src_ip src _

  handle-AtMostOne :
      (q : Request) (src : Option UdpAddr) (r : Run W)
      → AtMostOne lib src (writes r.calls) (written (Handler.handle lib deps s q src r))
  unfolding Handler.handle
  handle-AtMostOne q src r =
      if_AtMostOne lib src (q.end_seq == q.start_seq)
        (Handler.admit lib deps s q (Handler.source_ip lib deps s src) src) (pure tt) r
        (admit-AtMostOne q _ src r) (inl refl)

  validated-AtMostOne :
      (out : Option NackError) (datagram : Bytes) (src : Option UdpAddr) (r : Run W)
      → AtMostOne lib src
          (writes r.calls)
          (written (Handler.validated lib deps s out datagram src r))
  unfolding Handler.validated
  validated-AtMostOne (some err) datagram src r = inl refl
  validated-AtMostOne none datagram src r = handle-AtMostOne (parse_request datagram) src r

  -- Whatever the datagram and whatever the dependencies answer, a NACK worker writes at most one
  -- datagram: a response, to the address that the NACK came from.
  pub process_nack-AtMostOne :
      (datagram : Bytes) (src : Option UdpAddr) (r : Run W)
      → AtMostOne lib src
          (writes r.calls)
          (writes (Handler.process_nack lib deps s datagram src r).1.calls)
  unfolding Handler.process_nack
  process_nack-AtMostOne datagram src r =
      after_quiet lib src (writes-count Metric.nack_request r)
        (validated-AtMostOne _ datagram src _)
