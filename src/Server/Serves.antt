-- ===== src/Server/Serves.antt =====
-- A NACK that the tiers let through and whose frame is found (server/server.go, `processNACK`): what
-- is multicast.

use retry_endpoint.Frames.{FrameLib}
use retry_endpoint.Prelude.{
  ℕ, ◌≡◌, refl, ap, sym, subst, ◌∙◌, Bool, true, false, Option, none, some, List, [], ◌∷◌, ◌==◌,
  if-both, arith,
}
use retry_endpoint.Prelude.Bytes.{Bytes}
use retry_endpoint.RateLimit.Tiers.{IpBytes, Level}
use retry_endpoint.Server.Calls
use retry_endpoint.Server.Calls.{Deps, Call, UdpAddr, Retrieved, Sent, Metric, Label}
use retry_endpoint.Server.Handler
use retry_endpoint.Server.Handler.{Server}
use retry_endpoint.Server.Wire.{Request, msg_type_ack, cache_key, parse_request, validate_nack}

-- The frame of a call of the retransmitter that put it on the wire.
abbrev sent_frame : Bytes → Sent → List Bytes → List Bytes
sent_frame raw Sent.sent rest = raw ∷ rest
sent_frame raw Sent.suppressed rest = rest
sent_frame raw Sent.failed rest = rest

-- The frames that the retransmitter reports as sent, the latest first.
abbrev pub multicasts : List Call → List Bytes
multicasts [] = []
multicasts (Call.retransmit raw out ∷ cs) = sent_frame raw out (multicasts cs)
multicasts (Call.metric m ∷ cs) = multicasts cs
multicasts (Call.retransmit_unicast raw a ok ∷ cs) = multicasts cs
multicasts (Call.enqueue h n t a ∷ cs) = multicasts cs
multicasts (Call.write_to buf a ok ∷ cs) = multicasts cs

module _ {W : Type 0} (lib : FrameLib) (deps : Deps W) (s : Server) where
  -- Counting changes no world and multicasts nothing.
  pub count-multicasts :
      (m : Metric) (r : Calls.Run W)
      → (multicasts (Handler.count lib deps s m r).1.calls ≡ multicasts r.calls)
        × ((Handler.count lib deps s m r).1.world ≡ r.world)
  unfolding Handler.count
  count-multicasts m r =
      if-both
        (λ (out : Unit {0} × Calls.Run W).
          (multicasts out.1.calls ≡ multicasts r.calls) × (out.1.world ≡ r.world))
        s.rec (λ e. (refl, refl)) (λ e. (refl, refl))

  respond-multicasts :
      (l : Label) (a : UdpAddr) (t f n : ℕ) (r : Calls.Run W)
      → multicasts (Handler.respond lib deps s l a t f n r).1.calls ≡ multicasts r.calls
  unfolding Handler.respond
  respond-multicasts l a t f n r = (count-multicasts _ _).0

  acknowledge-multicasts :
      (q : Request) (src : Option UdpAddr) (flags : ℕ) (r : Calls.Run W)
      → multicasts (Handler.acknowledge lib deps s q src flags r).1.calls ≡ multicasts r.calls
  unfolding Handler.acknowledge
  acknowledge-multicasts q none flags r = refl
  acknowledge-multicasts q (some a) flags r =
      ground (arith, respond-multicasts Label.ack a msg_type_ack flags q.start_seq r)

  unicast-multicasts :
      (q : Request) (src : Option UdpAddr) (raw : Bytes) (flags : ℕ) (r : Calls.Run W)
      → multicasts (Handler.unicast lib deps s q src raw flags r).1.calls ≡ multicasts r.calls
  unfolding Handler.unicast
  unicast-multicasts q none raw flags r = refl
  unicast-multicasts q (some a) raw flags r = ground (
    arith,
    count-multicasts Metric.unicast_retransmit (record {
      world = (deps.retransmit_unicast r.world raw a).1;
      calls = Call.retransmit_unicast raw a (deps.retransmit_unicast r.world raw a).0 ∷ r.calls;
    }),
  )

  finish-multicasts :
      (q : Request) (src : Option UdpAddr) (raw : Bytes) (flags : ℕ) (r : Calls.Run W)
      → multicasts (Handler.finish lib deps s q src raw flags r).1.calls ≡ multicasts r.calls
  unfolding Handler.finish
  finish-multicasts q src raw flags r =
      acknowledge-multicasts q src _ _ ∙ unicast-multicasts q src raw flags r

  after-multicasts :
      (out : Sent) (q : Request) (src : Option UdpAddr) (raw : Bytes) (r : Calls.Run W)
      → multicasts (Handler.after_retransmit lib deps s out q src raw r).1.calls
        ≡ multicasts r.calls
  unfolding Handler.after_retransmit
  after-multicasts Sent.sent q src raw r =
      finish-multicasts q src raw _ _ ∙ (count-multicasts _ r).0
  after-multicasts Sent.suppressed q src raw r = finish-multicasts q src raw 0 r
  after-multicasts Sent.failed q src raw r = refl

  serve-multicasts :
      (q : Request) (src : Option UdpAddr) (raw : Bytes) (r : Calls.Run W)
      → s.retransmit_mc ≡ true
      → (deps.retransmit r.world raw (Handler.tx_id raw)).0 ≡ Sent.sent
      → multicasts (Handler.serve lib deps s q src raw r).1.calls ≡ raw ∷ multicasts r.calls
  unfolding Handler.serve
  serve-multicasts q src raw r e sent = ground (
    arith,
    after-multicasts (deps.retransmit r.world raw (Handler.tx_id raw)).0 q src raw (record {
      world = (deps.retransmit r.world raw (Handler.tx_id raw)).1;
      calls = Call.retransmit raw (deps.retransmit r.world raw (Handler.tx_id raw)).0 ∷ r.calls;
    }),
  )

  group_verdict-multicasts :
      (ok : Bool) (q : Request) (src : Option UdpAddr) (raw : Bytes) (r : Calls.Run W)
      → s.retransmit_mc ≡ true
      → ok ≡ true
      → (deps.retransmit r.world raw (Handler.tx_id raw)).0 ≡ Sent.sent
      → multicasts (Handler.group_verdict lib deps s ok q src raw r).1.calls
        ≡ raw ∷ multicasts r.calls
  unfolding Handler.group_verdict
  group_verdict-multicasts true q src raw r e h sent = serve-multicasts q src raw r e sent
  group_verdict-multicasts false q src raw r e h sent = absurd (cc h)

  -- The group tier lets a frame through, where there is an engine, and the retransmitter then reports
  -- it as sent: no sibling has claimed it, and no write fails.
  abbrev pub Sends : Option (Bytes → ℕ) → IpBytes → Bytes → W → Type 0
  Sends none src_ip raw w = (deps.retransmit w raw (Handler.tx_id raw)).0 ≡ Sent.sent
  Sends (some group_index) src_ip raw w =
      let out = deps.allow_group w src_ip (Handler.rate_group lib deps s group_index raw) in
      (out.0 ≡ true) × ((deps.retransmit out.1 raw (Handler.tx_id raw)).0 ≡ Sent.sent)

  check_group-multicasts :
      (engine : Option (Bytes → ℕ)) (q : Request) (src_ip : IpBytes) (src : Option UdpAddr)
      (raw : Bytes) (r : Calls.Run W)
      → s.retransmit_mc ≡ true
      → Sends engine src_ip raw r.world
      → multicasts (Handler.check_group lib deps s engine q src_ip src raw r).1.calls
        ≡ raw ∷ multicasts r.calls
  unfolding Handler.check_group
  check_group-multicasts none q src_ip src raw r e h = serve-multicasts q src raw r e h
  check_group-multicasts (some group_index) q src_ip src raw r e h =
      group_verdict-multicasts _ q src raw _ e h.0 h.1

  -- The frame is found, and is sent.
  retrieved-multicasts :
      (found : Retrieved) (q : Request) (src_ip : IpBytes) (src : Option UdpAddr) (raw : Bytes)
      (r : Calls.Run W)
      → s.retransmit_mc ≡ true
      → found ≡ Retrieved.found raw
      → Sends s.shard_engine src_ip raw r.world
      → multicasts (Handler.retrieved lib deps s found q src_ip src r).1.calls
        ≡ raw ∷ multicasts r.calls
  unfolding Handler.retrieved Handler.hit
  retrieved-multicasts Retrieved.failed q src_ip src raw r e f h = absurd (cc f)
  retrieved-multicasts Retrieved.missing q src_ip src raw r e f h = absurd (cc f)
  retrieved-multicasts (Retrieved.found other) q src_ip src raw r e f h =
      let same : other ≡ raw = cc f in
      let counted = count-multicasts Metric.cache_hit r in
      rw same (
        check_group-multicasts s.shard_engine q src_ip src raw _ e
          (subst (Sends s.shard_engine src_ip raw) (sym counted.1) h)
        ∙ ap (◌∷◌ raw) counted.0)

  -- The worlds after the tiers of the lookup's key, and after the lookup.
  abbrev pub asked : Request → IpBytes → W → W
  asked q src_ip w =
      (deps.allow_chain (deps.allow w src_ip q.hash_key q.start_seq).1 src_ip q.hash_key).1

  -- A NACK for one frame that is let through by every tier, and finds the frame, which is sent.
  pub record Served (q : Request) (src : Option UdpAddr) (raw : Bytes) (w : W) : Type 0 where
    pub single : (q.end_seq == q.start_seq) ≡ true
    pub admitted : (deps.allow w (Handler.source_ip lib deps s src) q.hash_key q.start_seq).0 ≡ none
    pub chained :
        (deps.allow_chain
          (deps.allow w (Handler.source_ip lib deps s src) q.hash_key q.start_seq).1
          (Handler.source_ip lib deps s src)
          q.hash_key).0
        ≡ true
    pub found :
        (deps.retrieve
          (asked q (Handler.source_ip lib deps s src) w)
          (cache_key q.hash_key q.start_seq)).0
        ≡ Retrieved.found raw
    pub sends :
        Sends s.shard_engine
          (Handler.source_ip lib deps s src)
          raw
          (deps.retrieve
            (asked q (Handler.source_ip lib deps s src) w)
            (cache_key q.hash_key q.start_seq)).1

  chain_verdict-multicasts :
      (ok : Bool) (q : Request) (src_ip : IpBytes) (src : Option UdpAddr) (raw : Bytes)
      (r : Calls.Run W)
      → s.retransmit_mc ≡ true
      → ok ≡ true
      → (deps.retrieve r.world (cache_key q.hash_key q.start_seq)).0 ≡ Retrieved.found raw
      → Sends s.shard_engine src_ip raw (deps.retrieve r.world (cache_key q.hash_key q.start_seq)).1
      → multicasts (Handler.chain_verdict lib deps s ok q src_ip src r).1.calls
        ≡ raw ∷ multicasts r.calls
  unfolding Handler.chain_verdict Handler.look_up
  chain_verdict-multicasts true q src_ip src raw r e h f g =
      retrieved-multicasts _ q src_ip src raw _ e f g
  chain_verdict-multicasts false q src_ip src raw r e h f g = absurd (cc h)

  tier_verdict-multicasts :
      (refused : Option Level) (q : Request) (src_ip : IpBytes) (src : Option UdpAddr) (raw : Bytes)
      (r : Calls.Run W)
      → s.retransmit_mc ≡ true
      → refused ≡ none
      → (deps.allow_chain r.world src_ip q.hash_key).0 ≡ true
      → (deps.retrieve
          (deps.allow_chain r.world src_ip q.hash_key).1
          (cache_key q.hash_key q.start_seq)).0
        ≡ Retrieved.found raw
      → Sends s.shard_engine src_ip raw
          (deps.retrieve
            (deps.allow_chain r.world src_ip q.hash_key).1
            (cache_key q.hash_key q.start_seq)).1
      → multicasts (Handler.tier_verdict lib deps s refused q src_ip src r).1.calls
        ≡ raw ∷ multicasts r.calls
  unfolding Handler.tier_verdict
  tier_verdict-multicasts none q src_ip src raw r e h c f g =
      chain_verdict-multicasts _ q src_ip src raw _ e c f g
  tier_verdict-multicasts (some level) q src_ip src raw r e h c f g = absurd (cc h)

  handle-multicasts :
      (q : Request) (src : Option UdpAddr) (raw : Bytes) (r : Calls.Run W)
      → s.retransmit_mc ≡ true
      → Served q src raw r.world
      → multicasts (Handler.handle lib deps s q src r).1.calls ≡ raw ∷ multicasts r.calls
  unfolding Handler.handle Handler.admit
  handle-multicasts q src raw r e h =
      rw h.single (tier_verdict-multicasts _ q _ src raw _ e h.admitted h.chained h.found h.sends)

  -- A valid NACK for one frame that is served has the frame multicast once, unchanged, on an endpoint in
  -- multicast mode.
  pub process_nack-multicasts :
      (datagram : Bytes) (src : Option UdpAddr) (raw : Bytes) (r : Calls.Run W)
      → s.retransmit_mc ≡ true
      → validate_nack lib datagram ≡ none
      → Served (parse_request datagram) src raw r.world
      → multicasts (Handler.process_nack lib deps s datagram src r).1.calls
        ≡ raw ∷ multicasts r.calls
  unfolding Handler.process_nack Handler.validated
  process_nack-multicasts datagram src raw r e valid h =
      let counted = count-multicasts Metric.nack_request r in
      rw valid (
        handle-multicasts (parse_request datagram) src raw _ e
          (subst (Served (parse_request datagram) src raw) (sym counted.1) h)
        ∙ ap (◌∷◌ raw) counted.0)
