-- ===== src/Server/Refusals.antt =====
-- A NACK that a tier refuses (server/server.go, `processNACK` and `sendThrottled`).
use Prim.Native.Nat.{bit_and}
use retry_endpoint.Effects.{◌>>◌}
use retry_endpoint.Frames.{FrameLib}
use retry_endpoint.Prelude.{
  ℕ, ◌≡◌, refl, ap, sym, subst, ◌∙◌, true, false, Option, none, some, List, [], ◌∷◌, ◌++◌, ◌==◌,
  arith, if◌then◌else◌,
}
use retry_endpoint.Prelude.Bytes.{Bytes, to_be}
use retry_endpoint.RateLimit.Tiers.{Level, IpBytes}
use retry_endpoint.Server.Calls
use retry_endpoint.Server.Calls.{UdpAddr, Label, Metric, Deps, Call, Retrieved}
use retry_endpoint.Server.Handler
use retry_endpoint.Server.Handler.{Server}
use retry_endpoint.Server.Serves.{asked, count-multicasts}
use retry_endpoint.Server.Wire.{
  Request, response, msg_type_throttled, cache_key, parse_request, validate_nack,
}

-- What the handler does besides counting: a datagram to an address, a frame that is handed to the
-- multicast or the unicast retransmitter, a recovery job. The latest first.
pub data Effect : Type 0 where
  datagram : UdpAddr → Bytes → Effect
  multicast : Bytes → Effect
  unicast : Bytes → UdpAddr → Effect
  job : ℕ → ℕ → Effect

abbrev pub effects : List Call → List Effect
effects [] = []
effects (Call.metric m ∷ cs) = effects cs
effects (Call.retransmit raw out ∷ cs) = Effect.multicast raw ∷ effects cs
effects (Call.retransmit_unicast raw a ok ∷ cs) = Effect.unicast raw a ∷ effects cs
effects (Call.enqueue h n t a ∷ cs) = Effect.job h n ∷ effects cs
effects (Call.write_to buf a ok ∷ cs) = Effect.datagram a buf ∷ effects cs

-- The tiers in the order in which a NACK meets them, the one for groups after the lookup.
pub data Tier : Type 0 where
  of_ip of_sequence of_chain of_group : Tier

-- The bucket that a refusal is hinted with; the IP tier is silent.
abbrev pub bucket : Tier → Option ℕ
bucket of_ip = none
bucket of_sequence = some 2
bucket of_chain = some 3
bucket of_group = some 4

module _ {W : Type 0} (lib : FrameLib) (deps : Deps W) (s : Server) where
  -- The hint, as its 16 bytes: where there is a bucket, the source is known, and hints are enabled.
  abbrev pub hint : Option ℕ → Option UdpAddr → ℕ → List Effect
  hint none src n = []
  hint (some b) none n = []
  hint (some b) (some a) n =
      if s.throttle_resp
      then Effect.datagram a
          (to_be 4 lib.magic ++ (to_be 2 lib.proto_ver ++ (0x13 ∷ b ∷ to_be 8 n)))
        ∷ []
      else []

  -- The tier is the first that refuses the request, in this world.
  abbrev pub RefusedBy : Tier → Request → IpBytes → W → Type 0
  RefusedBy of_ip q ip w = (deps.allow w ip q.hash_key q.start_seq).0 ≡ some Level.ip
  RefusedBy of_sequence q ip w = (deps.allow w ip q.hash_key q.start_seq).0 ≡ some Level.sequence
  RefusedBy of_chain q ip w =
      ((deps.allow w ip q.hash_key q.start_seq).0 ≡ none)
      × ((deps.allow_chain (deps.allow w ip q.hash_key q.start_seq).1 ip q.hash_key).0 ≡ false)
  RefusedBy of_group q ip w =
      ((deps.allow w ip q.hash_key q.start_seq).0 ≡ none)
      × ((deps.allow_chain (deps.allow w ip q.hash_key q.start_seq).1 ip q.hash_key).0 ≡ true)
      × (engine : Bytes → ℕ) × (s.shard_engine ≡ some engine)
      × (raw : Bytes) × (let got =
            deps.retrieve (asked lib deps s q ip w) (cache_key q.hash_key q.start_seq) in
          (got.0 ≡ Retrieved.found raw)
          × ((deps.allow_group got.1 ip (Handler.rate_group lib deps s engine raw)).0 ≡ false))

  pub count-effects :
      (m : Metric) (r : Calls.Run W)
      → effects (Handler.count lib deps s m r).1.calls ≡ effects r.calls
  unfolding Handler.count
  count-effects m r = ground arith

  respond-effects :
      (l : Label) (a : UdpAddr) (msg_type flags n : ℕ) (r : Calls.Run W)
      → effects (Handler.respond lib deps s l a msg_type flags n r).1.calls
        ≡ Effect.datagram a (response lib msg_type flags n) ∷ effects r.calls
  unfolding Handler.respond
  respond-effects l a msg_type flags n r = count-effects _ _

  throttle-effects :
      (b : ℕ) (src : Option UdpAddr) (n : ℕ) (r : Calls.Run W)
      → bit_and b 0x0F ≡ b
      → effects (Handler.throttle lib deps s src b n r).1.calls
        ≡ hint (some b) src n ++ effects r.calls
  unfolding Handler.throttle response
  throttle-effects b none n r low = refl
  throttle-effects b (some a) n r low =
      let sent = respond-effects Label.throttled a msg_type_throttled (bit_and b 0x0F) n r in
      ground (arith, sent)

  -- A drop that is counted at its level, then hinted.
  dropped-effects :
      (level : Level) (b : ℕ) (src : Option UdpAddr) (n : ℕ) (r : Calls.Run W)
      → bit_and b 0x0F ≡ b
      → effects
          ((Handler.count lib deps s (Metric.rate_limit_drop level)
              >> Handler.throttle lib deps s src b n)
            r).1.calls
        ≡ hint (some b) src n ++ effects r.calls
  dropped-effects level b src n r low =
      throttle-effects b src n (Handler.count lib deps s (Metric.rate_limit_drop level) r).1 low
      ∙ ap (hint (some b) src n ++◌) (count-effects (Metric.rate_limit_drop level) r)

  check_group-effects :
      (engine : Bytes → ℕ) (q : Request) (ip : IpBytes) (src : Option UdpAddr) (raw : Bytes)
      (r : Calls.Run W)
      → (deps.allow_group r.world ip (Handler.rate_group lib deps s engine raw)).0 ≡ false
      → effects (Handler.check_group lib deps s (some engine) q ip src raw r).1.calls
        ≡ hint (some 4) src q.start_seq ++ effects r.calls
  unfolding Handler.check_group Handler.group_verdict
  check_group-effects engine q ip src raw r e =
      rw e (dropped-effects Level.group 4 src q.start_seq _ refl)

  hit-effects :
      (engine : Bytes → ℕ) (q : Request) (ip : IpBytes) (src : Option UdpAddr) (raw : Bytes)
      (r : Calls.Run W)
      → s.shard_engine ≡ some engine
      → (deps.allow_group r.world ip (Handler.rate_group lib deps s engine raw)).0 ≡ false
      → effects (Handler.hit lib deps s q ip src raw r).1.calls
        ≡ hint (some 4) src q.start_seq ++ effects r.calls
  unfolding Handler.hit
  hit-effects engine q ip src raw r on e =
      let counted = count-multicasts lib deps s Metric.cache_hit r in
      let hit_run = (Handler.count lib deps s Metric.cache_hit r).1 in
      ap (λ o. effects (Handler.check_group lib deps s o q ip src raw hit_run).1.calls) on
      ∙ check_group-effects engine q ip src raw hit_run (
          subst (λ w. (deps.allow_group w ip (Handler.rate_group lib deps s engine raw)).0 ≡ false)
            (sym counted.1) e)
      ∙ ap (hint (some 4) src q.start_seq ++◌) (count-effects Metric.cache_hit r)

  admit-effects :
      (t : Tier) (q : Request) (ip : IpBytes) (src : Option UdpAddr) (r : Calls.Run W)
      → RefusedBy t q ip r.world
      → effects (Handler.admit lib deps s q ip src r).1.calls
        ≡ hint (bucket t) src q.start_seq ++ effects r.calls
  unfolding Handler.admit Handler.tier_verdict Handler.refuse Handler.chain_verdict Handler.look_up
      Handler.retrieved
  admit-effects of_ip q ip src r e = rw e (count-effects (Metric.rate_limit_drop Level.ip) _)
  admit-effects of_sequence q ip src r e =
      rw e (dropped-effects Level.sequence 2 src q.start_seq _ refl)
  admit-effects of_chain q ip src r (e, f) =
      rw (e, f) (dropped-effects Level.chain 3 src q.start_seq _ refl)
  admit-effects of_group q ip src r (e, f, engine, on, raw, (found, refused)) =
      rw (e, f, found) (hit-effects engine q ip src raw _ on refused)

  -- A valid NACK for one frame that a tier refuses has no effect but the tier's hint: no frame is
  -- handed to a retransmitter, no recovery job is submitted, and no ACK or MISS is written. The hint
  -- is the 16 bytes of a THROTTLED response with the tier's bucket (2 for the sequence tier, 3 for the
  -- chain tier, 4 for the group tier) and the NACK's sequence number, if hints are enabled and the
  -- source is known; the IP tier has none.
  pub process_nack-refused :
      (t : Tier) (nack : Bytes) (src : Option UdpAddr) (r : Calls.Run W)
      → validate_nack lib nack ≡ none
      → ((parse_request nack).end_seq == (parse_request nack).start_seq) ≡ true
      → RefusedBy t (parse_request nack) (Handler.source_ip lib deps s src) r.world
      → effects (Handler.process_nack lib deps s nack src r).1.calls
        ≡ hint (bucket t) src (parse_request nack).start_seq ++ effects r.calls
  unfolding Handler.process_nack Handler.validated Handler.handle
  process_nack-refused t nack src r valid single refused =
      let q = parse_request nack in
      let counted = count-multicasts lib deps s Metric.nack_request r in
      rw (valid, single)
        (admit-effects t q (Handler.source_ip lib deps s src) src _
            (subst (RefusedBy t q (Handler.source_ip lib deps s src)) (sym counted.1) refused)
          ∙ ap (hint (bucket t) src q.start_seq ++◌) (count-effects Metric.nack_request r))
