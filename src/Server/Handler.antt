-- ===== src/Server/Handler.antt =====
-- `processNACK` (server/server.go), stage by stage; a stage that returns early ends the run, and
-- each later one is called from the one before it. Log lines are left out.
use Prim.Native.Nat.{bit_and, bit_or}
use retry_endpoint.Frames.{FrameLib}
use retry_endpoint.Prelude.{
  ℕ, Bool, true, false, ◌&&◌, ◌||◌, not, Option, none, some, leb, ◌==◌, if◌then◌else◌, length,
  replicate,
}
use retry_endpoint.Prelude.Bytes.{Bytes, uint_at, slice}
use retry_endpoint.RateLimit.Tiers.{Level, chain, group, IpBytes}
use retry_endpoint.Effects.{pure, ◌>>=◌, ◌>>◌, ask, note, when}
use retry_endpoint.Server.Calls.{UdpAddr, Retrieved, Sent, Label, Metric, Call, Deps, M}
use retry_endpoint.Server.Wire.{
  NackError, Request, parse_request, cache_key, validate_nack, response, msg_type_miss,
  msg_type_ack, msg_type_throttled, throttle_bucket_sequence, throttle_bucket_chain,
  throttle_bucket_group, ack_flag_multicast_sent, ack_flag_unicast_sent,
}

-- The configuration of a server. An engine is its GroupIndex method, nil is `none`; `rec` and
-- `proxy` say whether the recorder and the proxy are set.
pub record Server : Type 0 where
  pub rec : Bool
  pub suppress_ack : Bool
  pub suppress_miss : Bool
  pub throttle_resp : Bool
  pub shard_engine : Option (Bytes → ℕ)
  pub beef_engine : Option (Bytes → ℕ)
  pub retransmit_mc : Bool
  pub retransmit_uc : Bool
  pub proxy : Bool

-- `New`, of which the other arguments are the dependencies.
unfoldable pub new : Bool → Server
new rec = record {
  rec = rec;
  suppress_ack = false;
  suppress_miss = false;
  throttle_resp = false;
  shard_engine = none;
  beef_engine = none;
  retransmit_mc = true;
  retransmit_uc = false;
  proxy = false;
}

unfoldable pub set_retransmit_modes : Server → Bool → Bool → Server
set_retransmit_modes s multicast unicast = record s {
  retransmit_mc = multicast;
  retransmit_uc = unicast;
}

-- `SetProxy`, to a client that is not nil.
unfoldable pub set_proxy : Server → Server
set_proxy s = record s { proxy = true }

unfoldable pub set_suppress_ack : Server → Bool → Server
set_suppress_ack s v = record s { suppress_ack = v }

unfoldable pub set_suppress_miss : Server → Bool → Server
set_suppress_miss s v = record s { suppress_miss = v }

unfoldable pub set_throttle_response : Server → Bool → Server
set_throttle_response s v = record s { throttle_resp = v }

unfoldable pub set_beef_engine : Server → Option (Bytes → ℕ) → Server
set_beef_engine s pe = record s { beef_engine = pe }

unfoldable pub set_shard_engine : Server → Option (Bytes → ℕ) → Server
set_shard_engine s e = record s { shard_engine = e }

-- `copy(txID[:], raw[8:40])`, zero where the frame is shorter.
unfoldable pub tx_id : Bytes → Bytes
tx_id raw = if leb 40 (length raw) then slice 8 32 raw else replicate 32 0

module _ {W : Type 0} (lib : FrameLib) (deps : Deps W) (s : Server) where
  unfoldable pub count : Metric → M W (Unit {0})
  count m = when s.rec (note (Call.metric m))

  -- `sendResponse` and `sendThrottled`, which differ in the fields and the label.
  unfoldable pub respond : Label → UdpAddr → ℕ → ℕ → ℕ → M W (Unit {0})
  respond label src msg_type flags seq_num = do
    let buf = response lib msg_type flags seq_num
    ok ← ask (λ w. deps.write_to w buf src)
    note (Call.write_to buf src ok)
    count (if ok then Metric.response_sent label else Metric.response_send_error label)

  -- `if s.throttleResp && src != nil { s.sendThrottled(…) }`
  unfoldable pub throttle : Option UdpAddr → ℕ → ℕ → M W (Unit {0})
  throttle none bucket seq_num = pure tt
  throttle (some src) bucket seq_num =
      when s.throttle_resp
        (respond Label.throttled src msg_type_throttled (bit_and bucket 0x0F) seq_num)

  -- `if !s.suppressMISS && src != nil { s.sendResponse(…, msgTypeMISS, 0, 0) }`
  unfoldable pub reply_miss : Option UdpAddr → M W (Unit {0})
  reply_miss none = pure tt
  reply_miss (some a) = when (not s.suppress_miss) (respond Label.miss a msg_type_miss 0 0)

  -- `s.proxy.Enqueue(…)`, unless there is no proxy or the request is already a proxied one.
  unfoldable pub recover : Request → Option UdpAddr → M W (Unit {0})
  recover q src = when (s.proxy && not q.proxied) (do
    _ ← ask (λ w. deps.enqueue w q.hash_key q.start_seq q.subtree_id src)
    note (Call.enqueue q.hash_key q.start_seq q.subtree_id src))

  -- The branch of a cache miss.
  unfoldable pub miss : Request → Option UdpAddr → M W (Unit {0})
  miss q src = do count Metric.cache_miss; reply_miss src; recover q src

  -- The unicast copy, on in unicast mode and always for a proxied NACK: the flags with it.
  unfoldable pub unicast : Request → Option UdpAddr → Bytes → ℕ → M W ℕ
  unicast q none raw flags = pure flags
  unicast q (some a) raw flags =
      if s.retransmit_uc || q.proxied
      then (do
        ok ← ask (λ w. deps.retransmit_unicast w raw a)
        note (Call.retransmit_unicast raw a ok)
        when ok (count Metric.unicast_retransmit)
        pure (if ok then bit_or flags ack_flag_unicast_sent else flags))
      else pure flags

  -- The acknowledgement, held back where a send was attempted and nothing went out.
  unfoldable pub acknowledge : Request → Option UdpAddr → ℕ → M W (Unit {0})
  acknowledge q none flags = pure tt
  acknowledge q (some a) flags =
      let attempted = s.retransmit_mc || (s.retransmit_uc || q.proxied) in
      when (not s.suppress_ack && (not (flags == 0) || not attempted))
        (respond Label.ack a msg_type_ack flags q.start_seq)

  unfoldable pub finish : Request → Option UdpAddr → Bytes → ℕ → M W (Unit {0})
  finish q src raw flags = do flags' ← unicast q src raw flags; acknowledge q src flags'

  -- The three ways that the multicast send can end; an error other than suppression ends the run.
  unfoldable pub after_retransmit : Sent → Request → Option UdpAddr → Bytes → M W (Unit {0})
  after_retransmit Sent.sent q src raw = do
    count Metric.retransmit
    finish q src raw (bit_or 0 ack_flag_multicast_sent)
  after_retransmit Sent.suppressed q src raw = finish q src raw 0
  after_retransmit Sent.failed q src raw = pure tt

  -- The sends on a cache hit.
  unfoldable pub serve : Request → Option UdpAddr → Bytes → M W (Unit {0})
  serve q src raw =
      if s.retransmit_mc
      then (do
        out ← ask (λ w. deps.retransmit w raw (tx_id raw))
        note (Call.retransmit raw out)
        after_retransmit out q src raw)
      else finish q src raw 0

  -- The group that the fourth tier charges: the header's for a bundle, the topic's for a BEEF frame.
  unfoldable pub rate_group : (Bytes → ℕ) → Bytes → ℕ
  rate_group group_index raw =
      let of_tx = group_index (tx_id raw) in
      let of_bundle =
        (if lib.is_bundle raw && leb 58 (length raw) then uint_at 56 2 raw else of_tx) in
      elim s.beef_engine [
        | none ↦ of_bundle
        | some beef ↦
            if lib.is_beef raw && leb 88 (length raw) then beef (slice 56 32 raw) else of_bundle
      ]

  unfoldable pub group_verdict : Bool → Request → Option UdpAddr → Bytes → M W (Unit {0})
  group_verdict true q src raw = serve q src raw
  group_verdict false q src raw = do
    count (Metric.rate_limit_drop group)
    throttle src throttle_bucket_group q.start_seq

  -- Tier 4, where a shard engine is set.
  unfoldable pub check_group :
      Option (Bytes → ℕ) → Request → IpBytes → Option UdpAddr → Bytes → M W (Unit {0})
  check_group none q src_ip src raw = serve q src raw
  check_group (some group_index) q src_ip src raw = do
    ok ← ask (λ w. deps.allow_group w src_ip (rate_group group_index raw))
    group_verdict ok q src raw

  -- The branch of a cache hit.
  unfoldable pub hit : Request → IpBytes → Option UdpAddr → Bytes → M W (Unit {0})
  hit q src_ip src raw = do count Metric.cache_hit; check_group s.shard_engine q src_ip src raw

  unfoldable pub retrieved : Retrieved → Request → IpBytes → Option UdpAddr → M W (Unit {0})
  retrieved Retrieved.failed q src_ip src = count Metric.cache_error
  retrieved Retrieved.missing q src_ip src = miss q src
  retrieved (Retrieved.found raw) q src_ip src = hit q src_ip src raw

  unfoldable pub look_up : Request → IpBytes → Option UdpAddr → M W (Unit {0})
  look_up q src_ip src = do
    out ← ask (λ w. deps.retrieve w (cache_key q.hash_key q.start_seq))
    retrieved out q src_ip src

  -- Tier 2, pre-lookup.
  unfoldable pub chain_verdict : Bool → Request → IpBytes → Option UdpAddr → M W (Unit {0})
  chain_verdict true q src_ip src = look_up q src_ip src
  chain_verdict false q src_ip src = do
    count (Metric.rate_limit_drop chain)
    throttle src throttle_bucket_chain q.start_seq

  -- The reply to a refusal of tier 1 or 3: a hint for the sequence tier, silence for the IP tier.
  unfoldable pub refuse : Level → Request → Option UdpAddr → M W (Unit {0})
  refuse Level.sequence q src = throttle src throttle_bucket_sequence q.start_seq
  refuse _ q src = pure tt

  -- Tiers 1 and 3, then the chain tier.
  unfoldable pub tier_verdict : Option Level → Request → IpBytes → Option UdpAddr → M W (Unit {0})
  tier_verdict (some level) q src_ip src = do
    count (Metric.rate_limit_drop level)
    refuse level q src
  tier_verdict none q src_ip src = do
    ok ← ask (λ w. deps.allow_chain w src_ip q.hash_key)
    chain_verdict ok q src_ip src

  unfoldable pub admit : Request → IpBytes → Option UdpAddr → M W (Unit {0})
  admit q src_ip src = do
    refused ← ask (λ w. deps.allow w src_ip q.hash_key q.start_seq)
    tier_verdict refused q src_ip src

  -- The address that the tiers charge; an unknown source is `net.IPv6unspecified`.
  abbrev pub source_ip : Option UdpAddr → IpBytes
  source_ip none = replicate 16 0
  source_ip (some a) = a.ip

  -- A valid request for a single frame; a range is not supported.
  unfoldable pub handle : Request → Option UdpAddr → M W (Unit {0})
  handle q src = if q.end_seq == q.start_seq then admit q (source_ip src) src else pure tt

  unfoldable pub validated : Option NackError → Bytes → Option UdpAddr → M W (Unit {0})
  validated (some err) datagram src = pure tt
  validated none datagram src = handle (parse_request datagram) src

  unfoldable pub process_nack : Bytes → Option UdpAddr → M W (Unit {0})
  process_nack datagram src = do
    count Metric.nack_request
    validated (validate_nack lib datagram) datagram src
