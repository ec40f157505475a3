-- ===== src/Server/Honest.antt =====
-- The ACK of a cache hit (server/server.go, the end of `processNACK`).

use retry_endpoint.Frames.{FrameLib}
use retry_endpoint.Prelude.{
  ℕ, ◌≡◌, ◌∙◌, refl, Bool, true, false, ◌||◌, Option, none, some, List, ◌∷◌, arith, if◌then◌else◌,
  Bool-cases, inl, inr, ◌⊎◌,
}
use retry_endpoint.Prelude.Bytes.{Bytes}
use retry_endpoint.Server.Calls.{UdpAddr, Sent, Metric, Call, Deps, Run, writes}
use retry_endpoint.Server.Handler
use retry_endpoint.Server.Handler.{Server}
use retry_endpoint.Server.Wire.{Request, response, msg_type_ack}

-- The flags of the ACK that BRC-126 allows, by what became of the multicast and of the unicast
-- send; `none` in the place of a result is a send that was not attempted.
unfoldable pub allowed_ack : Option Sent → Option Bool → Option ℕ
allowed_ack (some Sent.failed) u = none
allowed_ack (some Sent.sent) (some true) = some 3
allowed_ack (some Sent.sent) (some false) = some 1
allowed_ack (some Sent.sent) none = some 1
allowed_ack (some Sent.suppressed) (some true) = some 2
allowed_ack (some Sent.suppressed) (some false) = none
allowed_ack (some Sent.suppressed) none = none
allowed_ack none (some true) = some 2
allowed_ack none (some false) = none
allowed_ack none none = some 0

-- The datagrams written when a reply is due, and when none is.
abbrev pub with_reply :
    FrameLib → UdpAddr → ℕ → Option ℕ → List (UdpAddr × Bytes) → List (UdpAddr × Bytes)
with_reply lib a n none ws = ws
with_reply lib a n (some flags) ws = (a, response lib msg_type_ack flags n) ∷ ws

module _ {W : Type 0} (lib : FrameLib) (deps : Deps W) (s : Server) where
  -- The result of the multicast send, if the mode is on, and the world after it.
  unfoldable pub multicast_result : Bytes → W → Option Sent × W
  multicast_result raw w =
      if s.retransmit_mc
      then (
        some (deps.retransmit w raw (Handler.tx_id raw)).0,
        (deps.retransmit w raw (Handler.tx_id raw)).1,
      )
      else (none, w)

  -- The result of the unicast send to a requester, on in its mode and for every proxied NACK.
  unfoldable pub unicast_result : Request → UdpAddr → Bytes → W → Option Bool
  unicast_result q a raw w =
      if s.retransmit_uc || q.proxied then some (deps.retransmit_unicast w raw a).0 else none

  finish-ack :
      (q : Request) (a : UdpAddr) (raw : Bytes) (m : Option Sent) (flags : ℕ) (r : Run W)
      → (m ≡ none) × (flags ≡ 0) × (s.retransmit_mc ≡ false)
        ⊎ (m ≡ some Sent.suppressed) × (flags ≡ 0) × (s.retransmit_mc ≡ true)
        ⊎ (m ≡ some Sent.sent) × (flags ≡ 1) × (s.retransmit_mc ≡ true)
      → writes (Handler.finish lib deps s q (some a) raw flags r).1.calls ≡ (
          if s.suppress_ack
          then writes r.calls
          else with_reply lib a q.start_seq
              (allowed_ack m (unicast_result q a raw r.world))
              (writes r.calls))
  unfolding Handler.finish Handler.unicast Handler.acknowledge Handler.respond Handler.count
      allowed_ack unicast_result
  finish-ack q a raw m flags r h = ground arith

  after_retransmit-ack :
      (out : Sent) (q : Request) (a : UdpAddr) (raw : Bytes) (r : Run W)
      → s.retransmit_mc ≡ true
      → writes (Handler.after_retransmit lib deps s out q (some a) raw r).1.calls ≡ (
          if s.suppress_ack
          then writes r.calls
          else with_reply lib a q.start_seq
              (allowed_ack (some out) (unicast_result q a raw r.world))
              (writes r.calls))
  unfolding Handler.after_retransmit Handler.count allowed_ack
  after_retransmit-ack Sent.sent q a raw r e =
      finish-ack q a raw (some Sent.sent) 1 (Handler.count lib deps s Metric.retransmit r).1
        (inr (inr (refl, refl, e)))
      ∙ ground arith
  after_retransmit-ack Sent.suppressed q a raw r e =
      finish-ack q a raw (some Sent.suppressed) 0 r (inr (inl (refl, refl, e)))
  after_retransmit-ack Sent.failed q a raw r e = ground arith

  -- On a cache hit that the tiers let through, a requester gets exactly the ACK that BRC-126 allows
  -- for what the two sends did, or none with ACKs suppressed: a flag is set only for a send that
  -- went out, a failed multicast send ends the request, and where something was attempted and
  -- nothing went out there is no ACK. Only an endpoint with neither mode on sends a bare ACK.
  pub serve-ack :
      (q : Request) (a : UdpAddr) (raw : Bytes) (r : Run W)
      → let (m, w) = multicast_result raw r.world in
        writes (Handler.serve lib deps s q (some a) raw r).1.calls ≡ (
          if s.suppress_ack
          then writes r.calls
          else with_reply lib a q.start_seq
              (allowed_ack m (unicast_result q a raw w))
              (writes r.calls))
  unfolding Handler.serve multicast_result
  serve-ack q a raw r = elim (Bool-cases s.retransmit_mc) [
    | inl e ↦ ground (
      arith,
      after_retransmit-ack (deps.retransmit r.world raw (Handler.tx_id raw)).0 q a raw
          (record {
            world = (deps.retransmit r.world raw (Handler.tx_id raw)).1;
            calls =
                Call.retransmit raw (deps.retransmit r.world raw (Handler.tx_id raw)).0 ∷ r.calls;
          })
          e,
    )
    | inr e ↦ ground (arith, finish-ack q a raw none 0 r (inl (refl, refl, e)))
  ]
