-- ===== src/Retransmit/Sends.antt =====
-- What `Retransmit` puts on the wire, by its result (retransmit/retransmit.go).
use retry_endpoint.Effects.{Run}
use retry_endpoint.Frames.{FrameLib}
use retry_endpoint.Prelude.{◌≡◌, true, false, List, [], ◌∷◌}
use retry_endpoint.Prelude.Bytes.{Bytes}
use retry_endpoint.Retransmit
use retry_endpoint.Retransmit.{Retransmitter, Deps, Call, Target, target_group, build_dedup_key}
use retry_endpoint.Server.Calls.{UdpAddr, Sent}

-- The datagrams written to sockets, the latest first.
abbrev pub socket_writes : List Call → List (Bytes × Bytes × UdpAddr)
socket_writes [] = []
socket_writes (Call.write_to name raw a ok ∷ cs) = (name, raw, a) ∷ socket_writes cs
socket_writes (Call.retransmit_dedup ∷ cs) = socket_writes cs
socket_writes (Call.cache_error ∷ cs) = socket_writes cs

-- The writes of one datagram to each of the sockets, in their order, after earlier ones.
abbrev pub sent_to :
    List Bytes → Bytes → UdpAddr → List (Bytes × Bytes × UdpAddr) → List (Bytes × Bytes × UdpAddr)
sent_to [] raw a ws = ws
sent_to (name ∷ names) raw a ws = sent_to names raw a ((name, raw, a) ∷ ws)

module _ {W : Type 0} (lib : FrameLib) (deps : Deps W) (r : Retransmitter) where
  -- The run after one write.
  abbrev after_write : Bytes → Bytes → UdpAddr → Run W Call → Run W Call
  after_write name raw a run = record {
    world = (deps.write_to run.world name raw a).1;
    calls = Call.write_to name raw a (deps.write_to run.world name raw a).0 ∷ run.calls;
  }

  -- What became of one call: by result, what was sent and why.
  pub record Outcome (raw tx_id : Bytes) (run : Run W Call) (out : Sent × Run W Call) : Type 0 where
    pub on_sent :
        out.0 ≡ Sent.sent
        → (a : UdpAddr) × (target_group lib r raw tx_id ≡ Target.to a)
          × (socket_writes out.1.calls ≡ sent_to r.sockets raw a (socket_writes run.calls))
    pub on_suppressed :
        out.0 ≡ Sent.suppressed
        → (socket_writes out.1.calls ≡ socket_writes run.calls)
          × (r.dedup ≡ true)
          × ((deps.set_nx run.world (build_dedup_key raw)).0.0 ≡ false)
