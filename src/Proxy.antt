-- ===== src/Proxy.antt =====
-- Package proxy (proxy/proxy.go): recovering missed frames from upstream endpoints. The sockets,
-- the cache, the dedup store and the retransmitter are parameters; what the fetch socket
-- delivers up to its deadline is a list of datagrams.
use retry_endpoint.Frames.{FrameLib}
use retry_endpoint.Prelude.{
  ℕ, Bool, true, false, ◌&&◌, ◌||◌, not, Option, none, some, List, [], ◌∷◌, ◌++◌, ltb, leb, ◌==◌,
  if◌then◌else◌, length, get_or, replicate, take, ◌/◌, ◌%◌, ◌-◌,
}
use retry_endpoint.Prelude.Bytes.{Bytes, uint_at, slice, to_be}
use retry_endpoint.Prelude.Int.{ℤ, pos, not_positive, to_ℕ}
use retry_endpoint.Server.Calls.{UdpAddr}
use retry_endpoint.Server.Wire.{
  response_size, msg_type_nack, msg_type_miss, msg_type_ack, flag_proxied, cache_key,
}
pub mod Queue
pub mod Recover
pub mod Nack
pub mod Claim
pub mod Fetch

-- `TTLConfig`, in nanoseconds.
pub record Ttls : Type 0 where
  pub tx : ℤ
  pub block : ℤ
  pub subtree : ℤ
  pub anchor : ℤ
  pub beef : ℤ

-- `Config`, less the interfaces, which are parameters of the recovery.
pub record Config : Type 0 where
  pub upstreams : List Bytes
  pub source_ip : Option Bytes
  pub timeout : ℤ
  pub max_endpoints : ℤ
  pub dedup_window : ℤ
  pub workers : ℤ
  pub queue_depth : ℤ
  pub dedup : Bool
  pub ttls : Ttls
  pub rec : Bool
  pub multicast : Bool
  pub unicast : Bool

pub record Job : Type 0 where
  pub hash_key : ℕ
  pub seq : ℕ
  pub subtree : Bytes
  pub requester : Option UdpAddr

abbrev pub positive_or : ℤ → ℤ → ℤ
positive_or x default = if not_positive x then default else x

-- `New`, which fills in the configuration; the queue starts empty.
unfoldable pub new : Config → Config
new cfg = record cfg {
  timeout = positive_or cfg.timeout (pos 300000000);
  workers = positive_or cfg.workers (pos 4);
  queue_depth = positive_or cfg.queue_depth (pos 1024);
  max_endpoints =
      if not_positive cfg.max_endpoints || ltb (length cfg.upstreams) (to_ℕ cfg.max_endpoints)
      then pos (length cfg.upstreams)
      else cfg.max_endpoints;
  dedup_window = positive_or cfg.dedup_window (pos 60000000000);
}

-- The key of the in-flight claim, by the gap, and by the requester too where delivery is unicast.
-- `byte(Port>>8), byte(Port)` are the low two bytes of the port.
unfoldable pub claim_key : Bool → Job → Bytes
claim_key unicast j =
    let gap = to_be 8 j.hash_key ++ to_be 8 j.seq in
    elim j.requester [
      | none ↦ gap
      | some a ↦ if unicast then gap ++ (a.ip ++ to_be 2 a.port) else gap
    ]

-- `copy(nack[32:64], j.subtree[:])` fills the 32 bytes.
module _ (lib : FrameLib) where
  -- The datagram that `fetch` builds.
  unfoldable pub nack : Job → Bytes
  nack j =
      to_be 4 lib.magic
      ++ (to_be 2 lib.proto_ver
          ++ (msg_type_nack
              ∷ flag_proxied
              ∷ (to_be 8 j.hash_key ++ (to_be 8 j.seq ++ (to_be 8 j.seq ++ j.subtree)))))

  -- A frame return.
  unfoldable pub is_frame : Bytes → Bool
  is_frame d =
      leb lib.header_size (length d)
      && uint_at 0 4 d == lib.magic
      && not (get_or d 6 0 == msg_type_ack)
      && not (get_or d 6 0 == msg_type_miss)

  unfoldable pub is_miss : Bytes → Bool
  is_miss d = length d == response_size && get_or d 6 0 == msg_type_miss

  -- The read loop of `fetch`, over the datagrams that arrive before the deadline.
  unfoldable pub accept : List Bytes → Option Bytes
  accept [] = none
  accept (d ∷ ds) =
      let rest = accept ds in if is_frame d then some d else if is_miss d then none else rest

  -- `ttlFor`
  unfoldable pub ttl_for : Ttls → ℕ → ℤ
  ttl_for t ver =
      if ver == lib.ver_v4
      then t.block
      else if ver == lib.ver_v5
      then t.subtree
      else if ver == lib.ver_v6
      then t.anchor
      else if ver == lib.ver_v9
      then t.beef
      else t.tx
