-- ===== src/Retransmit.antt =====
-- Package retransmit (retransmit/retransmit.go): sending cached frames to their multicast group or
-- to one requester. The shard engine, the dedup store and the writes to the sockets are parameters;
-- the sockets that are open are a list.
use retry_endpoint.Effects
use retry_endpoint.Effects.{pure, ◌>>=◌, ◌>>◌, ask, note, when}
use retry_endpoint.Frames.{FrameLib, Fragment}
use retry_endpoint.Prelude.{
  ℕ, Bool, true, false, ◌&&◌, ◌||◌, not, Option, none, some, List, [], ◌∷◌, leb, ltb, ◌==◌,
  if◌then◌else◌, length, take, drop, get_or,
}
use retry_endpoint.Prelude.Bytes.{Bytes, uint_at, slice}
use retry_endpoint.Server.Calls.{UdpAddr, Sent}
pub mod Sends
pub mod Keys
pub mod Groups
pub mod Open

-- `shard.Engine` with the addresses of its control groups, and the egress port put in.
pub record Engine : Type 0 where
  pub group_index : Bytes → ℕ  -- GroupIndex(&txID)
  pub addr : ℕ → UdpAddr  -- Addr(groupIdx, egressPort)
  pub block_broadcast : UdpAddr  -- GroupAddr(…, GroupBlockBroadcast), with egressPort
  pub subtree_announce : UdpAddr  -- GroupAddr(…, GroupSubtreeDataAnnounce), with egressPort

pub data TargetError : Type 0 where
  plane_disabled too_short : TargetError

pub data Target : Type 0 where
  to : UdpAddr → Target
  error : TargetError → Target

pub record Retransmitter : Type 0 where
  pub engine : Engine
  pub beef_engine : Option (Bytes → ℕ)
  pub dedup : Bool
  pub rec : Bool
  pub sockets : List Bytes  -- the interface names, in the order in which the map is ranged over
  pub unicast_open : Bool

-- `New`
unfoldable pub new : Engine → Bool → Bool → Retransmitter
new engine dedup rec = record {
  engine = engine;
  beef_engine = none;
  dedup = dedup;
  rec = rec;
  sockets = [];
  unicast_open = false;
}

-- `SetBEEF`
unfoldable pub set_beef : Option (Bytes → ℕ) → Retransmitter → Retransmitter
set_beef pe r = record r { beef_engine = pe }

-- `buildDedupKey`; nil is the empty list.
unfoldable pub build_dedup_key : Bytes → Bytes
build_dedup_key raw = if ltb (length raw) 56 then [] else slice 40 16 raw

-- The group by the frame's TxID, the end of `targetGroup`.
unfoldable pub tx_group : Retransmitter → Bytes → Target
tx_group r tx_id = Target.to (r.engine.addr (r.engine.group_index tx_id))

-- `case frame.FrameVerV9`
unfoldable pub beef_group : Retransmitter → Bytes → Target
beef_group r raw = elim r.beef_engine [
  | none ↦ Target.error plane_disabled
  | some beef ↦
      if ltb (length raw) 88
      then Target.error too_short
      else Target.to (r.engine.addr (beef (slice 56 32 raw)))
]

-- `case frame.FrameVerV3`, for a fragment that decodes.
unfoldable pub fragment_group : FrameLib → Retransmitter → Fragment → Target
fragment_group lib r ff =
    if ff.orig_frame_ver == lib.ver_v4 || ff.orig_frame_ver == lib.ver_v6
    then Target.to r.engine.block_broadcast
    else if ff.orig_frame_ver == lib.ver_v5
    then Target.to r.engine.subtree_announce
    else if ff.orig_frame_ver == lib.ver_v9
    then elim r.beef_engine [
      | none ↦ Target.error plane_disabled
      | some beef ↦ Target.to (r.engine.addr (beef ff.subtree_id))
    ]
    else Target.to (r.engine.addr (r.engine.group_index ff.tx_id))

-- The `switch` of `targetGroup` over the frame version.
unfoldable pub class_group : FrameLib → Retransmitter → Bytes → Bytes → Target
class_group lib r raw tx_id =
    let ver = get_or raw 6 0 in
    if ver == lib.ver_v4 || ver == lib.ver_v6
    then Target.to r.engine.block_broadcast
    else if ver == lib.ver_v5
    then Target.to r.engine.subtree_announce
    else if ver == lib.ver_v9
    then beef_group r raw
    else if ver == lib.ver_v3
    then elim (lib.decode_fragment raw) [
      | none ↦ tx_group r tx_id
      | some ff ↦ fragment_group lib r ff
    ]
    else if ver == lib.ver_v8
    then if leb 58 (length raw)
      then Target.to (r.engine.addr (uint_at 56 2 raw))
      else tx_group r tx_id
    else tx_group r tx_id

-- `targetGroup`
unfoldable pub target_group : FrameLib → Retransmitter → Bytes → Bytes → Target
target_group lib r raw tx_id =
    if leb 7 (length raw) then class_group lib r raw tx_id else tx_group r tx_id

pub data Call : Type 0 where
  retransmit_dedup : Call  -- the metric RetransmitDedup
  cache_error : Call  -- the metric CacheError
  write_to : Bytes → Bytes → UdpAddr → Bool → Call  -- a socket's name, the datagram, success

-- The dedup view's SetNX, as (set, no error), and the writes to the sockets.
pub record Deps (W : Type 0) : Type 0 where
  pub set_nx : W → Bytes → (Bool × Bool) × W
  pub write_to : W → Bytes → Bytes → UdpAddr → Bool × W
  pub write_unicast : W → Bytes → UdpAddr → Bool × W

abbrev pub M : Type 0 → Type 0 → Type 0
M W A = Effects.M W Call A

module _ {W : Type 0} (lib : FrameLib) (deps : Deps W) (r : Retransmitter) where
  -- The loop over the egress sockets: a failed write ends it with an error.
  unfoldable pub send_all : List Bytes → Bytes → UdpAddr → M W Sent
  send_all [] raw addr = pure Sent.sent
  send_all (name ∷ names) raw addr =
      let rest = send_all names raw addr in
      do
        ok ← ask (λ w. deps.write_to w name raw addr)
        note (Call.write_to name raw addr ok)
        (if ok then rest else (do when r.rec (note Call.cache_error); pure Sent.failed))

  -- `if gerr != nil { return gerr }`, then the sends.
  unfoldable pub send_target : Target → Bytes → M W Sent
  send_target (Target.error e) raw = pure Sent.failed
  send_target (Target.to addr) raw = send_all r.sockets raw addr

  -- From `targetGroup` on.
  unfoldable pub dispatch : Bytes → Bytes → M W Sent
  dispatch raw tx_id = send_target (target_group lib r raw tx_id) raw

  -- `if !set { …; return ErrDedupSuppressed }`. An error of SetNX is logged and not looked at.
  unfoldable pub claimed : Bool → Bytes → Bytes → M W Sent
  claimed true raw tx_id = dispatch raw tx_id
  claimed false raw tx_id = do when r.rec (note Call.retransmit_dedup); pure Sent.suppressed

  -- `Retransmit`
  unfoldable pub retransmit : Bytes → Bytes → M W Sent
  retransmit raw tx_id =
      if r.dedup && not (length (build_dedup_key raw) == 0)
      then (do out ← ask (λ w. deps.set_nx w (build_dedup_key raw)); claimed out.0 raw tx_id)
      else dispatch raw tx_id

  -- `RetransmitUnicast`; the result says whether the error is nil.
  unfoldable pub retransmit_unicast : Bytes → Option UdpAddr → M W Bool
  retransmit_unicast raw none = pure false
  retransmit_unicast raw (some dst) =
      if r.unicast_open then ask (λ w. deps.write_unicast w raw dst) else pure false
