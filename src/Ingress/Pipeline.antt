-- ===== src/Ingress/Pipeline.antt =====
-- The receive pipeline (ingress/pipeline.go): its size, the choice of a processor, and what a
-- processor does with a datagram. The batch reader is not modelled; package teewire is a parameter.
use Prim.Native.Nat.{bit_xor}
use retry_endpoint.Effects
use retry_endpoint.Effects.{pure, ◌>>=◌, ◌>>◌, ask, note, when}
use retry_endpoint.Frames.{FrameLib}
use retry_endpoint.Ingress.{Worker}
use retry_endpoint.Ingress.Frame
use retry_endpoint.Ingress.Frame.{
  Call, Store, M, Reason, TeeForm, Metric, count, process_frame, tee_decap_error, encap_form,
  raw_form,
}
use retry_endpoint.Prelude.{
  ℕ, zero, suc, ◌+◌, ◌-◌, ◌*◌, ◌/◌, ◌%◌, ◌^◌, Bool, true, false, ◌&&◌, ◌||◌, not, Option, none,
  some, List, [], ◌∷◌, ltb, leb, ◌==◌, if◌then◌else◌, length, drop,
}
use retry_endpoint.Prelude.Bytes.{Bytes, uint_at, be}
use retry_endpoint.Prelude.Int.{ℤ, pos, not_positive, to_ℕ}
pub mod Shards
pub mod Slots

abbrev pub default_queue_depth : ℤ
default_queue_depth = pos 1024

abbrev pub default_procs : ℤ
default_procs = pos 4

abbrev pub recv_batch_size : ℕ
recv_batch_size = 64

-- `SetPipeline`
unfoldable pub set_pipeline : ℤ → ℤ → Worker → Worker
set_pipeline depth procs w = record w { queue_depth = depth; procs = procs }

-- `pipelineSize`; `x < 1` is `x <= 0`.
unfoldable pub pipeline_size : Worker → ℤ × ℤ
pipeline_size w = (
  if not_positive w.queue_depth then default_queue_depth else w.queue_depth,
  if not_positive w.procs then default_procs else w.procs,
)

-- Package teewire, and the string of an address.
pub record Tee : Type 0 where
  pub header_size : ℕ
  pub is_encap : Bytes → Bool
  pub decap : Bytes → Option (Bytes × Bytes)  -- the source address, and the payload
  pub addr_string : Bytes → Bytes

-- The hash at the end of `shardOf`, on uint64.
unfoldable pub shard_hash : ℕ → ℕ → ℕ
shard_hash hash_key seq_num =
    let h = bit_xor hash_key ((seq_num * 0x9E3779B97F4A7C15) % 2 ^ 64) in bit_xor h (h / 2 ^ 32)

unfoldable pub shard_of_frame : Bytes → ℕ
shard_of_frame pkt =
    if ltb (length pkt) 56 then 0 else shard_hash (uint_at 40 8 pkt) (uint_at 48 8 pkt)

-- `shardOf`
unfoldable pub shard_of : Tee → Bytes → Bool → ℕ
shard_of t pkt tee =
    if tee && t.is_encap pkt
    then if ltb (length pkt) t.header_size then 0 else shard_of_frame (drop t.header_size pkt)
    else shard_of_frame pkt

-- The queue that `receive` puts a datagram on.
unfoldable pub queue_index : Tee → Bytes → Bool → ℕ → ℕ
queue_index t pkt tee procs = if ltb 1 procs then shard_of t pkt tee % procs else 0

-- One received datagram: its bytes, and its source where that is an IPv6 address.
pub record Slot : Type 0 where
  pub pkt : Bytes
  pub from : Option Bytes

-- `processor`: the last source, and its string, empty before the first one.
pub record Processor : Type 0 where
  pub last_src : Bytes
  pub src : Bytes

-- `a != p.lastSrc`, negated.
unfoldable pub same_bytes : Bytes → Bytes → Bool
same_bytes [] [] = true
same_bytes [] (y ∷ ys) = false
same_bytes (x ∷ xs) [] = false
same_bytes (x ∷ xs) (y ∷ ys) = x == y && same_bytes xs ys

-- `label`, whose result is the new `src`.
unfoldable pub label : Tee → Bytes → Processor → Processor
label t a p =
    if length p.src == 0 || not (same_bytes a p.last_src)
    then record { last_src = a; src = t.addr_string a }
    else p

module _ {W : Type 0} (lib : FrameLib) (t : Tee) (cache : Store W) (w : Worker) where
  -- `dropped`
  unfoldable pub dropped : Reason → M W (Unit {0})
  dropped reason = count lib cache w (Metric.frame_dropped reason)

  -- A frame that is labelled with an address, or not at all.
  unfoldable pub labelled : Processor → Option Bytes → Bytes → M W Processor
  labelled p none pkt = do process_frame lib cache w pkt []; pure p
  labelled p (some a) pkt = do process_frame lib cache w pkt (label t a p).src; pure (label t a p)

  unfoldable pub decapped : Processor → Option (Bytes × Bytes) → M W Processor
  decapped p none = do dropped tee_decap_error; pure p
  decapped p (some (src, payload)) = do
    count lib cache w (Metric.tee_datagram encap_form)
    labelled p (some src) payload

  unfoldable pub raw_tee : Processor → Slot → M W Processor
  raw_tee p s = do count lib cache w (Metric.tee_datagram raw_form); labelled p s.from s.pkt

  -- `handle`
  unfoldable pub handle : Bool → Processor → Slot → M W Processor
  handle tee p s =
      if tee
      then (if t.is_encap s.pkt then decapped p (t.decap s.pkt) else raw_tee p s)
      else labelled p s.from s.pkt
