-- ===== src/Ingress/Pipeline/Shards.antt =====
-- The queue of a datagram by its cache key (ingress/pipeline.go, `shardOf` and `receive`).
use retry_endpoint.Ingress.Pipeline.{Tee, shard_of, shard_of_frame, shard_hash, queue_index}
use retry_endpoint.Prelude.{
  ℕ, ◌+◌, ◌%◌, ◌<◌, ◌≤◌, ◌≡◌, sym, ap, ap₂, ◌∙◌, Bool, true, false, ◌++◌, length, drop, arith, ltb,
  if◌then◌else◌, ◌&&◌, subst, drop-append_left, length-append,
}
use retry_endpoint.Prelude.Bytes.{Bytes, slice, be, slice_of_slice}
use native.Mathlib.Nat.{mod-lt}

-- A frame as a feed delivers it: the bytes themselves, or inside an envelope on the tee.
pub data Delivers (t : Tee) (frame : Bytes) : Bytes → Bool → Type 0 where
  bare : (tee : Bool) → (tee && t.is_encap frame) ≡ false → Delivers t frame frame tee
  wrapped :
      (envelope : Bytes)
      → length envelope ≡ t.header_size
      → t.is_encap (envelope ++ frame) ≡ true
      → Delivers t frame (envelope ++ frame) true

shard_of-Delivers :
    (t : Tee) (frame pkt : Bytes) (tee : Bool)
    → Delivers t frame pkt tee
    → shard_of t pkt tee ≡ shard_of_frame frame
unfolding shard_of
shard_of-Delivers t frame _ _ (Delivers.bare tee e) = ground (arith, e)
shard_of-Delivers t frame _ _ (Delivers.wrapped envelope e h) = ground (
  arith,
  h,
  e,
  length-append envelope frame,
  subst (λ n. drop n (envelope ++ frame) ≡ frame) e (drop-append_left envelope frame),
)

if-long : (n x : ℕ) → 56 ≤ n → (if ltb n 56 then 0 else x) ≡ x
if-long n x h = ground arith

shard_of_frame-key :
    (f f' : Bytes)
    → 56 ≤ length f
    → 56 ≤ length f'
    → slice 40 16 f ≡ slice 40 16 f'
    → shard_of_frame f ≡ shard_of_frame f'
unfolding shard_of_frame
shard_of_frame-key f f' h h' e =
    if-long (length f) _ h
    ∙ ap₂ shard_hash (ap be (part 0 (omega arith))) (ap be (part 8 (omega arith)))
    ∙ sym (if-long (length f') _ h')
  where
    part : (k : ℕ) → k + 8 ≤ 16 → slice (40 + k) 8 f ≡ slice (40 + k) 8 f'
    part k b = sym (slice_of_slice 40 16 k 8 f b) ∙ ap (slice k 8) e ∙ slice_of_slice 40 16 k 8 f' b

-- Two datagrams of one socket that carry frames with the same cache key, bare or in an envelope, go
-- to the same queue, and to one that is there.
pub queue_index-key :
    (t : Tee) (f f' pkt pkt' : Bytes) (tee : Bool) (procs : ℕ)
    → 0 < procs
    → Delivers t f pkt tee
    → Delivers t f' pkt' tee
    → 56 ≤ length f
    → 56 ≤ length f'
    → slice 40 16 f ≡ slice 40 16 f'
    → (queue_index t pkt tee procs ≡ queue_index t pkt' tee procs)
      × (queue_index t pkt tee procs < procs)
unfolding queue_index
queue_index-key t f f' pkt pkt' tee procs pos d d' h h' e =
    let same =
      shard_of-Delivers t f pkt tee d
      ∙ shard_of_frame-key f f' h h' e
      ∙ sym (shard_of-Delivers t f' pkt' tee d') in
    (
      ap (λ x. if ltb 1 procs then x % procs else 0) same,
      ground (arith, mod-lt (shard_of t pkt tee) pos),
    )
