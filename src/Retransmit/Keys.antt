-- ===== src/Retransmit/Keys.antt =====
-- The dedup key of a frame (retransmit/retransmit.go, `buildDedupKey`) and the cache key
-- (server/server.go).
use retry_endpoint.Prelude.{
  ℕ, ◌+◌, ◌≤◌, ◌<◌, ◌≡◌, ◌↔◌, refl, sym, ap, ◌∙◌, Bool, false, [], ◌++◌, arith, ltb, length, take,
  drop, length-take, length-drop, take-add, drop-drop, All-take, All-drop, ap₂, if◌then◌else◌, All,
}
use retry_endpoint.Prelude.Bytes.{Bytes, be, uint_at, slice, slice_of_slice, to_be, to_be-be}
use retry_endpoint.Retransmit.{build_dedup_key}
use retry_endpoint.Server.Wire.{cache_key}

-- Bytes are below 256.
abbrev pub IsBytes : Bytes → Type 0
IsBytes = All (λ b. b < 256)

-- A field of a frame is the big-endian form of its value.
pub slice-to_be :
    (from n : ℕ) (raw : Bytes)
    → IsBytes raw
    → from + n ≤ length raw
    → slice from n raw ≡ to_be n (uint_at from n raw)
slice-to_be from n raw h le = sym (
    to_be-be n (slice from n raw)
      (omega (arith, length-take n (drop from raw), length-drop from raw))
      (All-take _ n (drop from raw) (All-drop _ from raw h)))

if_false : (b : Bool) (xs ys : Bytes) → b ≡ false → (if b then xs else ys) ≡ ys
if_false b xs ys e = rw e

pub build_dedup_key-cache_key :
    (raw : Bytes)
    → IsBytes raw
    → 56 ≤ length raw
    → build_dedup_key raw ≡ cache_key (uint_at 40 8 raw) (uint_at 48 8 raw)
unfolding build_dedup_key cache_key
build_dedup_key-cache_key raw h le =
    if_false (ltb (length raw) 56) [] (slice 40 16 raw) (ground arith)
    ∙ take-add 8 8 16 (drop 40 raw) refl
    ∙ ap₂ ◌++◌ (slice-to_be 40 8 raw h (omega arith))
        (ap (take 8) (drop-drop 40 8 raw) ∙ slice-to_be 48 8 raw h (omega arith))

-- Both header fields are read from the dedup key.
fields_of_key :
    (raw : Bytes)
    → 56 ≤ length raw
    → (uint_at 0 8 (build_dedup_key raw) ≡ uint_at 40 8 raw)
      × (uint_at 8 8 (build_dedup_key raw) ≡ uint_at 48 8 raw)
unfolding build_dedup_key
fields_of_key raw le =
    let whole = if_false (ltb (length raw) 56) [] (slice 40 16 raw) (ground arith) in
    (
      ap (uint_at 0 8) whole ∙ ap be (slice_of_slice 40 16 0 8 raw (omega arith)),
      ap (uint_at 8 8) whole ∙ ap be (slice_of_slice 40 16 8 8 raw (omega arith)),
    )

-- Two frames of 56 bytes or more have the same dedup key exactly if they have the same HashKey and
-- the same SeqNum, and the dedup key of a frame is the cache key of the two.
pub build_dedup_key_iff :
    (raw raw' : Bytes)
    → IsBytes raw
    → IsBytes raw'
    → 56 ≤ length raw
    → 56 ≤ length raw'
    → ((build_dedup_key raw ≡ build_dedup_key raw')
        ↔ ((uint_at 40 8 raw ≡ uint_at 40 8 raw') × (uint_at 48 8 raw ≡ uint_at 48 8 raw')))
      × (build_dedup_key raw ≡ cache_key (uint_at 40 8 raw) (uint_at 48 8 raw))
build_dedup_key_iff raw raw' h h' le le' =
    let (hash, seq) = fields_of_key raw le in
    let (hash', seq') = fields_of_key raw' le' in
    (
      (
        λ e. (sym hash ∙ ap (uint_at 0 8) e ∙ hash', sym seq ∙ ap (uint_at 8 8) e ∙ seq'),
        λ e.
            build_dedup_key-cache_key raw h le
            ∙ ap₂ cache_key e.0 e.1
            ∙ sym (build_dedup_key-cache_key raw' h' le'),
      ),
      build_dedup_key-cache_key raw h le,
    )
