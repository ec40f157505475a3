-- ===== src/Ingress.antt =====
-- Package ingress (ingress/ingress.go): the worker's configuration, the partition of the groups
-- over workers, and the keys of bundles. Sockets and joins are I/O and are not modelled.
use retry_endpoint.Frames.{FrameLib, Fragment}
use retry_endpoint.Prelude.{
  ℕ, ◌+◌, ◌-◌, ◌%◌, Bool, true, false, Option, none, some, List, [], ◌∷◌, ◌++◌, ltb, leb, ◌==◌, not,
  if◌then◌else◌, length, get_or, zero, suc,
}
use retry_endpoint.Prelude.Bytes.{Bytes, uint_at}
use retry_endpoint.Prelude.Int.{ℤ, pos, not_positive, is_negative, to_ℕ}
use retry_endpoint.Proxy.{Ttls}
pub mod Lifetimes
pub mod Frame
pub mod Kept
pub mod Store
pub mod Recall
pub mod Parts
pub mod Pipeline

-- The part of `Worker` that the processing of a frame reads. `TTLConfig` has the fields of the
-- proxy's type of that name.
pub record Worker : Type 0 where
  pub ttls : Ttls
  pub rec : Bool
  pub recv_buf : ℤ
  pub queue_depth : ℤ
  pub procs : ℤ

-- `socketRecvBuf`
abbrev pub socket_recv_buf : ℤ
socket_recv_buf = pos 67108864

-- `SetRecvBuf`
unfoldable pub set_recv_buf : ℤ → Worker → Worker
set_recv_buf n w = record w { recv_buf = n }

-- `recvBufBytes`
unfoldable pub recv_buf_bytes : Worker → ℤ
recv_buf_bytes w = if not_positive w.recv_buf then socket_recv_buf else w.recv_buf

-- `New`
unfoldable pub new : Bool → Ttls → Worker
new rec ttls = record {
  ttls = ttls;
  rec = rec;
  recv_buf = pos 0;
  queue_depth = pos 0;
  procs = pos 0;
}

-- `out[i%n] = append(out[i%n], g)`
unfoldable pub append_at {ℓ} : {A : Type ℓ} → ℕ → A → List (List A) → List (List A)
append_at i g [] = []
append_at zero g (p ∷ ps) = (p ++ (g ∷ [])) ∷ ps
append_at (suc i) g (p ∷ ps) = p ∷ append_at i g ps

-- The loop of `Partition`, from index `i`.
unfoldable pub deal {ℓ} : {A : Type ℓ} → ℕ → ℕ → List A → List (List A) → List (List A)
deal n i [] out = out
deal n i (g ∷ gs) out = deal n (suc i) gs (append_at (i % n) g out)

-- `make([][]*net.UDPAddr, n)`
unfoldable pub empty_parts {ℓ} : {A : Type ℓ} → ℕ → List (List A)
empty_parts zero = []
empty_parts (suc n) = [] ∷ empty_parts n

-- `min(n, len(groups))`, by the first test of `Partition`.
unfoldable pub part_count : ℕ → ℤ → ℤ
part_count len n = if is_negative n then n else if ltb len (to_ℕ n) then pos len else n

-- `Partition`
unfoldable pub partition {ℓ} : {A : Type ℓ} → List A → ℤ → List (List A)
partition groups n =
    let m = part_count (length groups) n in
    if not_positive m then groups ∷ [] else deal (to_ℕ m) 0 groups (empty_parts (to_ℕ m))

pub record BundleKey : Type 0 where
  pub hash_key : ℕ
  pub seq_num : ℕ
  pub members : ℕ

pub data BundleError : Type 0 where
  too_short bad_magic bad_ver truncated : BundleError

pub data BundleResult : Type 0 where
  error : BundleError → BundleResult
  ok : BundleKey → BundleResult

-- `bundleKey`
unfoldable pub bundle_key : FrameLib → Bytes → BundleResult
bundle_key lib raw =
    if ltb (length raw) lib.bundle_header_size
    then BundleResult.error too_short
    else if not (uint_at 0 4 raw == lib.magic)
    then BundleResult.error bad_magic
    else if not (get_or raw 6 0 == lib.ver_v8)
    then BundleResult.error bad_ver
    else if ltb (length raw - lib.bundle_header_size) (uint_at 62 4 raw)
    then BundleResult.error truncated
    else BundleResult.ok record {
      hash_key = uint_at 40 8 raw;
      seq_num = uint_at 48 8 raw;
      members = uint_at 60 2 raw;
    }
