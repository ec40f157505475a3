-- ===== src/Ingress/Frame.antt =====
-- The handlers of one frame (ingress/ingress.go, `processFrame` and the functions it dispatches
-- to). The cache is a parameter; logging is left out.
use retry_endpoint.Effects
use retry_endpoint.Effects.{pure, ◌>>=◌, ◌>>◌, ask, note, when}
use retry_endpoint.Frames.{FrameLib, Header, Fragment}
use retry_endpoint.Ingress.{Worker, BundleResult, bundle_key}
use retry_endpoint.Prelude.{ℕ, Bool, true, false, Option, none, some, ◌==◌, if◌then◌else◌}
use retry_endpoint.Prelude.Bytes.{Bytes}
use retry_endpoint.Prelude.Int.{ℤ}
use retry_endpoint.Server.Wire.{cache_key}

pub data Reason : Type 0 where
  decode_error truncated queue_full tee_decap_error : Reason

pub data TeeForm : Type 0 where
  encap_form raw_form : TeeForm

pub data Metric : Type 0 where
  frame_received cache_error : Metric
  frame_dropped : Reason → Metric
  frame_cached : Bytes → Metric
  tee_datagram : TeeForm → Metric

pub data Call : Type 0 where
  metric : Metric → Call
  store : Bytes → Bytes → ℤ → Bool → Call

-- `cache.Store`, true for a nil error.
abbrev pub Store : Type 0 → Type 0
Store W = W → Bytes → Bytes → ℤ → Bool × W

abbrev pub M : Type 0 → Type 0 → Type 0
M W A = Effects.M W Call A

module _ {W : Type 0} (lib : FrameLib) (cache : Store W) (w : Worker) where
  unfoldable pub count : Metric → M W (Unit {0})
  count m = when w.rec (note (Call.metric m))

  -- The test of the store's error, and the counter after it.
  unfoldable pub stored : Bool → Bytes → M W (Unit {0})
  stored true src = count (Metric.frame_cached src)
  stored false src = count Metric.cache_error

  -- What every handler does with a decoded frame: it drops an unstamped one, and stores.
  unfoldable pub keep_frame : Bytes → Bytes → Header → ℤ → M W (Unit {0})
  keep_frame raw src h ttl = do
    count Metric.frame_received
    (if h.seq_num == 0 then pure tt else (do
      ok ← ask (λ st. cache st (cache_key h.hash_key h.seq_num) raw ttl)
      note (Call.store (cache_key h.hash_key h.seq_num) raw ttl ok)
      stored ok src))

  -- A handler, by the decoder's result and the class's lifetime.
  unfoldable pub decoded : Bytes → Bytes → Option Header → ℤ → M W (Unit {0})
  decoded raw src none ttl = count (Metric.frame_dropped decode_error)
  decoded raw src (some h) ttl = keep_frame raw src h ttl

  -- `processBlockFrame`
  unfoldable pub process_block_frame : Bytes → Bytes → M W (Unit {0})
  process_block_frame raw src = decoded raw src (lib.decode_block raw) w.ttls.block

  -- `processSubtreeDataFrame`
  unfoldable pub process_subtree_data_frame : Bytes → Bytes → M W (Unit {0})
  process_subtree_data_frame raw src = decoded raw src (lib.decode_subtree_data raw) w.ttls.subtree

  -- `processAnchorFrame`
  unfoldable pub process_anchor_frame : Bytes → Bytes → M W (Unit {0})
  process_anchor_frame raw src = decoded raw src (lib.decode_anchor raw) w.ttls.anchor

  -- `processBEEFFrame`
  unfoldable pub process_beef_frame : Bytes → Bytes → M W (Unit {0})
  process_beef_frame raw src = decoded raw src (lib.decode_beef raw) w.ttls.beef

  -- The `switch` over OrigFrameVer.
  unfoldable pub fragment_ttl : ℕ → ℤ
  fragment_ttl ver =
      if ver == lib.ver_v4
      then w.ttls.block
      else if ver == lib.ver_v5
      then w.ttls.subtree
      else if ver == lib.ver_v6
      then w.ttls.anchor
      else if ver == lib.ver_v9
      then w.ttls.beef
      else w.ttls.tx

  unfoldable pub fragment_decoded : Bytes → Bytes → Option Fragment → M W (Unit {0})
  fragment_decoded raw src none = count (Metric.frame_dropped decode_error)
  fragment_decoded raw src (some ff) = keep_frame raw src ff.header (fragment_ttl ff.orig_frame_ver)

  -- `processFragmentFrame`
  unfoldable pub process_fragment_frame : Bytes → Bytes → M W (Unit {0})
  process_fragment_frame raw src = fragment_decoded raw src (lib.decode_fragment raw)

  unfoldable pub bundle_decoded : Bytes → Bytes → BundleResult → M W (Unit {0})
  bundle_decoded raw src (BundleResult.error e) = count (Metric.frame_dropped decode_error)
  bundle_decoded raw src (BundleResult.ok k) =
      keep_frame raw src record { hash_key = k.hash_key; seq_num = k.seq_num } w.ttls.tx

  -- `processBundleFrame`
  unfoldable pub process_bundle_frame : Bytes → Bytes → M W (Unit {0})
  process_bundle_frame raw src = bundle_decoded raw src (bundle_key lib raw)

  -- `processFrame`
  unfoldable pub process_frame : Bytes → Bytes → M W (Unit {0})
  process_frame raw src =
      if lib.is_block raw
      then process_block_frame raw src
      else if lib.is_subtree_data raw
      then process_subtree_data_frame raw src
      else if lib.is_anchor raw
      then process_anchor_frame raw src
      else if lib.is_bundle raw
      then process_bundle_frame raw src
      else if lib.is_beef raw
      then process_beef_frame raw src
      else if lib.is_fragment raw
      then process_fragment_frame raw src
      else decoded raw src (lib.decode raw) w.ttls.tx
