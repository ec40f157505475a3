-- ===== src/Ingress/Store.antt =====
-- Which frames reach the cache, under which key and for how long (ingress/ingress.go,
-- `processFrame`).

use retry_endpoint.Config.Loaded.{Positive}
use retry_endpoint.Frames.{FrameLib, Header, Fragment, ReadsHeader}
use retry_endpoint.Ingress.{Worker, BundleResult, bundle_key}
use retry_endpoint.Ingress.Frame
use retry_endpoint.Ingress.Lifetimes.{lifetime}
use retry_endpoint.Ingress.Kept.{Kept, keep_frame-Kept, dropped-Kept}
use retry_endpoint.Ingress.Frame.{Call, Store, Metric}
use retry_endpoint.Prelude.{
  ◌<◌, ◌≡◌, refl, Bool, true, false, Option, none, some, arith, if◌then◌else◌,
}
use retry_endpoint.Prelude.Bytes.{Bytes, uint_at}
use retry_endpoint.Prelude.Int.{ℤ, to_ℕ}

module _ {W : Type 0} (lib : FrameLib) (cache : Store W) (w : Worker) where
  -- The lifetime of a frame by its class, and a fragment's by the class of the frame it is cut from.
  abbrev pub class_ttl : Bytes → ℤ
  class_ttl raw =
      if lib.is_block raw
      then w.ttls.block
      else if lib.is_subtree_data raw
      then w.ttls.subtree
      else if lib.is_anchor raw
      then w.ttls.anchor
      else if lib.is_bundle raw
      then w.ttls.tx
      else if lib.is_beef raw
      then w.ttls.beef
      else if lib.is_fragment raw
      then elim (lib.decode_fragment raw) [
        | none ↦ w.ttls.tx
        | some ff ↦ lifetime lib w.ttls ff.orig_frame_ver
      ]
      else w.ttls.tx

  -- Where the lifetimes are positive, so is that of a frame.
  pub class_ttl-Positive : (raw : Bytes) → Positive w.ttls → 0 < to_ℕ (class_ttl raw)
  class_ttl-Positive raw p = ground (arith, p.tx, p.block, p.subtree, p.anchor, p.beef)

  abbrev bundle_header : BundleResult → Option Header
  bundle_header (BundleResult.error e) = none
  bundle_header (BundleResult.ok k) = some record { hash_key = k.hash_key; seq_num = k.seq_num }

  abbrev fragment_header : Option Fragment → Option Header
  fragment_header none = none
  fragment_header (some ff) = some ff.header

  -- The header that the class's decoder reads, if the frame decodes.
  abbrev pub header_of : Bytes → Option Header
  header_of raw =
      if lib.is_block raw
      then lib.decode_block raw
      else if lib.is_subtree_data raw
      then lib.decode_subtree_data raw
      else if lib.is_anchor raw
      then lib.decode_anchor raw
      else if lib.is_bundle raw
      then bundle_header (bundle_key lib raw)
      else if lib.is_beef raw
      then lib.decode_beef raw
      else if lib.is_fragment raw
      then fragment_header (lib.decode_fragment raw)
      else lib.decode raw

  -- The header that a decoder returns is what stands at the shared offsets.
  abbrev Reads : Bytes → Option Header → Type 0
  Reads raw o =
      (h : Header) → o ≡ some h → (h.hash_key ≡ uint_at 40 8 raw) × (h.seq_num ≡ uint_at 48 8 raw)

  decoded-Kept :
      (raw src : Bytes) (o : Option Header) (ttl : ℤ)
      → Reads raw o
      → Kept lib cache w raw (Frame.decoded lib cache w raw src o ttl) o ttl
  unfolding Frame.decoded
  decoded-Kept raw src none ttl reads = dropped-Kept lib cache w raw _ ttl
  decoded-Kept raw src (some h) ttl reads =
      keep_frame-Kept lib cache w raw src h ttl (reads h refl).0 (reads h refl).1

  bundle-Kept :
      (raw src : Bytes) (o : BundleResult)
      → Reads raw (bundle_header o)
      → Kept lib cache w raw
          (Frame.bundle_decoded lib cache w raw src o)
          (bundle_header o)
          w.ttls.tx
  unfolding Frame.bundle_decoded
  bundle-Kept raw src (BundleResult.error e) reads = dropped-Kept lib cache w raw _ _
  bundle-Kept raw src (BundleResult.ok k) reads =
      keep_frame-Kept lib cache w raw src _ _ (reads _ refl).0 (reads _ refl).1

  fragment-Kept :
      (raw src : Bytes) (o : Option Fragment)
      → Reads raw (fragment_header o)
      → Kept lib cache w raw
          (Frame.fragment_decoded lib cache w raw src o)
          (fragment_header o)
          (elim o [ none ↦ w.ttls.tx | some ff ↦ lifetime lib w.ttls ff.orig_frame_ver ])
  unfolding Frame.fragment_decoded Frame.fragment_ttl
  fragment-Kept raw src none reads = dropped-Kept lib cache w raw _ _
  fragment-Kept raw src (some ff) reads =
      keep_frame-Kept lib cache w raw src _ _ (reads _ refl).0 (reads _ refl).1

  if-Kept :
      (raw : Bytes) (b : Bool) {act act' : Frame.M W (Unit {0})} {o o' : Option Header}
      {ttl ttl' : ℤ}
      → Kept lib cache w raw act o ttl
      → Kept lib cache w raw act' o' ttl'
      → Kept lib cache w raw
          (if b then act else act')
          (if b then o else o')
          (if b then ttl else ttl')
  if-Kept raw true k k' = k
  if-Kept raw false k k' = k'

  bundle_key-Reads : (raw : Bytes) → Reads raw (bundle_header (bundle_key lib raw))
  unfolding bundle_key
  bundle_key-Reads raw h e = (ground arith, ground arith)

  -- The decoders' headers stand at the shared offsets (what shard-common documents).
  pub record Decoders : Type 0 where
    pub whole : ReadsHeader lib.decode
    pub block : ReadsHeader lib.decode_block
    pub subtree_data : ReadsHeader lib.decode_subtree_data
    pub anchor : ReadsHeader lib.decode_anchor
    pub beef : ReadsHeader lib.decode_beef
    pub fragment : ReadsHeader (λ raw. fragment_header (lib.decode_fragment raw))

  -- Where the decoders read HashKey and SeqNum at offsets 40 and 48: a frame of any class that
  -- decodes and is stamped is handed to the cache once, unchanged, under the key of the two fields
  -- as they stand in its bytes, with the lifetime of its class, for a fragment that of the version of
  -- the frame it is cut from; a frame that does not decode, or whose sequence number is 0, is not.
  pub process_frame-Kept :
      (raw src : Bytes)
      → Decoders
      → Kept lib cache w raw
          (Frame.process_frame lib cache w raw src)
          (header_of raw)
          (class_ttl raw)
  unfolding Frame.process_frame Frame.process_block_frame Frame.process_subtree_data_frame
      Frame.process_anchor_frame Frame.process_bundle_frame Frame.process_beef_frame
      Frame.process_fragment_frame
  process_frame-Kept raw src d =
      if-Kept raw (lib.is_block raw) (decoded-Kept raw src _ _ (d.block raw)) (
        if-Kept raw (lib.is_subtree_data raw) (decoded-Kept raw src _ _ (d.subtree_data raw)) (
          if-Kept raw (lib.is_anchor raw) (decoded-Kept raw src _ _ (d.anchor raw)) (
            if-Kept raw (lib.is_bundle raw) (bundle-Kept raw src _ (bundle_key-Reads raw)) (
              if-Kept raw (lib.is_beef raw) (decoded-Kept raw src _ _ (d.beef raw)) (
                if-Kept raw (lib.is_fragment raw) (fragment-Kept raw src _ (d.fragment raw))
                  (decoded-Kept raw src _ _ (d.whole raw)))))))
