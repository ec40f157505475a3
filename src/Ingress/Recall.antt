-- ===== src/Ingress/Recall.antt =====
-- From the ingress (ingress/ingress.go) through the cache (cache/cache.go) to the server's lookup
-- (server/server.go).
use retry_endpoint.Cache
use retry_endpoint.Cache.{Backend, Got}
use retry_endpoint.Cache.Views.{ReadsBack, retrieve-store}
use retry_endpoint.Effects.{Run}
use retry_endpoint.Frames.{FrameLib, Header}
use retry_endpoint.Ingress.{Worker}
use retry_endpoint.Ingress.Frame
use retry_endpoint.Ingress.Frame.{Call}
use retry_endpoint.Ingress.Store.{Decoders, header_of, class_ttl, process_frame-Kept}
use retry_endpoint.Prelude.{◌≡◌, ◌≢◌, ◌<◌, true, some}
use retry_endpoint.Prelude.Int.{to_ℕ}
use retry_endpoint.Prelude.Bytes.{Bytes, uint_at}
use retry_endpoint.Server.Wire.{cache_key, parse_request}

module _ {B : Type 0} (b : Backend B) (s : Cache.Store) where
  -- The ingress worker's cache, as a view of the backend.
  abbrev pub view : Frame.Store B
  view st k v ttl = Cache.store b s k v ttl st

  -- On a backend that reads back what it has just set: a frame that decodes, is stamped, has a
  -- lifetime and is stored without error is what the server's lookup finds if it comes next, whole
  -- and unchanged, for a NACK that names the HashKey and the SeqNum in the frame's bytes.
  pub retrieve-process_frame :
      (lib : FrameLib) (w : Worker) (raw src nack : Bytes) (h : Header) (r : Run B Call)
      → ReadsBack b
      → 0 < to_ℕ (class_ttl lib view w raw)
      → Decoders lib view w
      → header_of lib view w raw ≡ some h
      → h.seq_num ≢ 0
      → (parse_request nack).hash_key ≡ uint_at 40 8 raw
      → (parse_request nack).start_seq ≡ uint_at 48 8 raw
      → (view r.world
          (cache_key (uint_at 40 8 raw) (uint_at 48 8 raw))
          raw
          (class_ttl lib view w raw)).0
        ≡ true
      → (Cache.retrieve b s
          (cache_key (parse_request nack).hash_key (parse_request nack).start_seq)
          (Frame.process_frame lib view w raw src r).1.world).0
        ≡ Got.found raw
  retrieve-process_frame lib w raw src nack h r back live d e n hk sn ok =
      rw (hk, sn, (process_frame-Kept lib view w raw src d).on_world h r e n)
        (retrieve-store b s _ raw (class_ttl lib view w raw) r.world back live ok)
