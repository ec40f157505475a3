-- ===== src/Startup/EndToEnd.antt =====
-- The program as main.go puts it together: the ingress workers store in the frame cache that the
-- server's handler looks up.
use retry_endpoint.Cache
use retry_endpoint.Cache.{Backend, Got}
use retry_endpoint.Cache.Views.{ReadsBack}
use retry_endpoint.Config.Parts.{Config}
use retry_endpoint.Effects.{Run}
use retry_endpoint.Frames.{FrameLib, Header}
use retry_endpoint.Ingress
use retry_endpoint.Ingress.{Worker, set_recv_buf}
use retry_endpoint.Ingress.Pipeline.{set_pipeline}
use retry_endpoint.Config.Loaded.{Positive}
use retry_endpoint.Ingress.Frame
use retry_endpoint.Ingress.Recall.{view, retrieve-process_frame}
use retry_endpoint.Ingress.Store.{Decoders, header_of, class_ttl, class_ttl-Positive}
use retry_endpoint.Prelude.{ℕ, ◌<◌, ◌≡◌, ◌≢◌, ◌∙◌, ap, true, Option, none, some, [], ◌∷◌, ◌==◌}
use retry_endpoint.Prelude.Bytes.{Bytes, uint_at}
use retry_endpoint.Prelude.Int.{to_ℕ}
use retry_endpoint.RateLimit.Tiers.{Runtime, IpBytes}
use retry_endpoint.Server.Calls
use retry_endpoint.Server.Calls.{Deps, UdpAddr, Retrieved}
use retry_endpoint.Server.Handler
use retry_endpoint.Server.Handler.{Server}
use retry_endpoint.Server.Serves.{Sends, multicasts, process_nack-multicasts}
use retry_endpoint.Server.Wire.{Request, cache_key, parse_request, validate_nack}
use retry_endpoint.Startup.Groups.{Engine, ingress_worker}
use retry_endpoint.Startup.Wiring.{server_of, server_of-retransmit_mc}

-- The answer of `cache.Retrieve`, as the handler reads it.
unfoldable pub as_retrieved : Got → Retrieved
as_retrieved Got.failed = Retrieved.failed
as_retrieved Got.missing = Retrieved.missing
as_retrieved (Got.found raw) = Retrieved.found raw

module _ {B L : Type 0} (b : Backend B) (s : Cache.Store) (rest : Deps L) where
  abbrev pub on_rest : {A : Type 0} → (L → A × L) → B × L → A × (B × L)
  on_rest f w = ((f w.1).0, (w.0, (f w.1).1))

  -- The cache that the handler is given, as `retrieve` of its dependencies.
  unfoldable pub retrieve_frame : B × L → Bytes → Retrieved × (B × L)
  retrieve_frame w k = let got = Cache.retrieve b s k w.0 in (as_retrieved got.0, (got.1, w.1))

  -- What main.go hands to the server: the frame cache, and the limiter, the retransmitter, the proxy
  -- and the socket, which act on a world of their own. Claims of the dedup gates that lie in the same
  -- backend are made after the lookup only.
  abbrev pub wired : Deps (B × L)
  wired = record {
    allow = λ w a h n. on_rest (λ l. rest.allow l a h n) w;
    allow_chain = λ w a h. on_rest (λ l. rest.allow_chain l a h) w;
    allow_group = λ w a g. on_rest (λ l. rest.allow_group l a g) w;
    retrieve = retrieve_frame;
    retransmit = λ w raw tx. on_rest (λ l. rest.retransmit l raw tx) w;
    retransmit_unicast = λ w raw a. on_rest (λ l. rest.retransmit_unicast l raw a) w;
    enqueue = λ w h n t a. on_rest (λ l. rest.enqueue l h n t a) w;
    write_to = λ w buf a. on_rest (λ l. rest.write_to l buf a) w;
  }

  -- The limiter's world after the tiers that are asked before the lookup.
  abbrev pub after_tiers : Request → IpBytes → L → L
  after_tiers q ip l = (rest.allow_chain (rest.allow l ip q.hash_key q.start_seq).1 ip q.hash_key).1

  -- The limiter lets a request for the frame through, in every tier, and the retransmitter sends it.
  pub record Lets (lib : FrameLib) (server : Server) (q : Request) (ip : IpBytes) (raw : Bytes)
      (l : L) : Type 0 where
    pub admitted : (rest.allow l ip q.hash_key q.start_seq).0 ≡ none
    pub chained :
        (rest.allow_chain (rest.allow l ip q.hash_key q.start_seq).1 ip q.hash_key).0 ≡ true
    pub sends : Sends lib rest server server.shard_engine ip raw (after_tiers q ip l)

  Sends-wired :
      (lib : FrameLib) (server : Server) (engine : Option (Bytes → ℕ)) (ip : IpBytes) (raw : Bytes)
      (st : B) (l : L)
      → Sends lib rest server engine ip raw l
      → Sends lib wired server engine ip raw (st, l)
  unfolding Handler.rate_group
  Sends-wired lib server none ip raw st l h = h
  Sends-wired lib server (some group_index) ip raw st l h = h

  retrieve_frame-found :
      (k raw : Bytes) (w : B × L)
      → (Cache.retrieve b s k w.0).0 ≡ Got.found raw
      → (retrieve_frame w k).0 ≡ Retrieved.found raw
  unfolding retrieve_frame as_retrieved
  retrieve_frame-found k raw w e = ap as_retrieved e

  retrieve_frame-Sends :
      (lib : FrameLib) (server : Server) (ip : IpBytes) (raw k : Bytes) (w : B × L)
      → Sends lib rest server server.shard_engine ip raw w.1
      → Sends lib wired server server.shard_engine ip raw (retrieve_frame w k).1
  unfolding retrieve_frame
  retrieve_frame-Sends lib server ip raw k w h =
      Sends-wired lib server server.shard_engine ip raw _ w.1 h

  -- The handler, after the ingress has processed a frame.
  abbrev pub nack_after_frame :
      FrameLib
      → Worker
      → Server
      → Bytes
      → Bytes
      → Bytes
      → Option UdpAddr
      → Run B Frame.Call
      → L
      → Calls.Run (B × L)
  nack_after_frame lib w server raw src nack a r l =
      (Handler.process_nack lib wired server nack a (record {
        world = ((Frame.process_frame lib (view b s) w raw src r).1.world, l);
        calls = [];
      })).1

  -- A stamped frame that is stored is what a NACK for it multicasts.
  process_frame-multicasts :
      (lib : FrameLib) (w : Worker) (server : Server) (raw src nack : Bytes) (a : UdpAddr)
      (h : Header) (r : Run B Frame.Call) (l : L)
      → ReadsBack b
      → 0 < to_ℕ (class_ttl lib (view b s) w raw)
      → Decoders lib (view b s) w
      → header_of lib (view b s) w raw ≡ some h
      → h.seq_num ≢ 0
      → (view b s r.world
          (cache_key (uint_at 40 8 raw) (uint_at 48 8 raw))
          raw
          (class_ttl lib (view b s) w raw)).0
        ≡ true
      → server.retransmit_mc ≡ true
      → validate_nack lib nack ≡ none
      → (parse_request nack).hash_key ≡ uint_at 40 8 raw
      → (parse_request nack).start_seq ≡ uint_at 48 8 raw
      → ((parse_request nack).end_seq == (parse_request nack).start_seq) ≡ true
      → Lets lib server (parse_request nack) a.ip raw l
      → multicasts (nack_after_frame lib w server raw src nack (some a) r l).calls ≡ raw ∷ []
  process_frame-multicasts lib w server raw src nack a h r l back live d e n ok mc valid hk sn
        single lets =
      process_nack-multicasts lib wired server nack (some a) raw _ mc valid record {
        single = single;
        admitted = lets.admitted;
        chained = lets.chained;
        found =
            retrieve_frame-found _ raw _
              (retrieve-process_frame b s lib w raw src nack h r back live d e n hk sn ok);
        sends = retrieve_frame-Sends lib server a.ip raw _ _ lets.sends;
      }

  ingress_worker-Positive :
      {rt : Runtime} (engine : Engine) (cfg : Config rt)
      → Positive cfg.ttls
      → Positive (ingress_worker engine cfg).ttls
  unfolding ingress_worker set_pipeline set_recv_buf Ingress.new
  ingress_worker-Positive engine cfg p = p

  -- With the worker and the server that `run` makes of a configuration with positive lifetimes and the
  -- multicast flag set, on a backend that reads back what it has just set: a frame that the ingress
  -- decodes, that is stamped and is stored without error, is multicast once and unchanged for a
  -- valid NACK that comes next, if the NACK is for that frame alone (it names the HashKey and the
  -- SeqNum in the frame's bytes, as both ends of its range), the limiter's tiers let it through, and
  -- the retransmitter reports the frame as sent, not as claimed by a sibling or failed.
  pub process_frame-process_nack :
      {rt : Runtime} (cfg : Config rt) (engine : Engine) (tx_group beef_group : Bytes → ℕ)
      (lib : FrameLib) (raw src nack : Bytes) (a : UdpAddr) (h : Header) (r : Run B Frame.Call)
      (l : L)
      → cfg.beacon.multicast ≡ true
      → ReadsBack b
      → Positive cfg.ttls
      → Decoders lib (view b s) (ingress_worker engine cfg)
      → header_of lib (view b s) (ingress_worker engine cfg) raw ≡ some h
      → h.seq_num ≢ 0
      → (view b s r.world
          (cache_key (uint_at 40 8 raw) (uint_at 48 8 raw))
          raw
          (class_ttl lib (view b s) (ingress_worker engine cfg) raw)).0
        ≡ true
      → validate_nack lib nack ≡ none
      → (parse_request nack).hash_key ≡ uint_at 40 8 raw
      → (parse_request nack).start_seq ≡ uint_at 48 8 raw
      → ((parse_request nack).end_seq == (parse_request nack).start_seq) ≡ true
      → Lets lib (server_of cfg tx_group beef_group) (parse_request nack) a.ip raw l
      → multicasts
          (nack_after_frame lib
            (ingress_worker engine cfg)
            (server_of cfg tx_group beef_group)
            raw
            src
            nack
            (some a)
            r
            l).calls
        ≡ raw ∷ []
  process_frame-process_nack cfg engine tx_group beef_group lib raw src nack a h r l mc back alive d
        e n ok valid hk sn single lets =
      process_frame-multicasts lib (ingress_worker engine cfg) (server_of cfg tx_group beef_group)
        raw src nack a h r l back
        (class_ttl-Positive lib (view b s) (ingress_worker engine cfg) raw
          (ingress_worker-Positive engine cfg alive))
        d e n ok (server_of-retransmit_mc cfg tx_group beef_group ∙ mc) valid hk sn single lets
