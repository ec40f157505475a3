-- ===== src/Metrics.antt =====
-- Package metrics (metrics/metrics.go): what the recorder counts, and its answers on readiness. What
-- a method adds to an instrument of OpenTelemetry is an entry of a list, the latest first.
use retry_endpoint.Config.Text.{Text, runes, same}
use retry_endpoint.Prelude.{
  ℕ, ◌+◌, ◌-◌, zero, suc, Bool, true, false, ◌&&◌, Option, none, some, List, [], ◌∷◌, leb, ltb,
  ◌==◌, if◌then◌else◌,
}
use retry_endpoint.Prelude.Int.{ℤ, pos, negsuc, sub_ℕ}
pub mod Series

-- The instruments of `Recorder`.
pub data Instrument : Type 0 where
  cache_hits cache_misses cache_size cache_errors : Instrument
  nack_requests retransmits unicast_retransmits retransmits_dedup : Instrument
  responses_sent response_send_errors : Instrument
  proxy_requests proxies_recovered proxies_failed proxies_inflight_dedup : Instrument
  proxies_queue_dropped : Instrument
  rate_limit_drops : Instrument
  frames_received tee_datagrams frames_cached cache_stored frames_dropped : Instrument
  beacon_adverts_sent : Instrument

-- The attribute set of a measurement: none, or one key with its value.
pub data Labels : Type 0 where
  unlabelled : Labels
  by_source by_reason by_type by_level by_form : Text → Labels

-- `Add` of an amount to a counter, or `Record` of a value.
pub record Measurement : Type 0 where
  pub instrument : Instrument
  pub amount : ℤ
  pub labels : Labels

-- `Recorder`, its part that changes; `cached_by_source` is `none` for a nil pointer.
pub record Recorder : Type 0 where
  pub num_workers : ℤ
  pub ready_count : ℤ
  pub draining : Bool
  pub cached_by_source : Option (List (Text × Labels))
  pub measured : List Measurement

-- `New`, less the exporters.
unfoldable pub new : ℤ → Recorder
new num_workers = record {
  num_workers = num_workers;
  ready_count = pos 0;
  draining = false;
  cached_by_source = none;
  measured = [];
}

unfoldable pub add : Instrument → ℤ → Labels → Recorder → Recorder
add i n l r = record r { measured = record { instrument = i; amount = n; labels = l } ∷ r.measured }

abbrev pub one : Instrument → Recorder → Recorder
one i r = add i (pos 1) unlabelled r

unfoldable pub cache_hit : Recorder → Recorder
cache_hit r = one cache_hits r

unfoldable pub cache_miss : Recorder → Recorder
cache_miss r = one cache_misses r

-- `CacheSize`
unfoldable pub record_cache_size : ℤ → Recorder → Recorder
record_cache_size size r = add cache_size size unlabelled r

unfoldable pub cache_error : Recorder → Recorder
cache_error r = one cache_errors r

unfoldable pub nack_request : Recorder → Recorder
nack_request r = one nack_requests r

-- `Retransmit`
unfoldable pub retransmitted : Recorder → Recorder
retransmitted r = one retransmits r

unfoldable pub unicast_retransmit : Recorder → Recorder
unicast_retransmit r = one unicast_retransmits r

unfoldable pub retransmit_dedup : Recorder → Recorder
retransmit_dedup r = one retransmits_dedup r

unfoldable pub proxy_request : Recorder → Recorder
proxy_request r = one proxy_requests r

unfoldable pub proxy_recovered : Recorder → Recorder
proxy_recovered r = one proxies_recovered r

unfoldable pub proxy_failed : Text → Recorder → Recorder
proxy_failed reason r = add proxies_failed (pos 1) (by_reason reason) r

unfoldable pub proxy_inflight_dedup : Recorder → Recorder
proxy_inflight_dedup r = one proxies_inflight_dedup r

unfoldable pub proxy_queue_dropped : Recorder → Recorder
proxy_queue_dropped r = one proxies_queue_dropped r

unfoldable pub response_sent : Text → Recorder → Recorder
response_sent typ r = add responses_sent (pos 1) (by_type typ) r

unfoldable pub response_send_error : Text → Recorder → Recorder
response_send_error typ r = add response_send_errors (pos 1) (by_type typ) r

unfoldable pub rate_limit_drop : Text → Recorder → Recorder
rate_limit_drop level r = add rate_limit_drops (pos 1) (by_level level) r

unfoldable pub frame_received : Recorder → Recorder
frame_received r = one frames_received r

unfoldable pub tee_datagram : Text → Recorder → Recorder
tee_datagram form r = add tee_datagrams (pos 1) (by_form form) r

-- `m[source]` of a map that may be nil.
unfoldable pub find : Text → List (Text × Labels) → Option Labels
find source [] = none
find source ((k, o) ∷ m) = if same k source then some o else find source m

abbrev pub loaded : Option (List (Text × Labels)) → List (Text × Labels)
loaded none = []
loaded (some m) = m

-- `sourceOption`: a copy of the map with the new entry is stored; a hit changes nothing.
unfoldable pub source_option : Text → Recorder → Labels × Recorder
source_option source r = elim (find source (loaded r.cached_by_source)) [
  | some o ↦ (o, r)
  | none ↦ (
    by_source source,
    record r { cached_by_source = some ((source, by_source source) ∷ loaded r.cached_by_source) },
  )
]

unfoldable pub frame_cached : Text → Recorder → Recorder
frame_cached source r =
    let found = source_option source (one frames_cached r) in
    add cache_stored (pos 1) found.0 found.1

unfoldable pub pre_create_sources : List Text → Recorder → Recorder
pre_create_sources [] r = r
pre_create_sources (s ∷ ss) r = pre_create_sources ss (add cache_stored (pos 0) (by_source s) r)

unfoldable pub frame_dropped : Text → Recorder → Recorder
frame_dropped reason r = add frames_dropped (pos 1) (by_reason reason) r

unfoldable pub beacon_advert_sent : Recorder → Recorder
beacon_advert_sent r = one beacon_adverts_sent r

unfoldable pub set_workers : ℤ → Recorder → Recorder
set_workers n r = record r { num_workers = n }

abbrev pub incremented : ℤ → ℤ
incremented (pos n) = pos (suc n)
incremented (negsuc zero) = pos 0
incremented (negsuc (suc n)) = negsuc n

abbrev pub decremented : ℤ → ℤ
decremented (pos zero) = negsuc 0
decremented (pos (suc n)) = pos n
decremented (negsuc n) = negsuc (suc n)

unfoldable pub worker_ready : Recorder → Recorder
worker_ready r = record r { ready_count = incremented r.ready_count }

unfoldable pub worker_done : Recorder → Recorder
worker_done r = record r { ready_count = decremented r.ready_count }

unfoldable pub set_draining : Recorder → Recorder
set_draining r = record r { draining = true }

pub data Status : Type 0 where
  draining ready starting : Status

-- `a >= b` and `a > 0`
abbrev pub at_least : ℤ → ℤ → Bool
at_least (pos a) (pos b) = leb b a
at_least (pos a) (negsuc b) = true
at_least (negsuc a) (pos b) = false
at_least (negsuc a) (negsuc b) = leb a b

abbrev pub is_positive : ℤ → Bool
is_positive (pos zero) = false
is_positive (pos (suc n)) = true
is_positive (negsuc n) = false

-- `handleReadyz`: the status in the body.
unfoldable pub handle_readyz : Recorder → Status
handle_readyz r =
    if r.draining
    then Status.draining
    else if at_least r.ready_count r.num_workers && is_positive r.num_workers
    then Status.ready
    else Status.starting

-- The code that `handleReadyz` answers with each.
unfoldable pub status_code : Status → ℕ
status_code Status.draining = 503
status_code Status.ready = 200
status_code Status.starting = 503
