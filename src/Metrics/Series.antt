-- ===== src/Metrics/Series.antt =====
-- The series of cached frames (metrics/metrics.go, `FrameCached`, `sourceOption` and
-- `PreCreateSources`) under any sequence of the recorder's calls.
use retry_endpoint.Config.Text.{Text, same}
use retry_endpoint.Metrics
use retry_endpoint.Metrics.{
  Recorder, Measurement, Instrument, Labels, by_source, find, loaded, source_option, add,
  pre_create_sources, frame_cached,
}
use retry_endpoint.Prelude.{
  ℕ, ◌+◌, ◌≡◌, refl, sym, ap, ap₂, ◌∙◌, Bool, true, false, Option, none, some, List, [], ◌∷◌,
  if◌then◌else◌, if-both, All, arith,
}
use retry_endpoint.Prelude.Int.{ℤ, pos, to_ℕ}

-- A call of one of the recorder's methods; the answers on readiness are no calls that count.
pub data Call : Type 0 where
  cache_hit cache_miss cache_error nack_request : Call
  cache_size : ℤ → Call
  retransmitted unicast_retransmit retransmit_dedup : Call
  proxy_request proxy_recovered proxy_inflight_dedup proxy_queue_dropped : Call
  proxy_failed response_sent response_send_error rate_limit_drop : Text → Call
  frame_received beacon_advert_sent : Call
  tee_datagram frame_dropped cached : Text → Call
  pre_create : List Text → Call
  set_workers : ℤ → Call
  worker_ready worker_done set_draining : Call

pub apply : Call → Recorder → Recorder
apply cache_hit r = Metrics.cache_hit r
apply cache_miss r = Metrics.cache_miss r
apply cache_error r = Metrics.cache_error r
apply nack_request r = Metrics.nack_request r
apply (cache_size n) r = Metrics.record_cache_size n r
apply retransmitted r = Metrics.retransmitted r
apply unicast_retransmit r = Metrics.unicast_retransmit r
apply retransmit_dedup r = Metrics.retransmit_dedup r
apply proxy_request r = Metrics.proxy_request r
apply proxy_recovered r = Metrics.proxy_recovered r
apply proxy_inflight_dedup r = Metrics.proxy_inflight_dedup r
apply proxy_queue_dropped r = Metrics.proxy_queue_dropped r
apply (proxy_failed t) r = Metrics.proxy_failed t r
apply (response_sent t) r = Metrics.response_sent t r
apply (response_send_error t) r = Metrics.response_send_error t r
apply (rate_limit_drop t) r = Metrics.rate_limit_drop t r
apply frame_received r = Metrics.frame_received r
apply beacon_advert_sent r = Metrics.beacon_advert_sent r
apply (tee_datagram t) r = Metrics.tee_datagram t r
apply (frame_dropped t) r = Metrics.frame_dropped t r
apply (cached t) r = Metrics.frame_cached t r
apply (pre_create ts) r = Metrics.pre_create_sources ts r
apply (set_workers n) r = Metrics.set_workers n r
apply worker_ready r = Metrics.worker_ready r
apply worker_done r = Metrics.worker_done r
apply set_draining r = Metrics.set_draining r

pub run : List Call → Recorder → Recorder
run [] r = r
run (c ∷ cs) r = run cs (apply c r)

-- The frames of a source that one call records.
step : Text → Call → ℕ
step s (cached t) = if same t s then 1 else 0
step s c = 0

-- How many of the calls record a cached frame of a source.
pub frames_of : Text → List Call → ℕ
frames_of s [] = 0
frames_of s (c ∷ cs) = step s c + frames_of s cs

abbrev pub counts_stored : Text → Measurement → Bool
counts_stored s m = elim m.instrument [
  | Instrument.cache_stored ↦ elim m.labels [ by_source t ↦ same t s | _ ↦ false ]
  | _ ↦ false
]

-- The value of the series of a source.
pub stored : Text → List Measurement → ℕ
stored s [] = 0
stored s (m ∷ ms) = (if counts_stored s m then to_ℕ m.amount else 0) + stored s ms

pub same→≡ : (s t : Text) → same s t ≡ true → s ≡ t
unfolding same
same→≡ [] [] h = refl
same→≡ [] (d ∷ t) h = absurd (cc h)
same→≡ (c ∷ s) [] h = absurd (cc h)
same→≡ (c ∷ s) (d ∷ t) h =
    let both : (c ≡ d) × (same s t ≡ true) = ground arith in ap₂ ◌∷◌ both.0 (same→≡ s t both.1)

-- Every option kept is the one of its source.
IsRight : Recorder → Type 0
IsRight r = All (λ e. e.1 ≡ by_source e.0) (loaded r.cached_by_source)

find-right :
    (s : Text) (m : List (Text × Labels)) (o : Labels)
    → All (λ e. e.1 ≡ by_source e.0) m
    → find s m ≡ some o
    → o ≡ by_source s
unfolding find
find-right s [] o h e = absurd (cc e)
find-right s ((k, v) ∷ m) o h e =
    if-both (λ r. r ≡ some o → o ≡ by_source s) (same k s)
      (λ t f. let p : v ≡ o = cc f in sym p ∙ h.0 ∙ ap by_source (same→≡ k s t))
      (λ t f. find-right s m o h.1 f) e

-- What one call does to a series: it grows by `n`, and the options stay right.
record Grows (s : Text) (n : ℕ) (r r' : Recorder) : Type 0 where
  right : IsRight r → IsRight r'
  grown : IsRight r → stored s r'.measured ≡ n + stored s r.measured

-- The option is the source's own, and finding it changes no measurement.
record Found (s : Text) (r : Recorder) (found : Labels × Recorder) : Type 0 where
  option : found.0 ≡ by_source s
  right : IsRight found.1
  unchanged : found.1.measured ≡ r.measured

source_option-Found : (s : Text) (r : Recorder) → IsRight r → Found s r (source_option s r)
unfolding source_option IsRight
source_option-Found s r h = go (find s (loaded r.cached_by_source)) refl
  where
    go :
        (o : Option Labels)
        → find s (loaded r.cached_by_source) ≡ o
        → Found s r (elim o [
          | some o' ↦ (o', r)
          | none ↦ (
            by_source s,
            record r { cached_by_source = some ((s, by_source s) ∷ loaded r.cached_by_source) },
          )
        ])
    go none e = record { option = refl; right = (refl, h); unchanged = refl }
    go (some o) e = record {
      option = find-right s (loaded r.cached_by_source) o h e;
      right = h;
      unchanged = refl;
    }

frame_cached-Grows :
    (s t : Text) (r : Recorder) → Grows s (if same t s then 1 else 0) r (frame_cached t r)
unfolding frame_cached add stored IsRight
frame_cached-Grows s t r = record {
  right = λ h. (source_option-Found t _ h).right;
  grown = λ h.
      let f = source_option-Found t (add Instrument.frames_cached (pos 1) Labels.unlabelled r) h in
      rw (f.option, f.unchanged) (omega arith);
}

pre_create-Grows :
    (s : Text) (ts : List Text) (r : Recorder) → Grows s 0 r (pre_create_sources ts r)
unfolding pre_create_sources add stored IsRight
pre_create-Grows s [] r = record { right = λ h. h; grown = λ h. omega arith }
pre_create-Grows s (t ∷ ts) r =
    let rest = pre_create-Grows s ts (add Instrument.cache_stored (pos 0) (by_source t) r) in
    record {
      right = rest.right;
      grown = λ h.
          rest.grown h
          ∙ if-both (λ n. 0 + (n + stored s r.measured) ≡ 0 + stored s r.measured) (same t s)
              (λ e. omega arith) (λ e. omega arith);
    }

apply-Grows : (s : Text) (c : Call) (r : Recorder) → Grows s (step s c) r (apply c r)
unfolding apply step add stored IsRight Metrics.cache_hit Metrics.cache_miss Metrics.cache_error
    Metrics.nack_request Metrics.record_cache_size Metrics.retransmitted Metrics.unicast_retransmit
    Metrics.retransmit_dedup Metrics.proxy_request Metrics.proxy_recovered
    Metrics.proxy_inflight_dedup Metrics.proxy_queue_dropped Metrics.proxy_failed
    Metrics.response_sent Metrics.response_send_error Metrics.rate_limit_drop Metrics.frame_received
    Metrics.beacon_advert_sent Metrics.tee_datagram Metrics.frame_dropped Metrics.set_workers
    Metrics.worker_ready Metrics.worker_done Metrics.set_draining
apply-Grows s (cached t) r = frame_cached-Grows s t r
apply-Grows s (pre_create ts) r = pre_create-Grows s ts r
apply-Grows s _ r = record { right = λ h. h; grown = λ h. omega arith }

run-Grows : (s : Text) (cs : List Call) (r : Recorder) → Grows s (frames_of s cs) r (run cs r)
unfolding run frames_of IsRight
run-Grows s [] r = record { right = λ h. h; grown = λ h. omega arith }
run-Grows s (c ∷ cs) r =
    let now = apply-Grows s c r in
    let later = run-Grows s cs (apply c r) in
    record {
      right = λ h. later.right (now.right h);
      grown = λ h. omega (arith, later.grown (now.right h), now.grown h);
    }

-- After any sequence of the recorder's calls, the series of a source counts exactly the frames that
-- were recorded as cached from it.
pub stored-run :
    (n : ℤ) (cs : List Call) (s : Text)
    → stored s (run cs (Metrics.new n)).measured ≡ frames_of s cs
unfolding Metrics.new stored IsRight
stored-run n cs s = omega (arith, (run-Grows s cs (Metrics.new n)).grown tt)
