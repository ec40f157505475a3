-- ===== src/RateLimit/Buckets.antt =====
-- `tokenBucketLimiter` (ratelimit/ratelimit.go): one token bucket per key, over the buckets of
-- golang.org/x/time/rate and Go's floats, which are parameters.
use retry_endpoint.Prelude.{ℕ, Bool, none, some, List, []}
use retry_endpoint.Prelude.Int.{ℤ}
use retry_endpoint.Prelude.Assoc.{lookup, insert}

-- Go's float64, with the operations that the package makes on it.
pub record Floats : Type 1 where
  pub Float : Type 0
  pub is_zero : Float → Bool
  pub at_most_zero : Float → Bool
  pub to_int : Float → ℤ
  pub from_ℕ : ℕ → Float

-- `rate.Limiter`: `rate.NewLimiter(r, burst)` and `l.Allow()`, at a clock reading.
pub record Rates (fl : Floats) : Type 1 where
  pub Bucket : Type 0
  pub new_bucket : fl.Float → ℤ → Bucket
  pub take : Bucket → ℕ → Bool × Bucket

module _ {fl : Floats} (rates : Rates fl) where
  pub record Limiter (K : Type 0) : Type 0 where
    pub limit : List (K × rates.Bucket)
    pub rate : fl.Float
    pub burst : ℤ

  -- `newTokenBucketLimiter`
  unfoldable pub new : {K : Type 0} → fl.Float → ℤ → Limiter K
  new rate burst = record { limit = []; rate = rate; burst = burst }

  -- The bucket of a key, a full one on first use.
  unfoldable pub bucket : {K : Type 0} → Discrete K → Limiter K → K → rates.Bucket
  bucket dec t key = elim (lookup dec key t.limit) [
    | none ↦ rates.new_bucket t.rate t.burst
    | some l ↦ l
  ]

  -- `Allow`: the bucket that the map points to is updated in place.
  unfoldable pub allow : {K : Type 0} → Discrete K → Limiter K → K → ℕ → Bool × Limiter K
  unfolding bucket
  allow dec t key now =
      let (ok, l) = rates.take (bucket dec t key) now in
      (ok, record t { limit = insert dec key l t.limit })
