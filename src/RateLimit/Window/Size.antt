-- ===== src/RateLimit/Window/Size.antt =====
-- The size of a sliding-window limiter's map (ratelimit/ratelimit.go, `allowLocked` and
-- `evictExpiredLocked`).
use retry_endpoint.Prelude.{ℕ, ◌+◌, ◌*◌, ◌≤◌, ◌≡◌, ◌⊎◌, max, arith, length}
use retry_endpoint.RateLimit.EventLog
use retry_endpoint.RateLimit.EventLog.{EventLog, events}
use retry_endpoint.RateLimit.Window
use retry_endpoint.RateLimit.Window.{Limiter}

-- The map is no larger than the size that triggers the next sweep, which is never below `max_keys`.
pub record IsBounded {K : Type 0} (r : Limiter K) : Type 0 where
  pub room : 1 ≤ r.max_keys
  pub floor : r.max_keys ≤ r.sweep_at
  pub within : length r.keys ≤ r.sweep_at
  pub peaked : length r.keys ≤ r.peak

pub new-IsBounded :
    {K : Type 0} (limit window max_keys : ℕ)
    → 1 ≤ max_keys
    → IsBounded (Window.new {K = K} limit window max_keys)
unfolding Window.new
new-IsBounded limit window max_keys h = omega arith

-- What a request does to the size that triggers the next sweep: it stays, or there was a sweep before
-- a new key, which left `live` keys, and it is twice as many, or `max_keys` where that is more.
abbrev pub Resized : {K : Type 0} → Limiter K → Limiter K → Type 0
Resized r r' =
    (r'.sweep_at ≡ r.sweep_at)
    ⊎ ((live : ℕ) × (live ≤ length r.keys)
        × (length r'.keys ≡ live + 1)
        × (r'.sweep_at ≡ max r.max_keys (2 * live)))

-- A sweep that is due leaves no more keys, and sets the size to match.
abbrev Swept : {K : Type 0} → Limiter K → Limiter K → Type 0
Swept r s =
    (s.sweep_at ≡ r.sweep_at)
    ⊎ ((length s.keys ≤ length r.keys) × (s.sweep_at ≡ max r.max_keys (2 * length s.keys)))
