-- ===== src/RateLimit/Window.antt =====
-- `slidingWindowLimiter` (ratelimit/ratelimit.go): at most `max` events per key in any window.
--
-- The map is an association list with keys of decidable equality. Lengths and times are natural
-- numbers; `now - lastSweep >= window` is written without the subtraction.
use retry_endpoint.Prelude.{
  ℕ, ◌+◌, ◌*◌, Bool, ◌||◌, not, Option, none, some, List, [], leb, ltb, max, if◌then◌else◌, length,
}
use retry_endpoint.Prelude.Assoc.{lookup, insert, keep}
use retry_endpoint.RateLimit.EventLog
use retry_endpoint.Prelude.Int.{sub_ℕ}
use retry_endpoint.RateLimit.EventLog.{EventLog, fresh, idle}
pub mod Tracks
pub mod Refines
pub mod Runs
pub mod Size

pub record Limiter (K : Type 0) : Type 0 where
  pub keys : List (K × EventLog)
  pub max_events : ℕ
  pub window : ℕ
  pub max_keys : ℕ
  pub sweep_at : ℕ
  pub last_sweep : ℕ
  pub peak : ℕ

-- `newSlidingWindowLimiter`
unfoldable pub new : {K : Type 0} → ℕ → ℕ → ℕ → Limiter K
new max_events window max_keys = record {
  keys = [];
  max_events = max_events;
  window = window;
  max_keys = max_keys;
  sweep_at = max_keys;
  last_sweep = 0;
  peak = 0;
}

-- `evictExpiredLocked`. Moving the entries to a map of their size changes `peak` only.
unfoldable pub evict_expired : {K : Type 0} → Limiter K → ℕ → Limiter K
evict_expired r now =
    let live = keep (λ l. not (idle l (sub_ℕ now r.window))) r.keys in
    record r {
      keys = live;
      peak = if ltb (4 * length live) r.peak then length live else r.peak;
      sweep_at = max r.max_keys (2 * length live);
      last_sweep = now;
    }

-- The sweep before a new key: the map has reached its size, or a window has passed.
unfoldable pub sweep_if_due : {K : Type 0} → Limiter K → ℕ → Limiter K
sweep_if_due r now =
    if leb r.sweep_at (length r.keys) || leb (r.last_sweep + r.window) now
    then evict_expired r now
    else r

module _ {K : Type 0} (dec : Discrete K) (grow : ℕ → ℕ → ℕ) where
  -- The branch of `allowLocked` for a key that is not in the map: sweep if due, then add it.
  unfoldable pub add_key : Limiter K → K → ℕ → Limiter K
  add_key r key now =
      let swept = sweep_if_due r now in
      let keys = insert dec key fresh swept.keys in
      record swept { keys = keys; peak = max swept.peak (length keys) }

  -- The last line of `allowLocked`: the log that `r.keys[key]` points to is updated in place.
  unfoldable pub record_event : Limiter K → K → EventLog → ℕ → Option (Bool × Limiter K)
  record_event r key l now = elim (EventLog.allow grow l now r.window r.max_events) [
    | none ↦ none
    | some (ok, l') ↦ some (ok, record r { keys = insert dec key l' r.keys })
  ]

  unfoldable pub allow : Limiter K → K → ℕ → Option (Bool × Limiter K)
  unfolding add_key record_event
  allow r key now = elim (lookup dec key r.keys) [
    | none ↦ record_event (add_key r key now) key fresh now
    | some l ↦ record_event r key l now
  ]
