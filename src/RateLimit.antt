-- ===== src/RateLimit.antt =====
-- Package ratelimit (ratelimit/ratelimit.go): the four tiers that bound NACK requests.
pub mod EventLog
pub mod Window
pub mod Buckets
pub mod Tiers
