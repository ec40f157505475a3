-- ===== src/RateLimit/Tiers/Order.antt =====
-- The tiers in the order in which they are asked, and `New` (ratelimit/ratelimit.go).
use retry_endpoint.Prelude.{
  ℕ, ◌≤◌, ◌<◌, ◌≡◌, refl, true, false, Option, none, some, arith, ltb, if◌then◌else◌,
}
use retry_endpoint.Prelude.Int.{not_positive}
use retry_endpoint.RateLimit.Buckets
use retry_endpoint.RateLimit.EventLog.Ascending.{live_count}
use retry_endpoint.RateLimit.Window
use retry_endpoint.RateLimit.Window.Refines.{allow-Admits}
use retry_endpoint.RateLimit.Window.Tracks.{History, note, Tracks}
use retry_endpoint.RateLimit.Tiers
use retry_endpoint.RateLimit.Tiers.{
  Level, ip, sequence, Runtime, Config, Limiter, IpBytes, IpBytes-discrete, SeqKey, SeqKey-discrete,
  ChainKey, ChainKey-discrete, minute, allow_sequence, default_sequence_window, default_chain_rate,
  default_chain_window, default_chain_max, default_group_rate, default_group_burst,
}

module _ (rt : Runtime) where
  -- What `Allow` does, given the state of its sequence tier: the two ways that it can go.
  pub record Asked (last : ℕ) (r : Limiter rt) (h : History SeqKey-discrete) (src_ip : IpBytes)
      (hash_key start_seq wall mono : ℕ) (out : Option (Option Level × Limiter rt)) : Type 0 where
    pub flooded :
        (Buckets.allow rt.rates IpBytes-discrete r.ip_limiter (rt.ip_string src_ip) wall).0 ≡ false
        → out
          ≡ some (
            some ip,
            record r {
              ip_limiter =
                  (Buckets.allow rt.rates IpBytes-discrete r.ip_limiter
                    (rt.ip_string src_ip)
                    wall).1;
            },
          )
    pub counted :
        (Buckets.allow rt.rates IpBytes-discrete r.ip_limiter (rt.ip_string src_ip) wall).0 ≡ true
        → (s : Window.Limiter SeqKey) × (out
            ≡ some (
              (if ltb
                    (live_count r.sequence_limiter.window mono
                      (h (record { hash_key = hash_key; seq_num = start_seq })))
                    r.sequence_limiter.max_events
                  then none
                  else some sequence),
              record r {
                ip_limiter =
                    (Buckets.allow rt.rates IpBytes-discrete r.ip_limiter
                      (rt.ip_string src_ip)
                      wall).1;
                sequence_limiter = s;
              },
            ))
          × Tracks SeqKey-discrete mono s (
              note SeqKey-discrete h
                (record { hash_key = hash_key; seq_num = start_seq })
                (ltb
                  (live_count r.sequence_limiter.window mono
                    (h (record { hash_key = hash_key; seq_num = start_seq })))
                  r.sequence_limiter.max_events)
                mono)

  -- A request that the IP tier refuses costs the flow's sequence budget nothing; one that it lets
  -- through is refused exactly if the sequence window of its own (hash key, start) flow is full.
  -- Neither touches the chain and group tiers.
  pub allow-Asked :
      (last : ℕ) (r : Limiter rt) (h : History SeqKey-discrete) (src_ip : IpBytes)
      (hash_key start_seq wall mono : ℕ)
      → Tracks SeqKey-discrete last r.sequence_limiter h
      → last ≤ mono
      → Asked last r h src_ip hash_key start_seq wall mono
          (Tiers.allow rt r src_ip hash_key start_seq wall mono)
  unfolding Tiers.allow
  allow-Asked last r h src_ip hash_key start_seq wall mono t le =
      let a =
        allow-Admits SeqKey-discrete rt.grow last mono r.sequence_limiter h
          (record { hash_key = hash_key; seq_num = start_seq }) t le in
      record {
        flooded = λ e. rw e refl;
        counted = λ e. (a.next, rw e (rw (a.returns, allow_sequence)), a.tracks);
      }

  -- Whatever the configuration, the limiter that `New` makes has positive windows and a positive
  -- chain maximum and group burst; the aliases serve only where the fields they stand for are unset.
  new_defaults :
      (cfg : Config rt)
      → (0 < (Tiers.new rt cfg).chain_limiter.window)
        × (0 < (Tiers.new rt cfg).chain_limiter.max_events)
        × (0 < (Tiers.new rt cfg).sequence_limiter.window)
        × (not_positive (Tiers.new rt cfg).group_limiter.burst ≡ false)
  unfolding Tiers.new Window.new Buckets.new
  new_defaults cfg = (ground arith, ground arith, ground arith, ground arith)
