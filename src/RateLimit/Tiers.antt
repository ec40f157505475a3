-- ===== src/RateLimit/Tiers.antt =====
-- `Limiter` (ratelimit/ratelimit.go): the four tiers, their keys, and the order in which they are
-- asked. An address is its bytes; `net.IP.String` and `netip.Addr.As16` are parameters, as are the
-- token buckets. A tier that refuses is named by its level; `none` in its place is the result
-- (true, ""). Each window reads the clock itself, so a call is given every reading it makes.
use retry_endpoint.Prelude.{
  ℕ, zero, suc, Bool, true, false, ◌&&◌, not, Option, none, some, List, [], ◌∷◌, ◌==◌,
  if◌then◌else◌, ℕ_discrete,
}
use retry_endpoint.Prelude.Int.{ℤ, pos, not_positive, to_ℕ}
use retry_endpoint.RateLimit.Buckets
use retry_endpoint.RateLimit.Buckets.{Floats, Rates}
use retry_endpoint.RateLimit.Window
pub mod Order

pub data Level : Type 0 where
  ip chain sequence group : Level

abbrev pub IpBytes : Type 0
IpBytes = List ℕ

pub record SeqKey : Type 0 where
  pub hash_key : ℕ
  pub seq_num : ℕ

pub record ChainKey : Type 0 where
  pub ip_key : IpBytes
  pub hash_key : ℕ

pub record GroupKey : Type 0 where
  pub ip_key : IpBytes
  pub group_idx : ℕ

abbrev pub IpBytes-discrete : Discrete IpBytes
IpBytes-discrete = hlevel ℕ_discrete

abbrev pub SeqKey-discrete : Discrete SeqKey
SeqKey-discrete = hlevel ℕ_discrete

abbrev pub ChainKey-discrete : Discrete ChainKey
ChainKey-discrete = hlevel ℕ_discrete

abbrev pub GroupKey-discrete : Discrete GroupKey
GroupKey-discrete = hlevel ℕ_discrete

-- `maxWindowKeys`
abbrev pub max_window_keys : ℕ
max_window_keys = 100000

-- `time.Minute`, in nanoseconds.
abbrev pub minute : ℤ
minute = pos 60000000000

-- What the package calls of net, netip, append, and x/time/rate.
pub record Runtime : Type 1 where
  pub floats : Floats
  pub rates : Rates floats
  pub ip_string : IpBytes → IpBytes
  pub as16 : IpBytes → IpBytes
  pub grow : ℕ → ℕ → ℕ

module _ (rt : Runtime) where
  pub record Config : Type 0 where
    pub ip_rate : rt.floats.Float
    pub ip_burst : ℤ
    pub sender_rate : rt.floats.Float
    pub sender_window : ℤ
    pub chain_rate : rt.floats.Float
    pub chain_window : ℤ
    pub sequence_max : ℤ
    pub sequence_window : ℤ
    pub group_rate : rt.floats.Float
    pub group_burst : ℤ

  pub record Limiter : Type 0 where
    pub ip_limiter : Buckets.Limiter rt.rates IpBytes
    pub chain_limiter : Window.Limiter ChainKey
    pub sequence_limiter : Window.Limiter SeqKey
    pub group_limiter : Buckets.Limiter rt.rates GroupKey

  -- The defaults that `New` gives, one field at a time, in its order.
  unfoldable pub default_sequence_window : Config → ℤ
  default_sequence_window cfg =
      if not_positive cfg.sequence_window then minute else cfg.sequence_window

  unfoldable pub default_chain_rate : Config → rt.floats.Float
  default_chain_rate cfg =
      if rt.floats.is_zero cfg.chain_rate && not (rt.floats.is_zero cfg.sender_rate)
      then cfg.sender_rate
      else cfg.chain_rate

  unfoldable pub default_chain_window : Config → ℤ
  default_chain_window cfg =
      let w =
        (if not_positive cfg.chain_window && not (not_positive cfg.sender_window)
          then cfg.sender_window
          else cfg.chain_window) in
      if not_positive w then minute else w

  unfoldable pub default_chain_max : Config → ℤ
  unfolding default_chain_rate
  default_chain_max cfg =
      let n = rt.floats.to_int (default_chain_rate cfg) in if not_positive n then pos 500 else n

  unfoldable pub default_group_rate : Config → rt.floats.Float
  default_group_rate cfg =
      if rt.floats.at_most_zero cfg.group_rate then rt.floats.from_ℕ 200 else cfg.group_rate

  unfoldable pub default_group_burst : Config → ℤ
  default_group_burst cfg = if not_positive cfg.group_burst then pos 50 else cfg.group_burst

  -- `New`. A window limiter refuses everything at a negative `max` as it does at 0.
  unfoldable pub new : Config → Limiter
  unfolding default_sequence_window default_chain_window default_chain_max default_group_rate
      default_group_burst
  new cfg = record {
    ip_limiter = Buckets.new rt.rates cfg.ip_rate cfg.ip_burst;
    chain_limiter =
        Window.new (to_ℕ (default_chain_max cfg)) (to_ℕ (default_chain_window cfg)) max_window_keys;
    sequence_limiter =
        Window.new (to_ℕ cfg.sequence_max) (to_ℕ (default_sequence_window cfg)) max_window_keys;
    group_limiter = Buckets.new rt.rates (default_group_rate cfg) (default_group_burst cfg);
  }

  -- The second half of `Allow`: the sequence tier, scoped to the flow.
  unfoldable pub allow_sequence : Limiter → ℕ → ℕ → ℕ → Option (Option Level × Limiter)
  allow_sequence r hash_key start_seq mono =
      elim (Window.allow SeqKey-discrete rt.grow r.sequence_limiter
        (record { hash_key = hash_key; seq_num = start_seq }) mono) [
          | none ↦ none
          | some (ok, s) ↦
              some (if ok then none else some sequence, record r { sequence_limiter = s })
        ]

  -- `Allow`, with the readings `wall` of the bucket's clock and `mono` of the window's.
  unfoldable pub allow : Limiter → IpBytes → ℕ → ℕ → ℕ → ℕ → Option (Option Level × Limiter)
  unfolding allow_sequence
  allow r src_ip hash_key start_seq wall mono =
      let (ok, b) =
        Buckets.allow rt.rates IpBytes-discrete r.ip_limiter (rt.ip_string src_ip) wall in
      let r' = record r { ip_limiter = b } in
      if ok then allow_sequence r' hash_key start_seq mono else some (some ip, r')

  -- `AllowChain`
  unfoldable pub allow_chain : Limiter → IpBytes → ℕ → ℕ → Option (Bool × Limiter)
  allow_chain r src_ip hash_key mono =
      if hash_key == 0
      then some (true, r)
      else elim (Window.allow ChainKey-discrete rt.grow r.chain_limiter
          (record { ip_key = rt.as16 src_ip; hash_key = hash_key }) mono) [
            | none ↦ none
            | some (ok, c) ↦ some (ok, record r { chain_limiter = c })
          ]

  -- `AllowGroup`
  unfoldable pub allow_group : Limiter → IpBytes → ℕ → ℕ → Bool × Limiter
  allow_group r src_ip group_idx wall =
      let (ok, b) =
        Buckets.allow rt.rates GroupKey-discrete r.group_limiter
          (record { ip_key = rt.as16 src_ip; group_idx = group_idx }) wall in
      (ok, record r { group_limiter = b })
