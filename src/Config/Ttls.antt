-- ===== src/Config/Ttls.antt =====
-- The lifetimes per frame class (config/config.go, `resolveCacheTTLs` and its call in `Load`).
use Prim.Native.String.{String}
use retry_endpoint.Config.Flags.{Platform}
use retry_endpoint.Config.Text.{is_empty}
use retry_endpoint.Prelude.{Bool, true, false, ◌||◌, not, Option, none, some, if◌then◌else◌}
use retry_endpoint.Prelude.Int.{ℤ}
use retry_endpoint.Proxy.{Ttls}
use retry_endpoint.RateLimit.Tiers.{Runtime}

-- `resolveCacheTTLs`, from CacheTTL and which of the knobs are explicit.
unfoldable pub resolve_cache_ttls : ℤ → Bool → Bool → Bool → Bool → Bool → Ttls → Ttls
resolve_cache_ttls ttl ttl_set tx_set block_set subtree_set anchor_set c =
    if not ttl_set then c else record c {
      tx = if not tx_set then ttl else c.tx;
      block = if not block_set then ttl else c.block;
      subtree = if not subtree_set then ttl else c.subtree;
      anchor = if not anchor_set then ttl else c.anchor;
    }

abbrev pub is_set : {A : Type 0} → Option A → Bool
is_set none = false
is_set (some a) = true

module _ {rt : Runtime} (os : Platform rt) where
  -- A variable that is not empty, or a flag that flag.Visit meets.
  unfoldable pub is_explicit : String → String → Bool
  is_explicit name key = not (is_empty (os.getenv key)) || is_set (os.duration_flag name)

  unfoldable pub resolved_ttls : ℤ → Ttls → Ttls
  resolved_ttls ttl c =
      resolve_cache_ttls ttl (is_explicit "cache-ttl" "CACHE_TTL")
        (is_explicit "cache-ttl-tx" "CACHE_TTL_TX")
        (is_explicit "cache-ttl-block" "CACHE_TTL_BLOCK")
        (is_explicit "cache-ttl-subtree" "CACHE_TTL_SUBTREE")
        (is_explicit "cache-ttl-anchor" "CACHE_TTL_ANCHOR") c
