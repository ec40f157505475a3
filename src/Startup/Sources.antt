-- ===== src/Startup/Sources.antt =====
-- The source lists of the groups under SSM (main.go, `excludeOwnSource` and
-- `buildSSMGroupSources`). The resolver of shard-common and shard.GroupAddr are parameters.
use retry_endpoint.Config.Address.{has_to16}
use retry_endpoint.Config.Parts.{Config}
use retry_endpoint.Config.Text.{Text, is_empty}
use retry_endpoint.Prelude.{
  ℕ, zero, suc, ◌^◌, Bool, Option, none, some, List, [], ◌∷◌, ◌==◌, ite, length, if◌then◌else◌,
}
use retry_endpoint.Prelude.Assoc.{insert}
use retry_endpoint.Prelude.Bytes.{Bytes}
use retry_endpoint.RateLimit.Tiers.{Runtime, IpBytes-discrete}

-- netip.Addr's values.
abbrev pub Addr : Type 0
Addr = Bytes

-- `ingress.GroupSources`
abbrev pub GroupSources : Type 0
GroupSources = List (Addr × List Addr)

pub data SourcesError : Type 0 where
  not_resolved not_ipv6 : SourcesError

pub data Sources : Type 0 where
  error : SourcesError → Sources
  ok : GroupSources → Sources

-- Packages bootstrap, shard and netip. `current` is what Current returns for the entries when it is
-- called for a group, since the resolver refreshes in the background.
pub record Discovery : Type 0 where
  pub starts : List Text → Bool
  pub current : List Text → Addr → List Addr
  pub parse_addr : Text → Option Addr
  pub group_addr : ℕ → ℕ → ℕ → Bytes
  pub group_beacon : ℕ
  pub group_subtree_data : ℕ
  pub group_subtree_group : ℕ
  pub group_block : ℕ

-- The loop of `excludeOwnSource`.
unfoldable pub without : Addr → List Addr → List Addr
without own [] = []
without own (s ∷ srcs) = let rest = without own srcs in ite (IpBytes-discrete s own) rest (s ∷ rest)

-- `excludeOwnSource`; `none` is the zero Addr.
unfoldable pub exclude_own_source : List Addr → Option Addr → List Addr
exclude_own_source srcs none = srcs
exclude_own_source srcs (some own) = without own srcs

-- `if err != nil { return nil, err }`
abbrev pub then_sources : Sources → (GroupSources → Sources) → Sources
then_sources (Sources.error e) k = Sources.error e
then_sources (Sources.ok gs) k = k gs

abbrev pub assign : Addr → List Addr → GroupSources → GroupSources
assign ga srcs gs = insert IpBytes-discrete ga srcs gs

module _ {rt : Runtime} (d : Discovery) (cfg : Config rt) where
  -- This node's own source, from BindSource.
  unfoldable pub own_source : Option Addr
  own_source = if is_empty cfg.ssm.bind_source then none else d.parse_addr cfg.ssm.bind_source

  unfoldable pub group : ℕ → Bytes
  group idx = d.group_addr cfg.ssm.mc_prefix cfg.group_id idx

  -- The loop of `resolve` over the addresses of the groups.
  unfoldable pub resolve_groups : List Text → List Bytes → GroupSources → Sources
  resolve_groups entries [] gs = Sources.ok gs
  resolve_groups entries (ip ∷ ips) gs =
      let rest =
        resolve_groups entries ips
          (assign ip (exclude_own_source (d.current entries ip) own_source) gs) in
      if has_to16 ip then rest else Sources.error not_ipv6

  -- `resolve`
  unfoldable pub resolve : List Text → List Bytes → GroupSources → Sources
  resolve entries ips gs =
      if length entries == 0
      then Sources.ok gs
      else if d.starts entries
      then resolve_groups entries ips gs
      else Sources.error not_resolved

  -- The loop over `n` groups from an index on.
  unfoldable pub assign_band : ℕ → ℕ → List Addr → GroupSources → GroupSources
  assign_band zero idx srcs gs = gs
  assign_band (suc n) idx srcs gs =
      let ip = group idx in
      let next = (if has_to16 ip then assign ip srcs gs else gs) in
      assign_band n (suc idx) srcs next

  -- The static publishers, for the groups of the shards and of the BEEF plane.
  unfoldable pub assign_publishers : List Addr → GroupSources → GroupSources
  assign_publishers srcs gs =
      let shards = assign_band cfg.bits.num_groups 0 srcs gs in
      if cfg.ingress.beef_enabled
      then assign_band (2 ^ cfg.bits.beef_bits) 0x1000 srcs shards
      else shards

  unfoldable pub publishers : GroupSources → Sources
  publishers gs =
      if length cfg.ssm.publishers == 0
      then Sources.ok gs
      else if d.starts cfg.ssm.publishers
      then Sources.ok
          (assign_publishers (exclude_own_source (d.current cfg.ssm.publishers []) own_source) gs)
      else Sources.error not_resolved

  -- `buildSSMGroupSources`
  unfoldable pub build_ssm_group_sources : Sources
  build_ssm_group_sources =
      then_sources (resolve cfg.ssm.beacon (group d.group_beacon ∷ []) []) λ gs.
        then_sources
          (resolve cfg.ssm.subtree_announce
            (group d.group_subtree_data ∷ group d.group_subtree_group ∷ []) gs)
          λ gs'.
            then_sources (resolve cfg.ssm.manifest (group d.group_block ∷ []) gs')
              λ gs''. publishers gs''
