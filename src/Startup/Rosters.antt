-- ===== src/Startup/Rosters.antt =====
-- What the source lists under SSM hold (main.go, `buildSSMGroupSources`).
use mathlib.Core.Option.{some-injective}
use retry_endpoint.Config.Address.{has_to16}
use retry_endpoint.Config.Parts.{Config}
use retry_endpoint.Config.Text.{Text}
use retry_endpoint.Prelude.{
  ℕ, zero, suc, ◌^◌, ◌≡◌, ◌≢◌, subst, some, List, [], ◌∷◌, ◌==◌, ite, length, if-both, All,
}
use retry_endpoint.Prelude.Assoc.{insert, lookup}
use retry_endpoint.Prelude.Bytes.{Bytes}
use retry_endpoint.RateLimit.Tiers.{Runtime, IpBytes-discrete}
use retry_endpoint.Startup.Sources.{
  Addr, GroupSources, Sources, Discovery, without, exclude_own_source, then_sources, assign,
  own_source, group, resolve_groups, resolve, assign_band, assign_publishers, publishers,
  build_ssm_group_sources,
}

-- No list holds the address.
abbrev pub Free : Addr → List Addr → Type 0
Free own srcs = All (λ s. s ≢ own) srcs

abbrev pub AllFree : Addr → GroupSources → Type 0
AllFree own gs = All (λ e. Free own e.1) gs

abbrev OkFree : Addr → Sources → Type 0
OkFree own (Sources.error e) = Unit
OkFree own (Sources.ok gs) = AllFree own gs

without-Free : (own : Addr) (srcs : List Addr) → Free own (without own srcs)
unfolding without
without-Free own [] = tt
without-Free own (s ∷ srcs) = go (IpBytes-discrete s own) (without-Free own srcs)
  where
    go :
        (t : Dec (s ≡ own))
        → Free own (without own srcs)
        → Free own (ite t (without own srcs) (s ∷ without own srcs))
    go (yes e) h = h
    go (no n) h = (n, h)

assign-AllFree :
    (own ga : Addr) (srcs : List Addr) (gs : GroupSources)
    → Free own srcs
    → AllFree own gs
    → AllFree own (assign ga srcs gs)
unfolding insert
assign-AllFree own ga srcs [] f h = (f, tt)
assign-AllFree own ga srcs ((k, v) ∷ gs) f h =
    go (IpBytes-discrete k ga) (assign-AllFree own ga srcs gs f h.1)
  where
    go :
        (t : Dec (k ≡ ga))
        → AllFree own (assign ga srcs gs)
        → AllFree own (ite t ((k, srcs) ∷ gs) ((k, v) ∷ assign ga srcs gs))
    go (yes e) m = (f, h.1)
    go (no n) m = (h.0, m)

lookup-AllFree :
    (own ga : Addr) (gs : GroupSources) (srcs : List Addr)
    → AllFree own gs
    → lookup IpBytes-discrete ga gs ≡ some srcs
    → Free own srcs
unfolding lookup
lookup-AllFree own ga [] srcs h e = absurd (cc e)
lookup-AllFree own ga ((k, v) ∷ gs) srcs h e =
    go (IpBytes-discrete k ga) (lookup-AllFree own ga gs srcs h.1) e
  where
    go :
        (t : Dec (k ≡ ga))
        → (lookup IpBytes-discrete ga gs ≡ some srcs → Free own srcs)
        → ite t (some v) (lookup IpBytes-discrete ga gs) ≡ some srcs
        → Free own srcs
    go (yes p) m f = subst (Free own) (some-injective _ _ f) h.0
    go (no n) m f = m f

then-OkFree :
    (own : Addr) (r : Sources) (k : GroupSources → Sources)
    → OkFree own r
    → ((gs : GroupSources) → AllFree own gs → OkFree own (k gs))
    → OkFree own (then_sources r k)
then-OkFree own (Sources.error e) k h m = tt
then-OkFree own (Sources.ok gs) k h m = m gs h

module _ {rt : Runtime} (d : Discovery) (cfg : Config rt) (own : Addr)
    (known : own_source d cfg ≡ some own) where
  excluded-Free : (srcs : List Addr) → Free own (exclude_own_source srcs (own_source d cfg))
  unfolding exclude_own_source
  excluded-Free srcs = rw known (without-Free own srcs)

  resolve_groups-OkFree :
      (entries : List Text) (ips : List Bytes) (gs : GroupSources)
      → AllFree own gs
      → OkFree own (resolve_groups d cfg entries ips gs)
  unfolding resolve_groups
  resolve_groups-OkFree entries [] gs h = h
  resolve_groups-OkFree entries (ip ∷ ips) gs h =
      if-both (OkFree own) (has_to16 ip)
        (λ e.
          resolve_groups-OkFree entries ips _
            (assign-AllFree own ip _ gs (excluded-Free (d.current entries ip)) h))
        (λ e. tt)

  resolve-OkFree :
      (entries : List Text) (ips : List Bytes) (gs : GroupSources)
      → AllFree own gs
      → OkFree own (resolve d cfg entries ips gs)
  unfolding resolve
  resolve-OkFree entries ips gs h =
      if-both (OkFree own) (length entries == 0) (λ e. h)
        λ e.
          if-both (OkFree own) (d.starts entries) (λ f. resolve_groups-OkFree entries ips gs h)
            λ f. tt

  assign_band-AllFree :
      (n idx : ℕ) (srcs : List Addr) (gs : GroupSources)
      → Free own srcs
      → AllFree own gs
      → AllFree own (assign_band d cfg n idx srcs gs)
  unfolding assign_band
  assign_band-AllFree zero idx srcs gs f h = h
  assign_band-AllFree (suc n) idx srcs gs f h = assign_band-AllFree n (suc idx) srcs _ f (
      if-both (AllFree own) (has_to16 (group d cfg idx))
        (λ e. assign-AllFree own (group d cfg idx) srcs gs f h) (λ e. h))

  publishers-OkFree : (gs : GroupSources) → AllFree own gs → OkFree own (publishers d cfg gs)
  unfolding publishers assign_publishers
  publishers-OkFree gs h =
      if-both (OkFree own) (length cfg.ssm.publishers == 0) (λ e. h)
        λ e.
          if-both (OkFree own) (d.starts cfg.ssm.publishers)
            (λ f.
              if-both (AllFree own) cfg.ingress.beef_enabled
                (λ g. assign_band-AllFree (2 ^ cfg.bits.beef_bits) 0x1000 _ _ free shards)
                (λ g. shards))
            (λ f. tt)
    where
      free : Free own (exclude_own_source (d.current cfg.ssm.publishers []) (own_source d cfg))
      free = excluded-Free (d.current cfg.ssm.publishers [])

      shards : AllFree own (
          assign_band d cfg cfg.bits.num_groups 0
            (exclude_own_source (d.current cfg.ssm.publishers []) (own_source d cfg))
            gs)
      shards = assign_band-AllFree cfg.bits.num_groups 0 _ gs free h

  built-OkFree : OkFree own (build_ssm_group_sources d cfg)
  unfolding build_ssm_group_sources
  built-OkFree = then-OkFree own _ _ (resolve-OkFree cfg.ssm.beacon _ [] tt) λ gs h.
      then-OkFree own _ _ (resolve-OkFree cfg.ssm.subtree_announce _ gs h) λ gs' h'.
        then-OkFree own _ _ (resolve-OkFree cfg.ssm.manifest _ gs' h')
          λ gs'' h''. publishers-OkFree gs'' h''

  -- Where BindSource gives an address, no group's source list that is built under SSM holds it.
  pub build-Free :
      (gs : GroupSources) (ga : Addr) (srcs : List Addr)
      → build_ssm_group_sources d cfg ≡ Sources.ok gs
      → lookup IpBytes-discrete ga gs ≡ some srcs
      → Free own srcs
  build-Free gs ga srcs e f = lookup-AllFree own ga gs srcs (subst (OkFree own) e built-OkFree) f
