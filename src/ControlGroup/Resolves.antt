-- ===== src/ControlGroup/Resolves.antt =====
-- The prefixes in the compatibility mode `both` (config/controlgroup.go).
use retry_endpoint.ControlGroup.{
  Shard, Compat, ScopeName, BeaconScope, Prefixes, ssm_derived, derived_prefixes, scope_prefixes,
  control_group_prefixes, asm_prefix, beacon_scope_names, collect, collect_next, add_all,
  named_prefixes, beacon_group_prefixes, both_prefixes,
}
use retry_endpoint.Prelude.{
  ℕ, ◌≡◌, ◌≢◌, refl, Bool, true, false, not, some, List, [], ◌∷◌, if◌then◌else◌, All,
}

-- A result with prefixes.
abbrev pub Resolved : Prefixes → Type 0
Resolved r = (ps : List ℕ) × (r ≡ Prefixes.ok ps)

-- shard.Prefix succeeds at every scope that shard.ParseScope accepts.
abbrev pub HasPrefixes : Shard → Type 0
HasPrefixes shard =
    (name : ScopeName) → shard.parse_scope name ≡ true → (p : ℕ) × (shard.ssm_prefix name ≡ some p)

module _ (shard : Shard) (ssm : Bool) (has : HasPrefixes shard) where
  both-Resolved :
      (name : ScopeName) (asm : ℕ) → Resolved (derived_prefixes shard ssm Compat.both name asm)
  unfolding derived_prefixes ssm_derived
  both-Resolved name asm = go ssm (shard.parse_scope name) refl
    where
      go :
          (s b : Bool)
          → shard.parse_scope name ≡ b
          → Resolved (
              if not s
              then Prefixes.ok (both_prefixes asm asm)
              else if b
              then ssm_derived shard ssm Compat.both asm (shard.ssm_prefix name)
              else Prefixes.ok (both_prefixes asm asm))
      go false b e = (_, refl)
      go true false e = (_, refl)
      go true true e = let (p, q) = has name e in (both_prefixes asm p, rw q refl)

  scope-Resolved :
      (name : ScopeName)
      → name ≢ ScopeName.other
      → Resolved (control_group_prefixes shard ssm Compat.both name)
  unfolding control_group_prefixes scope_prefixes asm_prefix
  scope-Resolved ScopeName.link n = both-Resolved _ _
  scope-Resolved ScopeName.site n = both-Resolved _ _
  scope-Resolved ScopeName.org n = both-Resolved _ _
  scope-Resolved ScopeName.global n = both-Resolved _ _
  scope-Resolved ScopeName.other n = absurd (n refl)

  collect-Resolved :
      (names : List ScopeName) (out : List ℕ)
      → All (λ name. name ≢ ScopeName.other) names
      → Resolved (collect shard ssm Compat.both names out)
  unfolding collect collect_next
  collect-Resolved [] out ns = (out, refl)
  collect-Resolved (name ∷ names) out ns =
      let (ps, e) = scope-Resolved name ns.0 in
      let (qs, f) = collect-Resolved names (add_all out ps) ns.1 in (qs, rw e f)

  -- In the mode `both`, the prefixes of every valid beacon scope resolve, under any source mode,
  -- where shard.Prefix succeeds at the scopes that shard.ParseScope accepts.
  pub both_resolves :
      (scope : BeaconScope)
      → scope ≢ BeaconScope.other
      → Resolved (beacon_group_prefixes shard ssm Compat.both scope)
  unfolding beacon_group_prefixes named_prefixes beacon_scope_names
  both_resolves BeaconScope.site n = collect-Resolved _ _ (λ e. absurd (cc e), tt)
  both_resolves BeaconScope.org n = collect-Resolved _ _ (λ e. absurd (cc e), tt)
  both_resolves BeaconScope.global n = collect-Resolved _ _ (λ e. absurd (cc e), tt)
  both_resolves BeaconScope.both n =
      collect-Resolved _ _ (λ e. absurd (cc e), (λ e. absurd (cc e), (λ e. absurd (cc e), tt)))
  both_resolves BeaconScope.all n =
      collect-Resolved _ _ (λ e. absurd (cc e), (λ e. absurd (cc e), (λ e. absurd (cc e), tt)))
  both_resolves BeaconScope.other n = absurd (n refl)
