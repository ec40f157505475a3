-- ===== src/ControlGroup.antt =====
-- The control-plane groups of the beacon (config/controlgroup.go). Names of flags' values are data;
-- `other` stands for every string that is none of the accepted ones. shard.ParseScope and
-- shard.Prefix are parameters.
use retry_endpoint.Prelude.{
  ℕ, Bool, true, false, ◌||◌, not, Option, none, some, List, [], ◌∷◌, ◌++◌, ◌==◌, if◌then◌else◌,
}
pub mod Beacons
pub mod Resolves

pub data Compat : Type 0 where
  asm_only both derived other : Compat

pub data ScopeName : Type 0 where
  link site org global other : ScopeName

pub data BeaconScope : Type 0 where
  site org global both all other : BeaconScope

pub data PrefixError : Type 0 where
  unknown_scope invalid_compat no_ssm_group no_prefix invalid_beacon_scope : PrefixError

pub data Prefixes : Type 0 where
  error : PrefixError → Prefixes
  ok : List ℕ → Prefixes

-- The table `Scopes`.
unfoldable pub asm_prefix : ScopeName → Option ℕ
asm_prefix ScopeName.link = some 0xFF02
asm_prefix ScopeName.site = some 0xFF05
asm_prefix ScopeName.org = some 0xFF08
asm_prefix ScopeName.global = some 0xFF0E
asm_prefix ScopeName.other = none

-- The end of `ControlGroupPrefixes`.
unfoldable pub both_prefixes : ℕ → ℕ → List ℕ
both_prefixes asm d = if d == asm then d ∷ [] else asm ∷ d ∷ []

-- package shard: whether ParseScope accepts a scope's name, and Prefix(SourceModeSSM, …) of it.
pub record Shard : Type 0 where
  pub parse_scope : ScopeName → Bool
  pub ssm_prefix : ScopeName → Option ℕ

module _ (shard : Shard) (ssm : Bool) where
  unfoldable pub ssm_derived : Compat → ℕ → Option ℕ → Prefixes
  ssm_derived c asm none = Prefixes.error no_prefix
  ssm_derived Compat.derived asm (some p) = Prefixes.ok (p ∷ [])
  ssm_derived c asm (some p) = Prefixes.ok (both_prefixes asm p)

  -- The modes `derived` and `both`, by the result of ParseScope under SSM.
  unfoldable pub derived_prefixes : Compat → ScopeName → ℕ → Prefixes
  derived_prefixes Compat.derived name asm =
      if not ssm
      then Prefixes.ok (asm ∷ [])
      else if shard.parse_scope name
      then ssm_derived derived asm (shard.ssm_prefix name)
      else Prefixes.error no_ssm_group
  derived_prefixes c name asm =
      if not ssm
      then Prefixes.ok (both_prefixes asm asm)
      else if shard.parse_scope name
      then ssm_derived c asm (shard.ssm_prefix name)
      else Prefixes.ok (both_prefixes asm asm)

  unfoldable pub scope_prefixes : Compat → ScopeName → Option ℕ → Prefixes
  scope_prefixes c name none = Prefixes.error unknown_scope
  scope_prefixes Compat.asm_only name (some asm) = Prefixes.ok (asm ∷ [])
  scope_prefixes Compat.other name (some asm) = Prefixes.error invalid_compat
  scope_prefixes c name (some asm) = derived_prefixes c name asm

  -- `ControlGroupPrefixes`
  unfoldable pub control_group_prefixes : Compat → ScopeName → Prefixes
  control_group_prefixes c name = scope_prefixes c name (asm_prefix name)

-- `beaconScopeNames`
unfoldable pub beacon_scope_names : BeaconScope → Option (List ScopeName)
beacon_scope_names BeaconScope.site = some (ScopeName.site ∷ [])
beacon_scope_names BeaconScope.org = some (ScopeName.org ∷ [])
beacon_scope_names BeaconScope.global = some (ScopeName.global ∷ [])
beacon_scope_names BeaconScope.both = some (ScopeName.site ∷ ScopeName.org ∷ ScopeName.global ∷ [])
beacon_scope_names BeaconScope.all = some (ScopeName.site ∷ ScopeName.org ∷ ScopeName.global ∷ [])
beacon_scope_names BeaconScope.other = none

-- Whether `seen` holds a prefix: it holds those in `out`.
unfoldable pub has : ℕ → List ℕ → Bool
has p [] = false
has p (q ∷ qs) = p == q || has p qs

unfoldable pub add_new : List ℕ → ℕ → List ℕ
add_new out p = if has p out then out else out ++ (p ∷ [])

-- The inner loop of `BeaconGroupPrefixes`.
unfoldable pub add_all : List ℕ → List ℕ → List ℕ
add_all out [] = out
add_all out (p ∷ ps) = add_all (add_new out p) ps

module _ (shard : Shard) (ssm : Bool) (c : Compat) where
  -- `if err != nil { return nil, err }`, and the inner loop.
  unfoldable pub collect_next : Prefixes → (List ℕ → Prefixes) → List ℕ → Prefixes
  collect_next (Prefixes.error e) rest out = Prefixes.error e
  collect_next (Prefixes.ok ps) rest out = rest (add_all out ps)

  -- The outer loop.
  unfoldable pub collect : List ScopeName → List ℕ → Prefixes
  collect [] out = Prefixes.ok out
  collect (name ∷ names) out =
      collect_next (control_group_prefixes shard ssm c name) (collect names) out

  unfoldable pub named_prefixes : Option (List ScopeName) → Prefixes
  named_prefixes none = Prefixes.error invalid_beacon_scope
  named_prefixes (some names) = collect names []

  -- `BeaconGroupPrefixes`
  unfoldable pub beacon_group_prefixes : BeaconScope → Prefixes
  beacon_group_prefixes scope = named_prefixes (beacon_scope_names scope)
