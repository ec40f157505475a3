-- ===== src/Config/BeaconPart.antt =====
-- The beacon's part of the configuration that `Load` (config/config.go) accepts.
use retry_endpoint.Beacon.{legacy_asm_prefixes, scope_prefix}
use retry_endpoint.Config.Checks.{is_nack_addr, is_ok, parse_beacon_scope, parse_compat}
use retry_endpoint.Config.Declared.{seconds}
use retry_endpoint.Config.Flags.{Platform, BeaconFlags}
use retry_endpoint.Config.Load.{check_beacon, nack_addr_valid}
use retry_endpoint.Config.Parts.{BeaconConfig}
use retry_endpoint.Config.Result.{ok, or_error, passed, or_error_ok}
use retry_endpoint.Config.Text.{Text, is_empty, to_lower, trim}
use retry_endpoint.ControlGroup.{
  Compat, BeaconScope, ScopeName, beacon_group_prefixes, beacon_scope_names, asm_prefix,
}
use retry_endpoint.Prelude.{
  ℕ, ◌≤◌, ◌≡◌, ◌≢◌, Bool, true, ◌||◌, Option, none, some, List, [], map, arith,
}
use retry_endpoint.Prelude.Int.{to_ℕ}
use retry_endpoint.RateLimit.Tiers.{Runtime}

-- The table entries of the names that a beacon scope covers.
abbrev pub any_source : Option (List ScopeName) → List (Option ℕ)
any_source none = []
any_source (some names) = map asm_prefix names

-- The scope byte and the scope's names stand for the same any-source prefixes.
abbrev pub Agrees : BeaconScope → ℕ → Type 0
Agrees scope byte =
    (scope ≢ BeaconScope.other)
    × (any_source (beacon_scope_names scope) ≡ map some (legacy_asm_prefixes byte))

parse_beacon_scope-Agrees :
    (s : Text) {scope : BeaconScope} {byte : ℕ}
    → parse_beacon_scope s ≡ some (scope, byte)
    → Agrees scope byte
unfolding parse_beacon_scope beacon_scope_names legacy_asm_prefixes scope_prefix asm_prefix
parse_beacon_scope-Agrees s h = ground arith

parse_compat-known : (s : Text) {c : Compat} → parse_compat s ≡ some c → c ≢ Compat.other
unfolding parse_compat
parse_compat-known s h = ground arith

module _ {rt : Runtime} (os : Platform rt) where
  pub record ValidBeacon (ssm : Bool) (c : BeaconConfig) : Type 0 where
    pub tier : c.tier ≤ 254
    pub preference : c.preference ≤ 255
    pub interval : seconds 1 ≤ to_ℕ c.interval
    pub scoped : Agrees c.scope c.scope_byte
    pub mode : c.compat ≢ Compat.other
    pub resolved :
        c.enabled ≡ true → is_ok (beacon_group_prefixes os.shard ssm c.compat c.scope) ≡ true
    pub nack_addr : (is_empty c.nack_addr || is_nack_addr (os.parse_ip c.nack_addr)) ≡ true

  pub check_beacon-Valid :
      (f : BeaconFlags) (ssm : Bool) {c : BeaconConfig}
      → check_beacon os f ssm ≡ ok c
      → ValidBeacon ssm c
  unfolding check_beacon nack_addr_valid
  check_beacon-Valid f ssm h =
      let first = passed (or_error (parse_beacon_scope f.scope) _) _ h in
      let second = passed (or_error (parse_compat (to_lower (trim f.compat))) _) _ first.rest in
      let scoped : Agrees first.part.0 first.part.1 =
        parse_beacon_scope-Agrees f.scope (or_error_ok _ _ first.was) in
      let mode : second.part ≢ Compat.other = parse_compat-known _ (or_error_ok _ _ second.was) in
      ground (arith, scoped, mode, second.rest)
