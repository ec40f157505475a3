-- ===== src/Config/Result.antt =====
-- The results of `Load` (config/config.go): an error value where the source returns one. What an
-- error message quotes is left out.
use retry_endpoint.Prelude.{◌≡◌, subst, Bool, true, false, Option, none, some, refl}

pub data LoadError : Type 0 where
  shard_bits_range beef_bits_range : LoadError
  unknown_scope no_ssm_scope no_ssm_prefix invalid_source_mode : LoadError
  refresh_not_positive invalid_bind_source no_ssm_sources too_many_publishers : LoadError
  invalid_group_id : LoadError
  invalid_tee tee_not_loopback tee_without_port no_feed : LoadError
  unknown_backend no_redis_addr no_aerospike_hosts ttl_not_positive : LoadError
  queue_depth_not_positive procs_not_positive : LoadError
  egress_not_found no_egress : LoadError
  no_upstreams invalid_upstream proxy_timeout_not_positive : LoadError
  max_endpoints_negative proxy_queue_not_positive : LoadError
  invalid_beacon_scope invalid_compat no_beacon_group : LoadError
  tier_range preference_range interval_too_short invalid_nack_addr : LoadError

pub data Result {ℓ} (A : Type ℓ) : Type ℓ where
  error : LoadError → Result A
  ok : A → Result A

module _ {ℓ κ} {A : Type ℓ} {B : Type κ} where
  infixl 5 ◌>>=◌ ◌>>◌
  -- A part of `Load`, and the rest of it, which an error keeps from running.
  abbrev pub ◌>>=◌ : Result A → (A → Result B) → Result B
  error why >>= rest = error why
  ok part >>= rest = rest part

  abbrev pub ◌>>◌ : Result A → Result B → Result B
  part >> rest = part >>= λ done. rest

-- `if !passed { return nil, why }`
abbrev pub check : Bool → LoadError → Result (Unit {0})
check false why = error why
check true why = ok tt

-- `if err != nil { return nil, why }`
abbrev pub or_error {ℓ} : {A : Type ℓ} → Option A → LoadError → Result A
or_error none why = error why
or_error (some part) why = ok part

pub or_error_ok {ℓ} :
    {A : Type ℓ} (o : Option A) (why : LoadError) {part : A}
    → or_error o why ≡ ok part
    → o ≡ some part
or_error_ok none why h = absurd (cc h)
or_error_ok (some part) why h = cc h

-- A part that passed, with the rest that led to a value.
pub record Passed {ℓ κ} {A : Type ℓ} {B : Type κ} (m : Result A) (f : A → Result B) (b : B)
    : Type (ℓ ⊔ κ) where
  pub part : A
  pub was : m ≡ ok part
  pub rest : f part ≡ ok b

pub passed {ℓ κ} :
    {A : Type ℓ} {B : Type κ} (m : Result A) (f : A → Result B) {b : B}
    → (m >>= f) ≡ ok b
    → Passed m f b
passed (error why) f h = absurd (cc h)
passed (ok part) f h = record { part = part; was = refl; rest = h }

-- What a result's value satisfies, if there is one.
abbrev pub Ensures {ℓ κ} : {A : Type ℓ} → (A → Type κ) → Result A → Type κ
Ensures P (ok a) = P a
Ensures P (error e) = Unit

pub ensured {ℓ κ} :
    {A : Type ℓ} {P : A → Type κ} (m : Result A) → ((a : A) → m ≡ ok a → P a) → Ensures P m
ensured (ok a) h = h a refl
ensured (error e) h = tt

pub Ensures-ok {ℓ κ} :
    {A : Type ℓ} (P : A → Type κ) (m : Result A) {a : A} → Ensures P m → m ≡ ok a → P a
Ensures-ok P (ok b) {a} h e = let f : b ≡ a = cc e in subst P f h
Ensures-ok P (error e) h f = absurd (cc f)

pub Ensures->>= {ℓ κ μ ν} :
    {A : Type ℓ} {B : Type κ} (P : B → Type μ) (Q : A → Type ν) (m : Result A) (f : A → Result B)
    → Ensures Q m
    → ((a : A) → Q a → Ensures P (f a))
    → Ensures P (m >>= f)
Ensures->>= P Q (ok a) f h k = k a h
Ensures->>= P Q (error e) f h k = tt

pub Ensures-check {ℓ κ} :
    {A : Type ℓ} (P : A → Type κ) (b : Bool) (e : LoadError) (m : Result A)
    → (b ≡ true → Ensures P m)
    → Ensures P (check b e >> m)
Ensures-check P true e m h = h refl
Ensures-check P false e m h = tt
