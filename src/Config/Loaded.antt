-- ===== src/Config/Loaded.antt =====
-- The configuration that `Load` (config/config.go) returns.
use retry_endpoint.Config.Accepted.{
  ValidBits, ValidSsm, ValidIngress, ValidCache, ValidServer, ValidProxy, check_bits-Valid,
  check_ssm-Valid, check_ingress-Valid, check_cache-Valid, check_egress-Valid, check_proxy-Valid,
}
use retry_endpoint.Config.BeaconPart.{ValidBeacon, check_beacon-Valid}
use retry_endpoint.Config.Checks.{check_bits, ttls_positive}
use retry_endpoint.Config.Declared.{flags}
use retry_endpoint.Config.Flags.{Platform, Flags}
use retry_endpoint.Config.Load.{
  check_ssm, check_tee, check_feed, check_cache, check_ingress, check_egress, check_proxy,
  check_beacon, load_flags, load,
}
use retry_endpoint.Config.Numbers.{parse_group_id-Range}
use retry_endpoint.Config.Parts.{Config}
use retry_endpoint.Config.Result.{
  LoadError, Result, ◌>>=◌, or_error, ok, or_error_ok, Ensures, ensured, Ensures-ok, Ensures->>=,
  Ensures-check,
}
use retry_endpoint.Config.Text.{parse_group_id}
use retry_endpoint.Config.Tee.{IsLocal, HasSizes, check_tee-Local}
use retry_endpoint.Config.Ttls.{resolved_ttls}
use retry_endpoint.Prelude.{◌≤◌, ◌<◌, ◌≡◌, refl, sym, subst, true, arith}
use retry_endpoint.Prelude.Int.{to_ℕ, not_positive→pos}
use retry_endpoint.Proxy.{Ttls}
use retry_endpoint.RateLimit.Tiers.{Runtime}

pub record Positive (t : Ttls) : Type 0 where
  pub tx : 0 < to_ℕ t.tx
  pub block : 0 < to_ℕ t.block
  pub subtree : 0 < to_ℕ t.subtree
  pub anchor : 0 < to_ℕ t.anchor
  pub beef : 0 < to_ℕ t.beef

ttls_positive-Positive : (t : Ttls) → ttls_positive t ≡ true → Positive t
unfolding ttls_positive
ttls_positive-Positive t h = ground (
  arith,
  not_positive→pos t.tx,
  not_positive→pos t.block,
  not_positive→pos t.subtree,
  not_positive→pos t.anchor,
  not_positive→pos t.beef,
)

-- A part whose value does not matter.
passes {ℓ κ μ} :
    {A : Type ℓ} {B : Type κ} (P : B → Type μ) (m : Result A) (f : A → Result B)
    → ((a : A) → Ensures P (f a))
    → Ensures P (m >>= f)
passes P m f k = Ensures->>= P (λ _. Unit {0}) m f (ensured m λ a e. tt) λ a _. k a

module _ {rt : Runtime} (os : Platform rt) where
  pub record IsValid (c : Config rt) : Type 0 where
    pub bits : ValidBits c.bits
    pub ssm : ValidSsm os c.ssm
    pub group_id : c.group_id ≤ 0xFFFF
    pub tee : IsLocal c.ingress.tee_listen
    pub ingress : ValidIngress os c.ingress
    pub cache : ValidCache os c.cache
    pub ttls : Positive c.ttls
    pub server : ValidServer os c.server
    pub proxy : ValidProxy os c.proxy
    pub beacon : ValidBeacon os c.ssm.ssm c.beacon

  accepted : (f : Flags rt) → HasSizes os → Ensures IsValid (load_flags os f)
  unfolding load_flags
  accepted f sizes =
      Ensures->>= IsValid ValidBits (check_bits f.ingress) _
        (ensured _ λ c e. check_bits-Valid f.ingress e)
        λ bits v1.
          Ensures->>= IsValid (ValidSsm os) (check_ssm os f.scope) _
            (ensured _ λ c e. check_ssm-Valid os f.scope e)
            λ ssm v2.
              Ensures->>= IsValid (λ n. n ≤ 0xFFFF)
                (or_error (parse_group_id f.scope.group_id) LoadError.invalid_group_id) _
                (ensured _ λ n e. parse_group_id-Range f.scope.group_id n (or_error_ok _ _ e))
                λ n v3.
                  Ensures->>= IsValid IsLocal (check_tee os f.ingress.tee_listen) _
                    (ensured _ λ c e. check_tee-Local os f.ingress.tee_listen sizes e)
                    λ tee v4.
                      Ensures->>= IsValid (λ _. check_feed os f.ingress.mc_join_enabled tee ≡ ok tt)
                        (check_feed os f.ingress.mc_join_enabled tee) _ (ensured _ λ c e. e)
                        λ u fed.
                          Ensures->>= IsValid (ValidCache os) (check_cache os f.cache) _
                            (ensured _ λ c e. check_cache-Valid os f.cache e)
                            λ cache v5.
                              Ensures-check IsValid
                                (ttls_positive (resolved_ttls os f.cache.ttl f.cache.ttls)) _ _
                                λ v6.
                                  Ensures->>= IsValid
                                    (λ c. ValidIngress os c × (c.tee_listen ≡ tee))
                                    (check_ingress os f.ingress tee) _
                                    (ensured _ λ c e. check_ingress-Valid os f.ingress tee fed e)
                                    λ ingress v7.
                                      Ensures->>= IsValid (ValidServer os)
                                        (check_egress os f.server) _
                                        (ensured _ λ c e. check_egress-Valid os f.server e)
                                        λ server v8.
                                          Ensures->>= IsValid (ValidProxy os)
                                            (check_proxy os f.proxy) _
                                            (ensured _ λ c e. check_proxy-Valid os f.proxy e)
                                            λ proxy v9.
                                              Ensures->>= IsValid (ValidBeacon os ssm.ssm)
                                                (check_beacon os f.beacon ssm.ssm) _
                                                (ensured _
                                                  λ c e. check_beacon-Valid os f.beacon ssm.ssm e)
                                                λ beacon v10.
                                                  let c : Config rt = record {
                                                    bits = bits;
                                                    ssm = ssm;
                                                    group_id = n;
                                                    ingress = ingress;
                                                    cache = cache;
                                                    ttls =
                                                        resolved_ttls os f.cache.ttl f.cache.ttls;
                                                    server = server;
                                                    proxy = proxy;
                                                    rates = f.rates;
                                                    beacon = beacon;
                                                    log = f.log;
                                                  } in
                                                  let done : IsValid c = record {
                                                    bits = v1;
                                                    ssm = v2;
                                                    group_id = v3;
                                                    tee = subst IsLocal (sym v7.1) v4;
                                                    ingress = v7.0;
                                                    cache = v5;
                                                    ttls = ttls_positive-Positive _ v6;
                                                    server = v8;
                                                    proxy = v9;
                                                    beacon = v10;
                                                  } in
                                                  done

  pub load_flags-ttls :
      (f : Flags rt) (c : Config rt)
      → load_flags os f ≡ ok c
      → c.ttls ≡ resolved_ttls os f.cache.ttl f.cache.ttls
  unfolding load_flags
  load_flags-ttls f c h =
      let Same : Config rt → Type 0 = λ c. c.ttls ≡ resolved_ttls os f.cache.ttl f.cache.ttls in
      Ensures-ok Same (load_flags os f)
        (passes Same (check_bits f.ingress) _ λ bits. passes Same (check_ssm os f.scope) _ λ ssm.
          passes Same (or_error (parse_group_id f.scope.group_id) LoadError.invalid_group_id) _ λ n.
            passes Same (check_tee os f.ingress.tee_listen) _ λ tee.
              passes Same (check_feed os f.ingress.mc_join_enabled tee) _ λ u.
                passes Same (check_cache os f.cache) _ λ cache.
                  Ensures-check Same (ttls_positive (resolved_ttls os f.cache.ttl f.cache.ttls)) _ _
                    λ v. passes Same (check_ingress os f.ingress tee) _ λ ingress.
                      passes Same (check_egress os f.server) _ λ server.
                        passes Same (check_proxy os f.proxy) _
                          λ proxy. passes Same (check_beacon os f.beacon ssm.ssm) _ λ beacon. refl)
        h

  -- A configuration that `Load` returns is valid in every part: the widths, the number of groups, the
  -- positive lifetimes, a feed, the fields that the backend and the proxy need, and a beacon whose
  -- fields are in range and whose groups resolve; a tee listens on ::1 alone, where netip gives
  -- addresses of 4 or 16 bytes.
  pub load-IsValid : (c : Config rt) → HasSizes os → load os ≡ ok c → IsValid c
  unfolding load
  load-IsValid c sizes h = Ensures-ok IsValid (load os) (accepted (flags os) sizes) h
