-- ===== src/Config/Tee.antt =====
-- The tee address that `Load` (config/config.go) accepts.
use retry_endpoint.Config.Address.{AddrPort, is_loopback, is_zeros}
use retry_endpoint.Config.Checks.{tee_checks}
use retry_endpoint.Config.Flags.{Platform}
use retry_endpoint.Config.Load.{check_tee}
use retry_endpoint.Config.Result.{LoadError, ok, or_error, ◌>>=◌}
use retry_endpoint.Config.Text.{Text, is_empty}
use retry_endpoint.Prelude.{
  ℕ, zero, suc, ◌<◌, ◌≤◌, ◌≡◌, ◌≢◌, ◌⊎◌, inl, inr, refl, ap, ap₂, ◌∙◌, Bool, true, false,
  if◌then◌else◌, Option, none, some, [], ◌∷◌, ◌++◌, length, get_or, drop, replicate, arith,
}
use retry_endpoint.Prelude.Bytes.{Bytes}
use retry_endpoint.RateLimit.Tiers.{Runtime}

-- The address ::1.
abbrev pub loopback : Bytes
loopback = replicate 15 0 ++ (1 ∷ [])

is_zeros-replicate :
    (n : ℕ) (bs : Bytes) → is_zeros n bs ≡ true → n ≤ length bs → bs ≡ replicate n 0 ++ drop n bs
unfolding is_zeros
is_zeros-replicate zero bs h l = refl
is_zeros-replicate (suc n) [] h l = absurd (omega arith)
is_zeros-replicate (suc n) (b ∷ bs) h l =
    let both : (b ≡ 0) × (is_zeros n bs ≡ true) = ground arith in
    ap₂ ◌∷◌ both.0 (is_zeros-replicate n bs both.1 (omega arith))

last_byte : (n : ℕ) (bs : Bytes) → length bs ≡ suc n → drop n bs ≡ get_or bs n 0 ∷ []
last_byte n [] l = absurd (omega arith)
last_byte zero (b ∷ []) l = refl
last_byte zero (b ∷ c ∷ bs) l = absurd (omega arith)
last_byte (suc n) (b ∷ bs) l = last_byte n bs (omega arith)

loopback_unique :
    (addr : Bytes)
    → length addr ≡ 16
    → is_zeros 15 addr ≡ true
    → get_or addr 15 0 ≡ 1
    → addr ≡ loopback
loopback_unique addr l z e =
    is_zeros-replicate 15 addr z (omega arith)
    ∙ ap (λ bs. replicate 15 0 ++ bs) (last_byte 15 addr l ∙ ap (λ b. b ∷ []) e)

-- No address, or ::1 with a port.
abbrev pub IsLocal : Option AddrPort → Type 0
IsLocal none = Unit
IsLocal (some listen) = (listen.addr ≡ loopback) × (0 < listen.port)

-- What the two checks say of an address that passes them.
checks_passed :
    (listen : AddrPort) {tee : Option AddrPort}
    → tee_checks listen ≡ ok tee
    → (tee ≡ some listen)
      × (0 < listen.port)
      × (length listen.addr ≢ 4)
      × (is_zeros 15 listen.addr ≡ true)
      × (get_or listen.addr 15 0 ≡ 1)
unfolding tee_checks is_loopback
checks_passed listen h = ground arith

tee_checks-Local :
    (listen : AddrPort) {tee : Option AddrPort}
    → (length listen.addr ≡ 4) ⊎ (length listen.addr ≡ 16)
    → tee_checks listen ≡ ok tee
    → IsLocal tee
tee_checks-Local listen (inl l) h =
    let (e, port, four, zeros, last) = checks_passed listen h in absurd (four l)
tee_checks-Local listen {tee} (inr l) h =
    let (e, port, four, zeros, last) = checks_passed listen h in
    rw e (loopback_unique listen.addr l zeros last, port)

module _ {rt : Runtime} (os : Platform rt) where
  -- netip.ParseAddrPort gives addresses of 4 or 16 bytes.
  abbrev pub HasSizes : Type 0
  HasSizes =
      (s : Text) (listen : AddrPort)
      → os.parse_addr_port s ≡ some listen
      → (length listen.addr ≡ 4) ⊎ (length listen.addr ≡ 16)

  pub check_tee-Local :
      (s : Text) {tee : Option AddrPort} → HasSizes → check_tee os s ≡ ok tee → IsLocal tee
  unfolding check_tee
  check_tee-Local s sizes h = go (is_empty s) (os.parse_addr_port s) refl h
    where
      go :
          (b : Bool) (o : Option AddrPort) {tee : Option AddrPort}
          → os.parse_addr_port s ≡ o
          → (if b then ok none else (or_error o LoadError.invalid_tee >>= tee_checks)) ≡ ok tee
          → IsLocal tee
      go true o {tee} e h = let f : none ≡ tee = cc h in rw (← f) tt
      go false none e h = absurd (cc h)
      go false (some listen) e h = tee_checks-Local listen (sizes s listen e) h
