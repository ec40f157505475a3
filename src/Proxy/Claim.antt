-- ===== src/Proxy/Claim.antt =====
-- The keys under which recoveries are claimed (proxy/proxy.go, `recover`).
use retry_endpoint.Prelude.{
  ℕ, ◌^◌, ◌<◌, ◌≡◌, ◌↔◌, sym, ap, ap₂, ◌∙◌, true, Option, some, ◌++◌, arith, length, take, drop,
  take-append_left, drop-append_left, length-append,
}
use retry_endpoint.Prelude.Bytes.{Bytes, be, to_be, be-to_be, length-to_be}
use retry_endpoint.Proxy.{Job, claim_key}
use retry_endpoint.Server.Calls.{UdpAddr}

-- Buffers with first parts of one length.
split_append :
    (n : ℕ) (a b c d : Bytes) → length a ≡ n → length c ≡ n → a ++ b ≡ c ++ d → (a ≡ c) × (b ≡ d)
split_append n a b c d la lc e = (
  sym (take-append_left a b) ∙ ap₂ take (la ∙ sym lc) e ∙ take-append_left c d,
  sym (drop-append_left a b) ∙ ap₂ drop (la ∙ sym lc) e ∙ drop-append_left c d,
)

to_be-injective : (n x y : ℕ) → x < 256 ^ n → y < 256 ^ n → to_be n x ≡ to_be n y → x ≡ y
to_be-injective n x y hx hy e = sym (be-to_be n x hx) ∙ ap be e ∙ be-to_be n y hy

-- A requester's claim, and one that has none.
abbrev pub job : ℕ → ℕ → Bytes → Option UdpAddr → Job
job hash_key seq subtree requester = record {
  hash_key = hash_key;
  seq = seq;
  subtree = subtree;
  requester = requester;
}

gap_length : (x y : ℕ) → length (to_be 8 x ++ to_be 8 y) ≡ 16
gap_length x y =
    omega (arith, length-append (to_be 8 x) (to_be 8 y), length-to_be 8 x, length-to_be 8 y)

-- Where delivery is unicast, two jobs of known requesters make the same claim exactly if they are for
-- the same frame and for requesters of the same address and port: for HashKeys and SeqNums of 64
-- bits, ports of 16 bits, and addresses of 16 bytes. The zone of an address makes no difference.
pub claim_key_iff :
    (h h' s s' : ℕ) (t t' : Bytes) (a a' : UdpAddr)
    → h < 256 ^ 8
    → h' < 256 ^ 8
    → s < 256 ^ 8
    → s' < 256 ^ 8
    → length a.ip ≡ 16
    → length a'.ip ≡ 16
    → a.port < 256 ^ 2
    → a'.port < 256 ^ 2
    → (claim_key true (job h s t (some a)) ≡ claim_key true (job h' s' t' (some a')))
      ↔ ((h ≡ h') × (s ≡ s') × (a.ip ≡ a'.ip) × (a.port ≡ a'.port))
unfolding claim_key
claim_key_iff h h' s s' t t' a a' bh bh' bs bs' la la' bp bp' = (
  λ e.
      let gap = split_append 16 _ _ _ _ (gap_length h s) (gap_length h' s') e in
      let keys = split_append 8 _ _ _ _ (length-to_be 8 h) (length-to_be 8 h') gap.0 in
      let addr = split_append 16 _ _ _ _ la la' gap.1 in
      (
        to_be-injective 8 _ _ bh bh' keys.0,
        to_be-injective 8 _ _ bs bs' keys.1,
        addr.0,
        to_be-injective 2 _ _ bp bp' addr.1,
      ),
  λ (eh, es, ea, ep). λ i. (to_be 8 (eh i) ++ to_be 8 (es i)) ++ (ea i ++ to_be 2 (ep i)),
)
