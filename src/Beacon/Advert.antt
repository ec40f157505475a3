-- ===== src/Beacon/Advert.antt =====
-- The layout of the ADVERT (beacon/beacon.go, `buildADVERT`).
use retry_endpoint.Beacon.{
  Config, build_advert, interval_seconds, nack_ip, advert_size, msg_type_advert,
}
use retry_endpoint.Frames.{FrameLib, InRange}
use retry_endpoint.Prelude.{
  ℕ, ◌^◌, ◌<◌, ◌≡◌, refl, length, get_or, replicate, [], ◌∷◌, ◌++◌, ◌+◌, ◌*◌, ◌/◌, ◌∙◌, sym, ap,
  subst, zero, suc, take, drop, drop-drop, drop-append_left, length-append, arith,
}
use retry_endpoint.Prelude.Bytes.{Bytes, uint_at, slice, be, to_be, be-to_be, slice-append}

-- The ranges of the fields' Go types, and a 16-byte address.
pub record IsConfig (cfg : Config) : Type 0 where
  pub nack_ip_16 : length (nack_ip cfg) ≡ 16
  pub nack_port_u16 : cfg.nack_port < 256 ^ 2
  pub flags_u16 : cfg.flags < 256 ^ 2
  pub interval_u16 : cfg.interval < 65536 * 1000000000  -- nanoseconds
  pub instance_id_u32 : cfg.instance_id < 256 ^ 4

-- The datagram, field by field, at the offsets of BRC-126.
pub record Reads (lib : FrameLib) (cfg : Config) (buf : Bytes) : Type 0 where
  pub size : length buf ≡ advert_size
  pub magic : uint_at 0 4 buf ≡ lib.magic
  pub proto_ver : uint_at 4 2 buf ≡ lib.proto_ver
  pub msg_type : get_or buf 6 0 ≡ msg_type_advert
  pub scope : get_or buf 7 0 ≡ cfg.scope
  pub nack_addr : slice 8 16 buf ≡ nack_ip cfg
  pub nack_port : uint_at 24 2 buf ≡ cfg.nack_port
  pub tier : get_or buf 26 0 ≡ cfg.tier
  pub preference : get_or buf 27 0 ≡ cfg.preference
  pub interval : uint_at 28 2 buf ≡ cfg.interval / 1000000000
  pub flags : uint_at 30 2 buf ≡ cfg.flags
  pub instance_id : uint_at 32 4 buf ≡ cfg.instance_id
  pub reserved : slice 36 20 buf ≡ replicate 20 0

-- A buffer that is read past its first parts.
drop-past :
    (pre ip post : Bytes) (k : ℕ)
    → length pre ≡ 8
    → length ip ≡ 16
    → drop (24 + k) (pre ++ (ip ++ post)) ≡ drop k post
drop-past pre ip post k e f =
    sym (drop-drop 24 k (pre ++ (ip ++ post)))
    ∙ ap (drop k) (
        sym (drop-drop 8 16 (pre ++ (ip ++ post)))
        ∙ ap (drop 16)
            (subst (λ n. drop n (pre ++ (ip ++ post)) ≡ ip ++ post) e (drop-append_left pre _))
        ∙ subst (λ n. drop n (ip ++ post) ≡ post) f (drop-append_left ip post))

get_or-drop : (m k : ℕ) (xs : Bytes) → get_or xs (m + k) 0 ≡ get_or (drop m xs) k 0
get_or-drop zero k xs = ap (λ i. get_or xs i 0) (plus k)
  where
    plus : (k : ℕ) → 0 + k ≡ k
    plus k = omega arith
get_or-drop (suc m) k [] = refl
get_or-drop (suc m) k (x ∷ xs) = ap (λ i. get_or (x ∷ xs) i 0) (shift m k) ∙ get_or-drop m k xs
  where
    shift : (m k : ℕ) → suc m + k ≡ suc (m + k)
    shift m k = omega arith

seconds_u16 : (d : ℕ) → d < 65536 * 1000000000 → d / 1000000000 < 256 ^ 2
seconds_u16 d h = omega arith

interval_seconds_fits :
    (overflow : ℕ → ℕ) (d : ℕ)
    → d < 65536 * 1000000000
    → interval_seconds overflow d ≡ d / 1000000000
unfolding interval_seconds
interval_seconds_fits overflow d h = ground (arith, seconds_u16 d h)

-- For an address of 16 bytes and an interval of less than 65536 seconds, an ADVERT is 56 bytes long,
-- and each field of the configuration is read back from its place, the interval in whole seconds; the
-- last 20 bytes are zero.
pub build_advert-Reads :
    (lib : FrameLib) (overflow : ℕ → ℕ) (cfg : Config)
    → InRange lib
    → IsConfig cfg
    → Reads lib cfg (build_advert lib overflow cfg)
unfolding build_advert to_be
build_advert-Reads lib overflow cfg ir ic = record {
  size = omega (arith, length-append (nack_ip cfg) post, ic.nack_ip_16);
  magic = be-to_be 4 lib.magic ir.magic_u32;
  proto_ver = be-to_be 2 lib.proto_ver ir.proto_ver_u16;
  msg_type = refl;
  scope = refl;
  nack_addr = slice-append 8 16 pre (nack_ip cfg) post refl ic.nack_ip_16;
  nack_port = uint 0 2 ∙ be-to_be 2 cfg.nack_port ic.nack_port_u16;
  tier = byte 2;
  preference = byte 3;
  interval =
      uint 4 2
      ∙ ap (λ n. be (to_be 2 n)) (interval_seconds_fits overflow cfg.interval ic.interval_u16)
      ∙ be-to_be 2 (cfg.interval / 1000000000) (seconds_u16 cfg.interval ic.interval_u16);
  flags = uint 6 2 ∙ be-to_be 2 cfg.flags ic.flags_u16;
  instance_id = uint 8 4 ∙ be-to_be 4 cfg.instance_id ic.instance_id_u32;
  reserved = ap (take 20) (past 12);
}
  where
    pre : Bytes
    pre = to_be 4 lib.magic ++ (to_be 2 lib.proto_ver ++ (msg_type_advert ∷ cfg.scope ∷ []))

    post : Bytes
    post =
        to_be 2 cfg.nack_port
        ++ (cfg.tier
            ∷ cfg.preference
            ∷ (to_be 2 (interval_seconds overflow cfg.interval)
                ++ (to_be 2 cfg.flags ++ (to_be 4 cfg.instance_id ++ replicate 20 0))))

    past : (k : ℕ) → drop (24 + k) (pre ++ (nack_ip cfg ++ post)) ≡ drop k post
    past k = drop-past pre (nack_ip cfg) post k refl ic.nack_ip_16

    uint : (k n : ℕ) → uint_at (24 + k) n (pre ++ (nack_ip cfg ++ post)) ≡ uint_at k n post
    uint k n = ap (λ xs. be (take n xs)) (past k)

    byte : (k : ℕ) → get_or (pre ++ (nack_ip cfg ++ post)) (24 + k) 0 ≡ get_or post k 0
    byte k = get_or-drop 24 k (pre ++ (nack_ip cfg ++ post)) ∙ ap (λ xs. get_or xs k 0) (past 0)
