-- ===== src/Beacon.antt =====
-- Package beacon (beacon/beacon.go): the ADVERT datagram and its destinations. The loop is
-- in Sender; shard.GroupAddr is a parameter.
use retry_endpoint.Frames.{FrameLib}
use retry_endpoint.Prelude.{
  ℕ, ◌/◌, ◌%◌, ◌^◌, Bool, true, false, ◌||◌, Option, none, some, List, [], ◌∷◌, ◌++◌, map, ◌==◌,
  ltb, if◌then◌else◌, length, replicate, suc,
}
use retry_endpoint.Prelude.Bytes.{Bytes, to_be}
use retry_endpoint.Server.Calls.{UdpAddr}
pub mod Advert
pub mod Sender

abbrev pub advert_size : ℕ
advert_size = 56

abbrev pub msg_type_advert : ℕ
msg_type_advert = 0x20

-- `Config`; `interval` is in nanoseconds, and `nack_addr` is what To16 gives, `none` for nil.
pub record Config : Type 0 where
  pub nack_addr : Option Bytes
  pub nack_port : ℕ
  pub tier : ℕ
  pub preference : ℕ
  pub interval : ℕ
  pub scope : ℕ
  pub flags : ℕ
  pub instance_id : ℕ
  pub group_id : ℕ
  pub group_prefixes : List ℕ

-- `New`
unfoldable pub new : Config → Config
new cfg = if cfg.interval == 0 then record cfg { interval = 60000000000 } else cfg

-- `nackIP`, with net.IPv6unspecified for nil.
unfoldable pub nack_ip : Config → Bytes
nack_ip cfg = elim cfg.nack_addr [ none ↦ replicate 16 0 | some ip ↦ ip ]

-- `uint16(d.Seconds())`: the whole seconds, where they fit; the Go specification leaves the
-- conversion of a larger value open, which is `overflow`.
unfoldable pub interval_seconds : (ℕ → ℕ) → ℕ → ℕ
interval_seconds overflow d = if ltb (d / 1000000000) 65536 then d / 1000000000 else overflow d

-- `buildADVERT`
unfoldable pub build_advert : FrameLib → (ℕ → ℕ) → Config → Bytes
build_advert lib overflow cfg =
    to_be 4 lib.magic
    ++ (to_be 2 lib.proto_ver
        ++ (msg_type_advert
            ∷ cfg.scope
            ∷ (nack_ip cfg
                ++ (to_be 2 cfg.nack_port
                    ++ (cfg.tier
                        ∷ cfg.preference
                        ∷ (to_be 2 (interval_seconds overflow cfg.interval)
                            ++ (to_be 2 cfg.flags
                                ++ (to_be 4 cfg.instance_id ++ replicate 20 0))))))))

-- `if scope == … || scope == 0xFF { out = append(out, …) }`
unfoldable pub scope_prefix : ℕ → ℕ → ℕ → List ℕ
scope_prefix scope byte prefix = if scope == byte || scope == 0xFF then prefix ∷ [] else []

-- `legacyASMPrefixes`
unfoldable pub legacy_asm_prefixes : ℕ → List ℕ
legacy_asm_prefixes scope =
    scope_prefix scope 0x05 0xFF05
    ++ (scope_prefix scope 0x08 0xFF08 ++ scope_prefix scope 0x0E 0xFF0E)

-- `beaconGroups`, with `shard.GroupAddr(prefix, groupID, shard.GroupBeacon)` as `group_addr`.
unfoldable pub beacon_groups : (ℕ → ℕ → Bytes) → Config → List UdpAddr
beacon_groups group_addr cfg =
    let prefixes =
      (if length cfg.group_prefixes == 0
        then legacy_asm_prefixes cfg.scope
        else cfg.group_prefixes) in
    map (λ prefix. record { ip = group_addr prefix cfg.group_id; port = 9300; zone = [] }) prefixes
