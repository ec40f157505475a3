-- ===== src/Startup/Advertised.antt =====
-- The ADVERT of an accepted configuration (main.go, `run`; beacon/beacon.go, `buildADVERT`).
use retry_endpoint.Beacon
use retry_endpoint.Beacon.{advert_size}
use retry_endpoint.Config.Parts.{Config}
use retry_endpoint.Config.Text.{Text}
use retry_endpoint.Prelude.{◌<◌, ◌/◌, ◌≡◌, Option, none, some, length, get_or}
use retry_endpoint.Prelude.Bytes.{Bytes, slice, uint_at}
use retry_endpoint.Prelude.Int.{to_ℕ}
use retry_endpoint.RateLimit.Tiers.{Runtime}
use retry_endpoint.Startup.Identity.{beacon_flag_bits, to_uint16}

-- An address of 16 bytes, or an error.
abbrev Sized : Option Bytes → Type 0
Sized none = Unit
Sized (some ip) = length ip ≡ 16

-- What a listener reads in an ADVERT, field by field.
pub record Advertises {rt : Runtime} (cfg : Config rt) (nack_ip : Bytes) (buf : Bytes)
    : Type 0 where
  pub size : length buf ≡ advert_size
  pub scope : get_or buf 7 0 ≡ cfg.beacon.scope_byte
  pub nack_addr : slice 8 16 buf ≡ nack_ip
  pub nack_port : uint_at 24 2 buf ≡ to_uint16 cfg.server.nack_port
  pub tier : get_or buf 26 0 ≡ cfg.beacon.tier
  pub preference : get_or buf 27 0 ≡ cfg.beacon.preference
  pub interval : uint_at 28 2 buf ≡ to_ℕ cfg.beacon.interval / 1000000000
  pub flags :
      uint_at 30 2 buf
      ≡ beacon_flag_bits cfg.beacon.unicast cfg.beacon.multicast cfg.beacon.draining
          cfg.proxy.enabled
  pub instance_id : 0 < uint_at 32 4 buf
