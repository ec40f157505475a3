-- ===== src/Config/Address.antt =====
-- What config/config.go and main.go use of net.IP and netip.Addr. An address is its bytes; zones are
-- left out.
use retry_endpoint.Prelude.{
  ℕ, Bool, true, ◌&&◌, ◌||◌, [], ◌∷◌, ◌==◌, length, get_or, if◌then◌else◌, zero, suc,
}
use retry_endpoint.Prelude.Bytes.{Bytes}

unfoldable pub is_zeros : ℕ → Bytes → Bool
is_zeros zero bs = true
is_zeros (suc n) [] = true
is_zeros (suc n) (b ∷ bs) = b == 0 && is_zeros n bs

-- The prefix ::ffff:0:0/96 of 16 bytes.
unfoldable pub is_mapped : Bytes → Bool
is_mapped ip = length ip == 16 && is_zeros 10 ip && get_or ip 10 0 == 0xFF && get_or ip 11 0 == 0xFF

-- `ip.To4() != nil`
unfoldable pub has_to4 : Bytes → Bool
has_to4 ip = length ip == 4 || is_mapped ip

-- `ip.To16() != nil`
unfoldable pub has_to16 : Bytes → Bool
has_to16 ip = length ip == 4 || length ip == 16

-- `netip.AddrPort`, its address of 4 or 16 bytes.
pub record AddrPort : Type 0 where
  pub addr : Bytes
  pub port : ℕ

-- `Addr.IsLoopback`: 127.0.0.0/8, also mapped into IPv6, or ::1.
unfoldable pub is_loopback : Bytes → Bool
is_loopback addr =
    if length addr == 4
    then get_or addr 0 0 == 127
    else if is_mapped addr
    then get_or addr 12 0 == 127
    else is_zeros 15 addr && get_or addr 15 0 == 1
