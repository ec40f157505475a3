-- ===== src/Server/Wire/Fields.antt =====
-- The layout of the NACK and of the response (server/server.go).
use retry_endpoint.Frames.{FrameLib, InRange}
use retry_endpoint.Prelude.{
  ℕ, ◌^◌, ◌≤◌, ◌<◌, ◌≡◌, refl, sym, ap, ◌∙◌, ◌↔◌, none, arith, length, get_or,
}
use retry_endpoint.Prelude.Bytes.{Bytes, uint_at, to_be, be-to_be}
use retry_endpoint.Server.Wire.{
  validate_nack, response, response_size, cache_key, nack_size, msg_type_nack,
}

-- `validateNACK` accepts exactly the datagrams of 64 bytes or more that begin with the magic
-- number and have the NACK type at offset 6.
pub validate_nack_iff :
    (lib : FrameLib) (datagram : Bytes)
    → (validate_nack lib datagram ≡ none) ↔ (
        (nack_size ≤ length datagram)
        × (uint_at 0 4 datagram ≡ lib.magic)
        × (get_or datagram 6 0 ≡ msg_type_nack))
unfolding validate_nack
validate_nack_iff lib datagram = (λ h. ground arith, λ h. ground arith)

-- A response is 16 bytes and holds, at their offsets, the magic number, the protocol version, the
-- type, the flags and the sequence number that it was made from, each in the range of its field.
response_fields :
    (lib : FrameLib) (t flags n : ℕ)
    → InRange lib
    → n < 256 ^ 8
    → let buf = response lib t flags n in
      (length buf ≡ response_size)
      × (uint_at 0 4 buf ≡ lib.magic)
      × (uint_at 4 2 buf ≡ lib.proto_ver)
      × (get_or buf 6 0 ≡ t)
      × (get_or buf 7 0 ≡ flags)
      × (uint_at 8 8 buf ≡ n)
unfolding response to_be
response_fields lib t flags n ok h = (
  refl,
  be-to_be 4 lib.magic ok.magic_u32,
  be-to_be 2 lib.proto_ver ok.proto_ver_u16,
  refl,
  refl,
  be-to_be 8 n h,
)

pub cache_key-injective :
    (h n h' n' : ℕ)
    → h < 256 ^ 8
    → n < 256 ^ 8
    → h' < 256 ^ 8
    → n' < 256 ^ 8
    → cache_key h n ≡ cache_key h' n'
    → (h ≡ h') × (n ≡ n')
unfolding cache_key to_be
cache_key-injective h n h' n' lh ln lh' ln' e = (
  sym (be-to_be 8 h lh) ∙ ap (uint_at 0 8) e ∙ be-to_be 8 h' lh',
  sym (be-to_be 8 n ln) ∙ ap (uint_at 8 8) e ∙ be-to_be 8 n' ln',
)
