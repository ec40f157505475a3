-- ===== src/Server/Wire.antt =====
-- The datagrams of server/server.go: the 64-byte NACK and the 16-byte response.
use Prim.Native.Nat.{bit_and}
use retry_endpoint.Frames.{FrameLib}
use retry_endpoint.Prelude.{
  ℕ, ◌+◌, Bool, true, false, ◌&&◌, not, Option, none, some, List, [], ◌∷◌, ◌++◌, ltb, ◌==◌,
  if◌then◌else◌, length, get_or, take, drop,
}
use retry_endpoint.Prelude.Bytes.{Bytes, uint_at, slice, to_be}
pub mod Fields

abbrev pub nack_size : ℕ
nack_size = 64

abbrev pub response_size : ℕ
response_size = 16

abbrev pub msg_type_nack : ℕ
msg_type_nack = 0x10

abbrev pub msg_type_miss : ℕ
msg_type_miss = 0x11

abbrev pub msg_type_ack : ℕ
msg_type_ack = 0x12

abbrev pub msg_type_throttled : ℕ
msg_type_throttled = 0x13

abbrev pub throttle_bucket_sequence : ℕ
throttle_bucket_sequence = 2

abbrev pub throttle_bucket_chain : ℕ
throttle_bucket_chain = 3

abbrev pub throttle_bucket_group : ℕ
throttle_bucket_group = 4

abbrev pub ack_flag_multicast_sent : ℕ
ack_flag_multicast_sent = 0x01

abbrev pub ack_flag_unicast_sent : ℕ
ack_flag_unicast_sent = 0x02

-- `proxy.FlagProxied`
abbrev pub flag_proxied : ℕ
flag_proxied = 0x01

pub data NackError : Type 0 where
  invalid_size invalid_magic invalid_type : NackError

-- The fields that `processNACK` reads from a valid datagram.
pub record Request : Type 0 where
  pub proxied : Bool
  pub hash_key : ℕ
  pub start_seq : ℕ
  pub end_seq : ℕ
  pub subtree_id : Bytes

unfoldable pub parse_request : Bytes → Request
parse_request datagram = record {
  proxied = not (bit_and (get_or datagram 7 0) flag_proxied == 0);
  hash_key = uint_at 8 8 datagram;
  start_seq = uint_at 16 8 datagram;
  end_seq = uint_at 24 8 datagram;
  subtree_id = slice 32 32 datagram;
}

-- `HashKey || SeqNum`, the key of the frame cache.
unfoldable pub cache_key : ℕ → ℕ → Bytes
cache_key hash_key seq_num = to_be 8 hash_key ++ to_be 8 seq_num

module _ (lib : FrameLib) where
  -- `validateNACK`; `none` is a nil error.
  unfoldable pub validate_nack : Bytes → Option NackError
  validate_nack datagram =
      if ltb (length datagram) nack_size
      then some invalid_size
      else if not (uint_at 0 4 datagram == lib.magic)
      then some invalid_magic
      else if not (get_or datagram 6 0 == msg_type_nack)
      then some invalid_type
      else none

  -- The 16 bytes that `sendResponse` and `sendThrottled` write; the fields fill the buffer.
  unfoldable pub response : ℕ → ℕ → ℕ → Bytes
  response msg_type flags seq_num =
      to_be 4 lib.magic ++ (to_be 2 lib.proto_ver ++ (msg_type ∷ flags ∷ to_be 8 seq_num))
