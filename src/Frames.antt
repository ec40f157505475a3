-- ===== src/Frames.antt =====
-- What the program takes from shard-common (packages frame, bundle, shard and teewire): constants,
-- the frame classes, decoded header fields, group derivation. None of that code is in this
-- repository, so it is a parameter; a datagram is its bytes.
use retry_endpoint.Prelude.{ℕ, ◌^◌, ◌<◌, ◌≡◌, ◌↔◌, Bool, true, Option, some, get_or}
use retry_endpoint.Prelude.Bytes.{Bytes, uint_at}

-- The two fields that every decoder returns, and that make the cache key.
pub record Header : Type 0 where
  pub hash_key : ℕ
  pub seq_num : ℕ

-- `frame.FragmentFrame`, as far as it is used.
pub record Fragment : Type 0 where
  pub header : Header
  pub orig_frame_ver : ℕ
  pub tx_id : Bytes
  pub subtree_id : Bytes

pub record FrameLib : Type 0 where
  pub magic : ℕ  -- frame.MagicBSV, a uint32
  pub proto_ver : ℕ  -- frame.ProtoVer, a uint16
  pub header_size : ℕ  -- frame.HeaderSize
  pub ver_v3 : ℕ  -- frame.FrameVerV3
  pub ver_v4 : ℕ
  pub ver_v5 : ℕ
  pub ver_v6 : ℕ
  pub ver_v8 : ℕ  -- frame.FrameVerV8 and bundle.FrameVerBundle
  pub ver_v9 : ℕ
  pub bundle_header_size : ℕ  -- bundle.HeaderSize
  pub is_block : Bytes → Bool
  pub is_subtree_data : Bytes → Bool
  pub is_anchor : Bytes → Bool
  pub is_bundle : Bytes → Bool
  pub is_beef : Bytes → Bool
  pub is_fragment : Bytes → Bool
  pub decode : Bytes → Option Header
  pub decode_block : Bytes → Option Header
  pub decode_subtree_data : Bytes → Option Header
  pub decode_anchor : Bytes → Option Header
  pub decode_beef : Bytes → Option Header
  pub decode_fragment : Bytes → Option Fragment

-- The ranges that the constants' Go types give.
pub record InRange (lib : FrameLib) : Type 0 where
  pub magic_u32 : lib.magic < 256 ^ 4
  pub proto_ver_u16 : lib.proto_ver < 256 ^ 2

-- The header layout that all frame classes share: HashKey at offset 40, SeqNum at offset 48.
abbrev pub ReadsHeader : (Bytes → Option Header) → Type 0
ReadsHeader decode =
    (raw : Bytes) (h : Header)
    → decode raw ≡ some h
    → (h.hash_key ≡ uint_at 40 8 raw) × (h.seq_num ≡ uint_at 48 8 raw)

-- The class tests look at the version byte at offset 6.
pub record Classes (lib : FrameLib) : Type 0 where
  pub bundle_iff : (raw : Bytes) → (lib.is_bundle raw ≡ true) ↔ (get_or raw 6 0 ≡ lib.ver_v8)
  pub beef_iff : (raw : Bytes) → (lib.is_beef raw ≡ true) ↔ (get_or raw 6 0 ≡ lib.ver_v9)
