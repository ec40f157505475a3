-- ===== src/Startup/Joins.antt =====
-- What the ingress workers of an accepted configuration join (main.go, `buildGroups` and `run`).
use mathlib.Core.List.{Perm, Mem, mem-append_left, mem-append_right, mem-cons_self, mem-cons_of_mem}
use mathlib.Core.List.Perm
use retry_endpoint.Config.Flags.{Platform}
use retry_endpoint.Config.Loaded.{IsValid}
use retry_endpoint.Config.Parts.{Config}
use retry_endpoint.Ingress.Parts.{joined, partition-Perm}
use retry_endpoint.Prelude.{
  ℕ, zero, suc, ◌+◌, ◌^◌, ◌≤◌, ◌<◌, ◌≡◌, refl, Bool, true, false, List, [], ◌∷◌, ◌++◌, length,
  length-append, if◌then◌else◌, arith, min, subst, ap,
}
use retry_endpoint.Prelude.Int.{to_ℕ}
use retry_endpoint.RateLimit.Tiers.{Runtime}
use retry_endpoint.Server.Calls.{UdpAddr}
use retry_endpoint.Startup.Groups.{Engine, band, build_groups, parts}

length-band : (addr : ℕ → UdpAddr) (n idx : ℕ) → length (band addr n idx) ≡ n
unfolding band
length-band addr zero idx = refl
length-band addr (suc n) idx = ap suc (length-band addr n (suc idx))

-- A band holds the address of each index in its range.
band-Mem : (addr : ℕ → UdpAddr) (n idx i : ℕ) → i < n → Mem (addr (idx + i)) (band addr n idx)
unfolding band
band-Mem addr zero idx i l = absurd (omega arith)
band-Mem addr (suc n) idx zero l =
    subst (λ k. Mem (addr k) (addr idx ∷ band addr n (suc idx))) (omega arith) mem-cons_self
band-Mem addr (suc n) idx (suc i) l =
    subst (λ k. Mem (addr k) (addr idx ∷ band addr n (suc idx))) (omega arith)
      (mem-cons_of_mem (addr idx) (band-Mem addr n (suc idx) i (omega arith)))

module _ {rt : Runtime} (os : Platform rt) (engine : Engine) (cfg : Config rt) where
  -- The groups beyond those of the shards and the block broadcast.
  abbrev pub extra : ℕ
  extra =
      (if cfg.ingress.subtree_data then 1 else 0)
      + (if cfg.ingress.beef_enabled then 2 ^ cfg.bits.beef_bits else 0)

  length-build_groups : length (build_groups engine cfg) ≡ cfg.bits.num_groups + 1 + extra
  unfolding build_groups
  length-build_groups =
      go cfg.ingress.subtree_data cfg.ingress.beef_enabled _ _
        (length-band engine.addr cfg.bits.num_groups 0)
        (length-band engine.addr (2 ^ cfg.bits.beef_bits) 0x1000)
    where
      go :
          (s b : Bool) (shards beef : List UdpAddr) {n m : ℕ}
          → length shards ≡ n
          → length beef ≡ m
          → length (
              shards
              ++ (engine.block_broadcast
                  ∷ ((if s then engine.subtree_data ∷ [] else []) ++ (if b then beef else []))))
            ≡ n + 1 + ((if s then 1 else 0) + (if b then m else 0))
      go true true shards beef e f =
          omega (
            arith,
            length-append shards (engine.block_broadcast ∷ engine.subtree_data ∷ beef),
            e,
            f,
          )
      go true false shards beef e f =
          omega
            (arith, length-append shards (engine.block_broadcast ∷ engine.subtree_data ∷ []), e, f)
      go false true shards beef e f =
          omega (arith, length-append shards (engine.block_broadcast ∷ beef), e, f)
      go false false shards beef e f =
          omega (arith, length-append shards (engine.block_broadcast ∷ []), e, f)

  shard-Mem : (i : ℕ) → i < cfg.bits.num_groups → Mem (engine.addr i) (build_groups engine cfg)
  unfolding build_groups
  shard-Mem i l = mem-append_left _ (
      subst (λ k. Mem (engine.addr k) (band engine.addr cfg.bits.num_groups 0)) (omega arith)
        (band-Mem engine.addr cfg.bits.num_groups 0 i l))

  block-Mem : Mem engine.block_broadcast (build_groups engine cfg)
  unfolding build_groups
  block-Mem = mem-append_right _ mem-cons_self

  -- In a valid configuration, the parts hold every group once as often as it is built, and so each
  -- shard group and the block broadcast; there are as many as workers were asked for unless the
  -- groups are fewer, and at least one.
  pub parts-Join :
      (i : ℕ)
      → IsValid os cfg
      → i < cfg.bits.num_groups
      → Perm (joined (parts engine cfg)) (build_groups engine cfg)
        × Mem (engine.addr i) (joined (parts engine cfg))
        × Mem engine.block_broadcast (joined (parts engine cfg))
        × (length (parts engine cfg)
            ≡ min (to_ℕ cfg.ingress.workers) (cfg.bits.num_groups + 1 + extra))
        × (1 ≤ length (parts engine cfg))
  unfolding parts
  parts-Join i v l =
      let all = partition-Perm (build_groups engine cfg) cfg.ingress.workers in
      let working = v.ingress.working in
      let count : length (parts engine cfg)
          ≡ min (to_ℕ cfg.ingress.workers) (cfg.bits.num_groups + 1 + extra) =
        omega (arith, all.1, length-build_groups, working) in
      (
        all.0,
        (Perm.mem_iff all.0).1 (shard-Mem i l),
        (Perm.mem_iff all.0).1 block-Mem,
        count,
        omega (arith, count, working),
      )
