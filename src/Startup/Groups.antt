-- ===== src/Startup/Groups.antt =====
-- The multicast groups that the ingress joins, and their parts (main.go, `buildGroups` and the calls
-- of ingress.Partition and ingress.New in `run`).
use retry_endpoint.Config.Parts.{Config}
use retry_endpoint.Ingress
use retry_endpoint.Ingress.{Worker, partition, set_recv_buf}
use retry_endpoint.Ingress.Pipeline.{set_pipeline}
use retry_endpoint.Prelude.{ℕ, zero, suc, ◌^◌, true, List, [], ◌∷◌, ◌++◌, if◌then◌else◌}
use retry_endpoint.RateLimit.Tiers.{Runtime}
use retry_endpoint.Server.Calls.{UdpAddr}

-- Addresses with the listen port put in: `engine.Addr(idx, cfg.ListenPort)`, and those of the
-- control groups.
pub record Engine : Type 0 where
  pub addr : ℕ → UdpAddr
  pub block_broadcast : UdpAddr
  pub subtree_data : UdpAddr

-- `n` groups from an index on.
unfoldable pub band : (ℕ → UdpAddr) → ℕ → ℕ → List UdpAddr
band addr zero idx = []
band addr (suc n) idx = addr idx ∷ band addr n (suc idx)

module _ {rt : Runtime} (engine : Engine) (cfg : Config rt) where
  -- `buildGroups`
  unfoldable pub build_groups : List UdpAddr
  build_groups =
      band engine.addr cfg.bits.num_groups 0
      ++ (engine.block_broadcast
          ∷ ((if cfg.ingress.subtree_data then engine.subtree_data ∷ [] else [])
              ++ (if cfg.ingress.beef_enabled
                  then band engine.addr (2 ^ cfg.bits.beef_bits) 0x1000
                  else [])))

  -- One worker of `ings`, less its groups.
  unfoldable pub ingress_worker : Worker
  ingress_worker =
      set_pipeline cfg.ingress.queue_depth cfg.ingress.procs
        (set_recv_buf cfg.ingress.recv_buf (Ingress.new true cfg.ttls))

  -- `parts`, the groups of the workers of `ings`.
  unfoldable pub parts : List (List UdpAddr)
  parts = partition build_groups cfg.ingress.workers
