-- ===== src/Startup/Services.antt =====
-- The goroutines that `run` (main.go) starts and that report to the recorder: the ingress workers,
-- the tee and the NACK server (ingress/ingress.go `Run` and `RunTee`, server/server.go `Run`), each
-- of which counts itself ready once its socket is open, and done when it returns.
use retry_endpoint.Config.Address.{AddrPort}
use retry_endpoint.Metrics
use retry_endpoint.Metrics.{Recorder, set_workers, worker_ready, worker_done, set_draining}
use retry_endpoint.Prelude.{
  ℕ, zero, suc, Bool, Option, none, some, List, [], ◌∷◌, ◌++◌, if◌then◌else◌,
}
use retry_endpoint.Prelude.Int.{ℤ, pos}

pub data Service : Type 0 where
  ingress : ℕ → Service
  tee server : Service

-- The ingress workers, the last first.
unfoldable pub workers : ℕ → List Service
workers zero = []
workers (suc n) = ingress n ∷ workers n

abbrev pub tees : Option AddrPort → List Service
tees none = []
tees (some listen) = tee ∷ []

-- The services of a configuration with `parts` ingress workers.
unfoldable pub services : Bool → Option AddrPort → ℕ → List Service
services joins listen parts =
    (if joins then workers parts else []) ++ (tees listen ++ (server ∷ []))

pub record State : Type 0 where
  pub waiting : List Service
  pub running : List Service
  pub recorder : Recorder

-- After `rec.SetWorkers(len(ings))`, with no service started.
unfoldable pub first_state : ℤ → Bool → Option AddrPort → ℕ → State
first_state configured joins listen parts = record {
  waiting = services joins listen parts;
  running = [];
  recorder = set_workers (pos parts) (Metrics.new configured);
}

pub data Step : State → State → Type 0 where
  -- A service opens its socket.
  starts :
      (pre post running : List Service) (s : Service) (r : Recorder)
      → Step
          (record { waiting = pre ++ (s ∷ post); running = running; recorder = r })
          (record { waiting = pre ++ post; running = s ∷ running; recorder = worker_ready r })
  -- A service returns the error of opening it.
  fails :
      (pre post running : List Service) (s : Service) (r : Recorder)
      → Step
          (record { waiting = pre ++ (s ∷ post); running = running; recorder = r })
          (record { waiting = pre ++ post; running = running; recorder = r })
  -- A running service returns.
  stops :
      (pre post waiting : List Service) (s : Service) (r : Recorder)
      → Step
          (record { waiting = waiting; running = pre ++ (s ∷ post); recorder = r })
          (record { waiting = waiting; running = pre ++ post; recorder = worker_done r })
  -- The drain before the shutdown.
  drains :
      (waiting running : List Service) (r : Recorder)
      → Step
          (record { waiting = waiting; running = running; recorder = r })
          (record { waiting = waiting; running = running; recorder = set_draining r })

pub data Reach : State → State → Type 0 where
  here : (s : State) → Reach s s
  more : (a b c : State) → Reach a b → Step b c → Reach a c
