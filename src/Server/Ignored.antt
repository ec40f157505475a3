-- ===== src/Server/Ignored.antt =====
-- The datagrams that a NACK worker passes over (server/server.go, `validateNACK` and `processNACK`).
use retry_endpoint.Frames.{FrameLib}
use retry_endpoint.Prelude.{◌≡◌, ◌≢◌, ◌<◌, ◌⊎◌, length, get_or}
use retry_endpoint.Prelude.Bytes.{Bytes, uint_at}
use retry_endpoint.Server.Calls
use retry_endpoint.Server.Calls.{Deps, Call}
use retry_endpoint.Server.Handler
use retry_endpoint.Server.Handler.{Server}
use retry_endpoint.Server.Refusals.{effects}

-- A datagram that is too short, has another magic number, is of another type, or names a range of
-- more than one sequence number.
abbrev pub IsIgnored : FrameLib → Bytes → Type 0
IsIgnored lib d =
    (length d < 64)
    ⊎ ((uint_at 0 4 d ≢ lib.magic) ⊎ ((get_or d 6 0 ≢ 0x10) ⊎ (uint_at 24 8 d ≢ uint_at 16 8 d)))

module _ {W : Type 0} (lib : FrameLib) (deps : Deps W) (s : Server) where
  -- What a stage changes besides the counters: nothing.
  abbrev Quiet : Calls.Run W → Unit {0} × Calls.Run W → Type 0
  Quiet r out = (effects out.1.calls ≡ effects r.calls) × (out.1.world ≡ r.world)
