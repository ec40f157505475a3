-- ===== src/Beacon/Sender.antt =====
-- The loop of the beacon (beacon/beacon.go, `Run` and `send`). The sockets are a parameter; the
-- multicast interface that `Run` tries to set on each of them is not modelled.
use retry_endpoint.Beacon.{Config, build_advert, beacon_groups}
use retry_endpoint.Effects
use retry_endpoint.Effects.{pure, ◌>>=◌, ◌>>◌, ask, note}
use retry_endpoint.Frames.{FrameLib}
use retry_endpoint.Prelude.{ℕ, zero, suc, Bool, Option, none, some, List, [], ◌∷◌, ◌++◌}
use retry_endpoint.Prelude.Bytes.{Bytes}
use retry_endpoint.Server.Calls.{UdpAddr}
pub mod Rounds

-- A connection is a number. The metric BeaconAdvertSent counts the writes that succeed.
pub data Call : Type 0 where
  dialled : ℕ → Call
  written : ℕ → Bytes → Bool → Call
  closed : ℕ → Call

-- `net.DialUDP`, none for an error, and the connection's Write and Close.
pub record Net (W : Type 0) : Type 0 where
  pub dial : W → UdpAddr → Option ℕ × W
  pub write : W → ℕ → Bytes → Bool × W
  pub close : W → ℕ → Bool × W

module _ {W : Type 0} (net : Net W) where
  abbrev M : Type 0 → Type 0
  M A = Effects.M W Call A

  -- A group that cannot be dialled is passed over.
  unfoldable pub connected : Option ℕ → M (List ℕ)
  connected none = pure []
  connected (some c) = do note (Call.dialled c); pure (c ∷ [])

  -- The loop that fills `conns`.
  unfoldable pub dial_groups : List UdpAddr → M (List ℕ)
  dial_groups [] = pure []
  dial_groups (grp ∷ groups) = do
    got ← ask (λ w. net.dial w grp)
    first ← connected got
    rest ← dial_groups groups
    pure (first ++ rest)

  -- `send`: one write per connection; an error is passed over.
  unfoldable pub send : List ℕ → Bytes → M (Unit {0})
  send [] buf = pure tt
  send (c ∷ conns) buf = do
    ok ← ask (λ w. net.write w c buf)
    note (Call.written c buf ok)
    send conns buf

  -- The loop of `Run`, for the ticks that are taken before the context is done.
  unfoldable pub on_ticks : ℕ → List ℕ → Bytes → M (Unit {0})
  on_ticks zero conns buf = pure tt
  on_ticks (suc ticks) conns buf = do send conns buf; on_ticks ticks conns buf

  -- The deferred closes.
  unfoldable pub close_conns : List ℕ → M (Unit {0})
  close_conns [] = pure tt
  close_conns (c ∷ conns) = do
    ok ← ask (λ w. net.close w c)
    note (Call.closed c)
    close_conns conns

  -- From `if len(conns) == 0` on.
  unfoldable pub with_conns : ℕ → Bytes → List ℕ → M (Unit {0})
  with_conns ticks buf [] = pure tt
  with_conns ticks buf (c ∷ conns) = do
    send (c ∷ conns) buf
    on_ticks ticks (c ∷ conns) buf
    close_conns (c ∷ conns)

  -- `Run`
  unfoldable pub run : FrameLib → (ℕ → ℕ) → (ℕ → ℕ → Bytes) → Config → ℕ → M (Unit {0})
  run lib overflow group_addr cfg ticks = do
    conns ← dial_groups (beacon_groups group_addr cfg)
    with_conns ticks (build_advert lib overflow cfg) conns
