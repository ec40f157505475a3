-- ===== src/Retransmit/Open.antt =====
-- `Open` and `Close` (retransmit/retransmit.go): the egress sockets, one for each interface, and the
-- unicast socket. The system calls are a parameter; a descriptor is a number, and each that is
-- opened or closed is recorded.
use retry_endpoint.Effects
use retry_endpoint.Effects.{pure, ◌>>=◌, ◌>>◌, ask, note}
use retry_endpoint.Prelude.{
  ℕ, ℕ_discrete, Bool, true, false, ◌&&◌, Option, none, some, List, [], ◌∷◌, if◌then◌else◌,
}
use retry_endpoint.Prelude.Assoc.{insert}
use retry_endpoint.Prelude.Bytes.{Bytes}
pub mod Balance
pub mod Leaks

pub data Call : Type 0 where
  opened closed : ℕ → Call

-- The system calls: none and false for an error. `is_udp` is the type assertion to *net.UDPConn.
pub record Os (W : Type 0) : Type 0 where
  pub listen_packet : W → Option ℕ × W
  pub is_udp : ℕ → Bool
  pub file : W → ℕ → Option ℕ × W
  pub set_multicast_if : W → ℕ → ℕ → Bool × W
  pub set_multicast_loop : W → ℕ → Bool × W
  pub listen_udp : W → Option Bytes → Option ℕ × W
  pub close : W → ℕ → Bool × W

-- `*net.Interface`
pub record Interface : Type 0 where
  pub name : Bytes
  pub index : ℕ

-- What `Open` reads of the Retransmitter.
pub record Egress : Type 0 where
  pub ifaces : List Interface
  pub unicast_src : Option Bytes
  pub multicast_loop : Bool

-- What `Open` fills: the map of sockets, and the unicast socket.
pub record Sockets : Type 0 where
  pub by_name : List (Bytes × ℕ)
  pub unicast : Option ℕ

-- The sockets of `New`
unfoldable pub no_sockets : Sockets
no_sockets = record { by_name = []; unicast = none }

unfoldable pub set_unicast_source : Bytes → Egress → Egress
set_unicast_source ip e = record e { unicast_src = some ip }

unfoldable pub set_multicast_loop : Bool → Egress → Egress
set_multicast_loop b e = record e { multicast_loop = b }

abbrev pub Name-discrete : Discrete Bytes
Name-discrete = hlevel ℕ_discrete

module _ {W : Type 0} (os : Os W) (e : Egress) where
  abbrev M : Type 0 → Type 0
  M A = Effects.M W Call A

  -- A descriptor is opened, where there is no error.
  unfoldable pub acquired : Option ℕ → M (Option ℕ)
  acquired none = pure none
  acquired (some n) = do note (Call.opened n); pure (some n)

  -- A descriptor is released also where `Close` returns an error.
  unfoldable pub close_one : ℕ → M Bool
  close_one n = do ok ← ask (λ w. os.close w n); note (Call.closed n); pure ok

  -- The two calls of SetsockoptInt; the second one only with the loop.
  unfoldable pub set_options : Interface → ℕ → M Bool
  set_options i fd = do
    ok ← ask (λ w. os.set_multicast_if w fd i.index)
    (if ok && e.multicast_loop then ask (λ w. os.set_multicast_loop w fd) else pure ok)

  -- The socket is returned, or closed where an option was refused.
  unfoldable pub configured : ℕ → Bool → M (Option ℕ)
  configured conn true = pure (some conn)
  configured conn false = do _ ← close_one conn; pure none

  -- From `udpConn.File()` on; the file is closed at the end.
  unfoldable pub with_file : Interface → ℕ → Option ℕ → M (Option ℕ)
  with_file i conn none = do _ ← close_one conn; pure none
  with_file i conn (some fd) = do
    ok ← set_options i fd
    out ← configured conn ok
    _ ← close_one fd
    pure out

  -- After the type assertion.
  unfoldable pub asserted : Interface → ℕ → Bool → M (Option ℕ)
  asserted i conn false = do _ ← close_one conn; pure none
  asserted i conn true = do
    got ← ask (λ w. os.file w conn)
    got ← acquired got
    with_file i conn got

  unfoldable pub listening : Interface → Option ℕ → M (Option ℕ)
  listening i none = pure none
  listening i (some conn) = asserted i conn (os.is_udp conn)

  -- `openEgressSocket`
  unfoldable pub open_egress_socket : Interface → M (Option ℕ)
  open_egress_socket i = do got ← ask os.listen_packet; got ← acquired got; listening i got

  -- An error ends the loop of `Open`, and the sockets so far stay; else the loop goes on.
  unfoldable pub keep_opened :
      (List (Bytes × ℕ) → M (Bool × List (Bytes × ℕ)))
      → Bytes
      → List (Bytes × ℕ)
      → Option ℕ
      → M (Bool × List (Bytes × ℕ))
  keep_opened next name m none = pure (false, m)
  keep_opened next name m (some conn) = next (insert Name-discrete name conn m)

  -- The loop of `Open` over the interfaces.
  unfoldable pub open_all : List Interface → List (Bytes × ℕ) → M (Bool × List (Bytes × ℕ))
  open_all [] m = pure (true, m)
  open_all (i ∷ is) m = do got ← open_egress_socket i; keep_opened (open_all is) i.name m got

  -- `r.unicastConn = uc`
  unfoldable pub unicast_opened : Sockets → Option ℕ → Bool × Sockets
  unicast_opened s none = (false, s)
  unicast_opened s (some n) = (true, record s { unicast = some n })

  unfoldable pub open_unicast : Sockets → M (Bool × Sockets)
  open_unicast s = do
    got ← ask (λ w. os.listen_udp w e.unicast_src)
    got ← acquired got
    pure (unicast_opened s got)

  -- After the loop of `Open`.
  unfoldable pub after_all : Sockets → Bool → M (Bool × Sockets)
  after_all s false = pure (false, s)
  after_all s true = open_unicast s

  -- `Open`
  unfoldable pub open_sockets : Sockets → M (Bool × Sockets)
  open_sockets s = do
    out ← open_all e.ifaces s.by_name
    after_all (record s { by_name = out.1 }) out.0

  -- The loop of `Close`: an error does not end it.
  unfoldable pub close_all : List (Bytes × ℕ) → M Bool
  close_all [] = pure true
  close_all ((name, conn) ∷ m) =
      let rest = close_all m in do ok ← close_one conn; others ← rest; pure (ok && others)

  unfoldable pub close_unicast : Option ℕ → M Bool
  close_unicast none = pure true
  close_unicast (some n) = close_one n

  -- `Close`
  unfoldable pub close_sockets : Sockets → M Bool
  close_sockets s = do
    ok ← close_all s.by_name
    others ← close_unicast s.unicast
    pure (ok && others)
