-- ===== src/Retransmit/Open/Balance.antt =====
-- The descriptors of `Open` and `Close` (retransmit/retransmit.go): how often each is opened and
-- closed.
use retry_endpoint.Effects.{Run}
use retry_endpoint.Prelude.{
  ℕ, ◌+◌, ◌≡◌, refl, ap, Bool, true, false, Option, none, some, List, [], ◌∷◌, ◌==◌, if◌then◌else◌,
  arith,
}
use retry_endpoint.Prelude.Assoc.{lookup, insert}
use retry_endpoint.Prelude.Bytes.{Bytes}
use retry_endpoint.Retransmit.Open
use retry_endpoint.Retransmit.Open.{Os, Call, Interface, Egress, Sockets, Name-discrete}

-- 1 for the descriptor itself.
abbrev pub one_if : ℕ → ℕ → ℕ
one_if n c = if c == n then 1 else 0

abbrev pub opens : ℕ → List Call → ℕ
opens n [] = 0
opens n (Call.opened c ∷ cs) = one_if n c + opens n cs
opens n (Call.closed c ∷ cs) = opens n cs

abbrev pub closes : ℕ → List Call → ℕ
closes n [] = 0
closes n (Call.opened c ∷ cs) = closes n cs
closes n (Call.closed c ∷ cs) = one_if n c + closes n cs

abbrev pub in_option : ℕ → Option ℕ → ℕ
in_option n none = 0
in_option n (some c) = one_if n c

abbrev pub in_map : ℕ → List (Bytes × ℕ) → ℕ
in_map n [] = 0
in_map n ((name, c) ∷ m) = one_if n c + in_map n m

-- How often the sockets hold a descriptor.
abbrev pub held : ℕ → Sockets → ℕ
held n s = in_map n s.by_name + in_option n s.unicast

-- Between two runs, a descriptor is opened `more` times oftener than it is closed, where it was so
-- `less` times before.
abbrev pub Moves : {W : Type 0} → ℕ → ℕ → Run W Call → ℕ → Run W Call → Type 0
Moves n less r more r' =
    opens n r'.calls + (closes n r.calls + less) ≡ opens n r.calls + (closes n r'.calls + more)

module _ {W : Type 0} (os : Os W) (e : Egress) (n : ℕ) where
  pub acquired-Moves :
      (got : Option ℕ) (r : Run W Call) → Moves n 0 r (in_option n got) (Open.acquired os e got r).1
  unfolding Open.acquired
  acquired-Moves none r = omega arith
  acquired-Moves (some c) r = omega arith

  pub acquired_value : (got : Option ℕ) (r : Run W Call) → (Open.acquired os e got r).0 ≡ got
  unfolding Open.acquired
  acquired_value none r = refl
  acquired_value (some c) r = refl

  close_one-Moves : (c : ℕ) (r : Run W Call) → Moves n (one_if n c) r 0 (Open.close_one os e c r).1
  unfolding Open.close_one
  close_one-Moves c r = omega arith

  set_options_calls :
      (i : Interface) (fd : ℕ) (r : Run W Call) → (Open.set_options os e i fd r).1.calls ≡ r.calls
  unfolding Open.set_options
  set_options_calls i fd r = ground arith

  configured-Moves :
      (conn : ℕ) (ok : Bool) (r : Run W Call)
      → Moves n
          (one_if n conn)
          r
          (in_option n (Open.configured os e conn ok r).0)
          (Open.configured os e conn ok r).1
  unfolding Open.configured
  configured-Moves conn true r = omega arith
  configured-Moves conn false r = close_one-Moves conn r

  with_file-Moves :
      (i : Interface) (conn : ℕ) (got : Option ℕ) (r : Run W Call)
      → Moves n
          (one_if n conn + in_option n got)
          r
          (in_option n (Open.with_file os e i conn got r).0)
          (Open.with_file os e i conn got r).1
  unfolding Open.with_file
  with_file-Moves i conn none r = ground (arith, close_one-Moves conn r)
  with_file-Moves i conn (some fd) r =
      let set = Open.set_options os e i fd r in
      let out = Open.configured os e conn set.0 set.1 in
      let same : set.1.calls ≡ r.calls = set_options_calls i fd r in
      let o : opens n set.1.calls ≡ opens n r.calls = ap (opens n) same in
      let c : closes n set.1.calls ≡ closes n r.calls = ap (closes n) same in
      let mid : Moves n (one_if n conn) set.1 (in_option n out.0) out.1 =
        configured-Moves conn set.0 set.1 in
      let last : Moves n (one_if n fd) out.1 0 (Open.close_one os e fd out.1).1 =
        close_one-Moves fd out.1 in
      omega arith

  asserted-Moves :
      (i : Interface) (conn : ℕ) (udp : Bool) (r : Run W Call)
      → Moves n
          (one_if n conn)
          r
          (in_option n (Open.asserted os e i conn udp r).0)
          (Open.asserted os e i conn udp r).1
  unfolding Open.asserted
  asserted-Moves i conn false r = close_one-Moves conn r
  asserted-Moves i conn true r =
      let file = os.file r.world conn in
      let from : Run W Call = record r { world = file.1 } in
      let got = Open.acquired os e file.0 from in
      let out = Open.with_file os e i conn got.0 got.1 in
      let v : in_option n got.0 ≡ in_option n file.0 =
        ap (in_option n) (acquired_value file.0 from) in
      let a : Moves n 0 from (in_option n file.0) got.1 = acquired-Moves file.0 from in
      let b : Moves n (one_if n conn + in_option n got.0) got.1 (in_option n out.0) out.1 =
        with_file-Moves i conn got.0 got.1 in
      omega arith

  listening-Moves :
      (i : Interface) (got : Option ℕ) (r : Run W Call)
      → Moves n
          (in_option n got)
          r
          (in_option n (Open.listening os e i got r).0)
          (Open.listening os e i got r).1
  unfolding Open.listening
  listening-Moves i none r = omega arith
  listening-Moves i (some conn) r = asserted-Moves i conn (os.is_udp conn) r

  -- A descriptor that `openEgressSocket` opens is closed again, except the socket that it returns.
  pub open_egress_socket-Moves :
      (i : Interface) (r : Run W Call)
      → Moves n 0 r
          (in_option n (Open.open_egress_socket os e i r).0)
          (Open.open_egress_socket os e i r).1
  unfolding Open.open_egress_socket
  open_egress_socket-Moves i r =
      let made = os.listen_packet r.world in
      let from : Run W Call = record r { world = made.1 } in
      let got = Open.acquired os e made.0 from in
      let out = Open.listening os e i got.0 got.1 in
      let v : in_option n got.0 ≡ in_option n made.0 =
        ap (in_option n) (acquired_value made.0 from) in
      let a : Moves n 0 from (in_option n made.0) got.1 = acquired-Moves made.0 from in
      let b : Moves n (in_option n got.0) got.1 (in_option n out.0) out.1 =
        listening-Moves i got.0 got.1 in
      omega arith

  close_all-Moves :
      (m : List (Bytes × ℕ)) (r : Run W Call) → Moves n (in_map n m) r 0 (Open.close_all os e m r).1
  unfolding Open.close_all
  close_all-Moves [] r = omega arith
  close_all-Moves ((name, c) ∷ m) r =
      let first = Open.close_one os e c r in
      let a : Moves n (one_if n c) r 0 first.1 = close_one-Moves c r in
      let b : Moves n (in_map n m) first.1 0 (Open.close_all os e m first.1).1 =
        close_all-Moves m first.1 in
      omega arith

  close_unicast-Moves :
      (u : Option ℕ) (r : Run W Call) → Moves n (in_option n u) r 0 (Open.close_unicast os e u r).1
  unfolding Open.close_unicast
  close_unicast-Moves none r = omega arith
  close_unicast-Moves (some c) r = close_one-Moves c r

  pub close_sockets-Moves :
      (s : Sockets) (r : Run W Call) → Moves n (held n s) r 0 (Open.close_sockets os e s r).1
  unfolding Open.close_sockets
  close_sockets-Moves s r =
      let out = Open.close_all os e s.by_name r in
      let a : Moves n (in_map n s.by_name) r 0 out.1 = close_all-Moves s.by_name r in
      let b : Moves n (in_option n s.unicast) out.1 0 (Open.close_unicast os e s.unicast out.1).1 =
        close_unicast-Moves s.unicast out.1 in
      omega arith

  pub in_map-insert :
      (name : Bytes) (c : ℕ) (m : List (Bytes × ℕ))
      → lookup Name-discrete name m ≡ none
      → in_map n (insert Name-discrete name c m) ≡ one_if n c + in_map n m
  unfolding lookup insert
  in_map-insert name c [] h = omega arith
  in_map-insert name c ((j, v) ∷ m) h = ground (arith, in_map-insert name c m)
