-- ===== src/Retransmit/Open/Leaks.antt =====
-- `Open` and then `Close` (retransmit/retransmit.go): the descriptors that are left open.
use retry_endpoint.Effects.{Run}
use retry_endpoint.Prelude.{
  ℕ, ◌+◌, ◌≡◌, ◌≢◌, refl, ap, ◌∙◌, Bool, true, false, Option, none, some, List, [], ◌∷◌, arith,
  if_neg,
}
use retry_endpoint.Prelude.Assoc.{lookup, insert, lookup-insert}
use retry_endpoint.Prelude.Bytes.{Bytes}
use retry_endpoint.Retransmit.Open
use retry_endpoint.Retransmit.Open.{Os, Call, Interface, Egress, Sockets, no_sockets, Name-discrete}
use retry_endpoint.Retransmit.Open.Balance.{
  Moves, opens, closes, held, in_map, in_option, in_map-insert, open_egress_socket-Moves,
  acquired-Moves, acquired_value, close_sockets-Moves,
}

abbrev Apart : Bytes → List Interface → Type 0
Apart name [] = Unit
Apart name (i ∷ is) = (name ≢ i.name) × Apart name is

-- No two interfaces have one name.
abbrev pub IsDistinct : List Interface → Type 0
IsDistinct [] = Unit
IsDistinct (i ∷ is) = Apart i.name is × IsDistinct is

-- No interface has a socket yet.
abbrev AllNew : List Interface → List (Bytes × ℕ) → Type 0
AllNew [] m = Unit
AllNew (i ∷ is) m = (lookup Name-discrete i.name m ≡ none) × AllNew is m

insert-AllNew :
    (name : Bytes) (c : ℕ) (is : List Interface) (m : List (Bytes × ℕ))
    → Apart name is
    → AllNew is m
    → AllNew is (insert Name-discrete name c m)
insert-AllNew name c [] m a h = tt
insert-AllNew name c (i ∷ is) m a h = (
  lookup-insert Name-discrete name i.name c m ∙ (if_neg (Name-discrete name i.name) a.0 _ _ ∙ h.0),
  insert-AllNew name c is m a.1 h.1,
)

none-AllNew : (is : List Interface) → AllNew is []
unfolding lookup
none-AllNew [] = tt
none-AllNew (i ∷ is) = (refl, none-AllNew is)

module _ {W : Type 0} (os : Os W) (e : Egress) (n : ℕ) where
  keep_opened-Moves :
      (next : List (Bytes × ℕ) → Run W Call → (Bool × List (Bytes × ℕ)) × Run W Call) (name : Bytes)
      (m : List (Bytes × ℕ)) (got : Option ℕ) (r : Run W Call)
      → lookup Name-discrete name m ≡ none
      → ((c : ℕ)
          → let grown = insert Name-discrete name c m in
            Moves n (in_map n grown) r (in_map n (next grown r).0.1) (next grown r).1)
      → let out = Open.keep_opened os e next name m got r in
        Moves n (in_map n m + in_option n got) r (in_map n out.0.1) out.1
  unfolding Open.keep_opened
  keep_opened-Moves next name m none r h k = omega arith
  keep_opened-Moves next name m (some c) r h k =
      let grown = in_map-insert os e n name c m h in let rest = k c in omega arith

  open_all-Moves :
      (is : List Interface) (m : List (Bytes × ℕ)) (r : Run W Call)
      → IsDistinct is
      → AllNew is m
      → let out = Open.open_all os e is m r in Moves n (in_map n m) r (in_map n out.0.1) out.1
  unfolding Open.open_all
  open_all-Moves [] m r d a = omega arith
  open_all-Moves (i ∷ is) m r d a =
      let first = Open.open_egress_socket os e i r in
      let b : Moves n 0 r (in_option n first.0) first.1 = open_egress_socket-Moves os e n i r in
      let out = Open.keep_opened os e (Open.open_all os e is) i.name m first.0 first.1 in
      let c : Moves n (in_map n m + in_option n first.0) first.1 (in_map n out.0.1) out.1 =
        keep_opened-Moves (Open.open_all os e is) i.name m first.0 first.1 a.0 (λ c.
          open_all-Moves is (insert Name-discrete i.name c m) first.1 d.1
            (insert-AllNew i.name c is m d.0 a.1)) in
      omega arith

  unicast_opened-held :
      (m : List (Bytes × ℕ)) (got : Option ℕ)
      → held n (Open.unicast_opened os e (record { by_name = m; unicast = none }) got).1
        ≡ in_map n m + in_option n got
  unfolding Open.unicast_opened
  unicast_opened-held m none = refl
  unicast_opened-held m (some c) = refl

  open_unicast-Moves :
      (m : List (Bytes × ℕ)) (r : Run W Call)
      → let out = Open.open_unicast os e (record { by_name = m; unicast = none }) r in
        Moves n (in_map n m) r (held n out.0.1) out.1
  unfolding Open.open_unicast
  open_unicast-Moves m r =
      let made = os.listen_udp r.world e.unicast_src in
      let from : Run W Call = record r { world = made.1 } in
      let got = Open.acquired os e made.0 from in
      let v : in_option n got.0 ≡ in_option n made.0 =
        ap (in_option n) (acquired_value os e n made.0 from) in
      let a : Moves n 0 from (in_option n made.0) got.1 = acquired-Moves os e n made.0 from in
      let h = unicast_opened-held m got.0 in omega arith

  after_all-Moves :
      (m : List (Bytes × ℕ)) (ok : Bool) (r : Run W Call)
      → let out = Open.after_all os e (record { by_name = m; unicast = none }) ok r in
        Moves n (in_map n m) r (held n out.0.1) out.1
  unfolding Open.after_all
  after_all-Moves m false r = omega arith
  after_all-Moves m true r = open_unicast-Moves m r

  open_sockets-Moves :
      (r : Run W Call)
      → IsDistinct e.ifaces
      → let out = Open.open_sockets os e no_sockets r in Moves n 0 r (held n out.0.1) out.1
  unfolding Open.open_sockets no_sockets
  open_sockets-Moves r d =
      let out = Open.open_all os e e.ifaces [] r in
      let a : Moves n 0 r (in_map n out.0.1) out.1 =
        open_all-Moves e.ifaces [] r d (none-AllNew e.ifaces) in
      let b = after_all-Moves out.0.1 out.0.0 out.1 in omega arith

  -- Where no two interfaces have one name: after `Open` on a new Retransmitter, with an error or
  -- without, a descriptor was opened as often as it was closed and the sockets hold it; after the
  -- `Close` that follows, as often as it was closed.
  pub open_sockets-close_sockets :
      (w : W)
      → IsDistinct e.ifaces
      → let opened = Open.open_sockets os e no_sockets (record { world = w; calls = [] }) in
        let done = (Open.close_sockets os e opened.0.1 opened.1).1 in
        (opens n opened.1.calls ≡ closes n opened.1.calls + held n opened.0.1)
        × (opens n done.calls ≡ closes n done.calls)
  open_sockets-close_sockets w d =
      let start : Run W Call = record { world = w; calls = [] } in
      let opened = Open.open_sockets os e no_sockets start in
      let a = open_sockets-Moves start d in
      let b = close_sockets-Moves os e n opened.0.1 opened.1 in (omega arith, omega arith)
