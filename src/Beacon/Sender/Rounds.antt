-- ===== src/Beacon/Sender/Rounds.antt =====
-- What the loop of the beacon (beacon/beacon.go, `Run`) writes, and to which connections.
use retry_endpoint.Beacon.{Config, build_advert, beacon_groups}
use retry_endpoint.Beacon.Sender
use retry_endpoint.Beacon.Sender.{Net, Call}
use retry_endpoint.Effects.{Run}
use retry_endpoint.Frames.{FrameLib}
use retry_endpoint.Prelude.{
  ℕ, zero, suc, ◌+◌, ◌*◌, ◌≡◌, refl, sym, ap, subst, ◌∙◌, Option, none, some, List, [], ◌∷◌, ◌++◌,
  ◌==◌, if◌then◌else◌, arith,
}
use retry_endpoint.Prelude.Bytes.{Bytes}
use retry_endpoint.Server.Calls.{UdpAddr}

abbrev one_if : ℕ → ℕ → ℕ
one_if n c = if c == n then 1 else 0

abbrev pub dials : ℕ → List Call → ℕ
dials n [] = 0
dials n (Call.dialled c ∷ cs) = one_if n c + dials n cs
dials n (Call.written c buf ok ∷ cs) = dials n cs
dials n (Call.closed c ∷ cs) = dials n cs

abbrev pub writes : ℕ → List Call → ℕ
writes n [] = 0
writes n (Call.dialled c ∷ cs) = writes n cs
writes n (Call.written c buf ok ∷ cs) = one_if n c + writes n cs
writes n (Call.closed c ∷ cs) = writes n cs

abbrev pub closes : ℕ → List Call → ℕ
closes n [] = 0
closes n (Call.dialled c ∷ cs) = closes n cs
closes n (Call.written c buf ok ∷ cs) = closes n cs
closes n (Call.closed c ∷ cs) = one_if n c + closes n cs

-- Whatever is written is one datagram.
abbrev pub Carries : Bytes → List Call → Type 0
Carries buf [] = Unit
Carries buf (Call.dialled c ∷ cs) = Carries buf cs
Carries buf (Call.written c sent ok ∷ cs) = (sent ≡ buf) × Carries buf cs
Carries buf (Call.closed c ∷ cs) = Carries buf cs

abbrev in_list : ℕ → List ℕ → ℕ
in_list n [] = 0
in_list n (c ∷ cs) = one_if n c + in_list n cs

-- From one run to another, a connection is dialled, written to and closed so often.
record Adds (n : ℕ) (buf : Bytes) {W : Type 0} (d w c : ℕ) (r r' : Run W Call) : Type 0 where
  dialled : dials n r'.calls ≡ d + dials n r.calls
  written : writes n r'.calls ≡ w + writes n r.calls
  closed : closes n r'.calls ≡ c + closes n r.calls
  carried : Carries buf r.calls → Carries buf r'.calls

-- The world alone has changed.
world-Adds :
    {W : Type 0} {n : ℕ} {buf : Bytes} (r r' : Run W Call)
    → r'.calls ≡ r.calls
    → Adds n buf 0 0 0 r r'
world-Adds {n = n} {buf = buf} r r' e = record {
  dialled = let x : dials n r'.calls ≡ dials n r.calls = ap (dials n) e in omega arith;
  written = let x : writes n r'.calls ≡ writes n r.calls = ap (writes n) e in omega arith;
  closed = let x : closes n r'.calls ≡ closes n r.calls = ap (closes n) e in omega arith;
  carried = λ h. subst (Carries buf) (sym e) h;
}

nothing : {W : Type 0} {n : ℕ} {buf : Bytes} (r : Run W Call) → Adds n buf 0 0 0 r r
nothing r = record {
  dialled = omega arith;
  written = omega arith;
  closed = omega arith;
  carried = λ h. h;
}

-- Two stretches of a run, one after the other.
joined :
    {W : Type 0} {n : ℕ} {buf : Bytes} {d w c d' w' c' e f g : ℕ} {r r' r'' : Run W Call}
    → Adds n buf d w c r r'
    → Adds n buf d' w' c' r' r''
    → d + d' ≡ e
    → w + w' ≡ f
    → c + c' ≡ g
    → Adds n buf e f g r r''
joined a b de wf cg =
    let ad = a.dialled in
    let bd = b.dialled in
    let aw = a.written in
    let bw = b.written in
    let ac = a.closed in
    let bc = b.closed in
    record {
      dialled = omega arith;
      written = omega arith;
      closed = omega arith;
      carried = λ h. b.carried (a.carried h);
    }

module _ {W : Type 0} (net : Net W) (n : ℕ) (buf : Bytes) where
  in_list-++ : (xs ys : List ℕ) → in_list n (xs ++ ys) ≡ in_list n xs + in_list n ys
  in_list-++ [] ys = omega arith
  in_list-++ (x ∷ xs) ys = let rest = in_list-++ xs ys in omega arith

  connected-Adds :
      (got : Option ℕ) (r : Run W Call)
      → let out = Sender.connected net got r in Adds n buf (in_list n out.0) 0 0 r out.1
  unfolding Sender.connected
  connected-Adds none r = nothing r
  connected-Adds (some c) r = record {
    dialled = omega arith;
    written = omega arith;
    closed = omega arith;
    carried = λ h. h;
  }

  dial_groups-Adds :
      (groups : List UdpAddr) (r : Run W Call)
      → let out = Sender.dial_groups net groups r in Adds n buf (in_list n out.0) 0 0 r out.1
  unfolding Sender.dial_groups
  dial_groups-Adds [] r = nothing r
  dial_groups-Adds (grp ∷ groups) r =
      let got = net.dial r.world grp in
      let from : Run W Call = record r { world = got.1 } in
      let first = Sender.connected net got.0 from in
      let rest = Sender.dial_groups net groups first.1 in
      let a : Adds n buf (in_list n first.0) 0 0 r first.1 =
        joined (world-Adds r from refl) (connected-Adds got.0 from) (omega arith) (omega arith)
          (omega arith) in
      joined a (dial_groups-Adds groups first.1) (sym (in_list-++ first.0 rest.0)) refl refl

  send-Adds :
      (conns : List ℕ) (r : Run W Call)
      → Adds n buf 0 (in_list n conns) 0 r (Sender.send net conns buf r).1
  unfolding Sender.send
  send-Adds [] r = nothing r
  send-Adds (c ∷ conns) r =
      let out = net.write r.world c buf in
      let next : Run W Call = record {
        world = out.1;
        calls = Call.written c buf out.0 ∷ r.calls;
      } in
      let a : Adds n buf 0 (one_if n c) 0 r next = record {
        dialled = omega arith;
        written = omega arith;
        closed = omega arith;
        carried = λ h. (refl, h);
      } in
      joined a (send-Adds conns next) refl refl refl

  on_ticks-Adds :
      (ticks : ℕ) (conns : List ℕ) (r : Run W Call)
      → Adds n buf 0 (ticks * in_list n conns) 0 r (Sender.on_ticks net ticks conns buf r).1
  unfolding Sender.on_ticks
  on_ticks-Adds zero conns r = record {
    dialled = omega arith;
    written = omega arith;
    closed = omega arith;
    carried = λ h. h;
  }
  on_ticks-Adds (suc ticks) conns r =
      joined (send-Adds conns r) (on_ticks-Adds ticks conns (Sender.send net conns buf r).1) refl
        (omega arith) refl

  close_conns-Adds :
      (conns : List ℕ) (r : Run W Call)
      → Adds n buf 0 0 (in_list n conns) r (Sender.close_conns net conns r).1
  unfolding Sender.close_conns
  close_conns-Adds [] r = nothing r
  close_conns-Adds (c ∷ conns) r =
      let out = net.close r.world c in
      let next : Run W Call = record { world = out.1; calls = Call.closed c ∷ r.calls } in
      let a : Adds n buf 0 0 (one_if n c) r next = record {
        dialled = omega arith;
        written = omega arith;
        closed = omega arith;
        carried = λ h. h;
      } in
      joined a (close_conns-Adds conns next) refl refl refl

  with_conns-Adds :
      (ticks : ℕ) (conns : List ℕ) (r : Run W Call)
      → Adds n buf 0
          (suc ticks * in_list n conns)
          (in_list n conns)
          r
          (Sender.with_conns net ticks buf conns r).1
  unfolding Sender.with_conns
  with_conns-Adds ticks [] r = record {
    dialled = omega arith;
    written = omega arith;
    closed = omega arith;
    carried = λ h. h;
  }
  with_conns-Adds ticks (c ∷ conns) r =
      let sent = (Sender.send net (c ∷ conns) buf r).1 in
      let ticked = (Sender.on_ticks net ticks (c ∷ conns) buf sent).1 in
      joined
        (joined (send-Adds (c ∷ conns) r) (on_ticks-Adds ticks (c ∷ conns) sent) refl refl refl)
        (close_conns-Adds (c ∷ conns) ticked) refl (omega arith) (omega arith)

module _ {W : Type 0} (net : Net W) (n : ℕ) where
  -- After the loop of the beacon, with so many ticks: each connection was written to once for each
  -- time it was dialled at the start and at each tick, and closed as often as it was dialled; and
  -- every datagram written is the ADVERT of the configuration.
  pub run_rounds :
      (lib : FrameLib) (overflow : ℕ → ℕ) (group_addr : ℕ → ℕ → Bytes) (cfg : Config) (ticks : ℕ)
      (w : W)
      → let done =
          (Sender.run net lib overflow group_addr cfg ticks (record { world = w; calls = [] })).1 in
        (writes n done.calls ≡ suc ticks * dials n done.calls)
        × (closes n done.calls ≡ dials n done.calls)
        × Carries (build_advert lib overflow cfg) done.calls
  unfolding Sender.run
  run_rounds lib overflow group_addr cfg ticks w =
      let start : Run W Call = record { world = w; calls = [] } in
      let buf = build_advert lib overflow cfg in
      let conns = Sender.dial_groups net (beacon_groups group_addr cfg) start in
      let a = dial_groups-Adds net n buf (beacon_groups group_addr cfg) start in
      let b = with_conns-Adds net n buf ticks conns.0 conns.1 in
      let done = (Sender.with_conns net ticks buf conns.0 conns.1).1 in
      let all : Adds n buf (in_list n conns.0) (suc ticks * in_list n conns.0) (in_list n conns.0)
          start done =
        joined a b (omega arith) (omega arith) (omega arith) in
      let x = all.dialled in
      let y = all.written in
      let z = all.closed in
      let d : dials n done.calls ≡ in_list n conns.0 = omega arith in
      let total : writes n done.calls ≡ suc ticks * in_list n conns.0 = omega arith in
      (total ∙ ap (λ k. suc ticks * k) (sym d), omega arith, all.carried tt)
