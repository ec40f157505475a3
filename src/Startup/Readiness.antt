-- ===== src/Startup/Readiness.antt =====
-- The answers on readiness (metrics/metrics.go, `handleReadyz`) while the services of `run` (main.go)
-- start and stop.
use retry_endpoint.Config.Address.{AddrPort}
use retry_endpoint.Metrics
use retry_endpoint.Metrics.{
  Recorder, Status, handle_readyz, set_workers, worker_ready, worker_done, set_draining, at_least,
}
use retry_endpoint.Prelude.{
  ℕ, zero, suc, ◌+◌, ◌≤◌, ◌≡◌, ◌≢◌, refl, ap, ◌∙◌, Bool, true, false, Option, none, some, List, [],
  ◌∷◌, ◌++◌, length, length-append, arith,
}
use retry_endpoint.Prelude.Int.{ℤ, pos}
use retry_endpoint.Startup.Services.{
  Service, State, Step, Reach, workers, tees, services, first_state, starts, fails, stops, drains,
  here, more, server,
}

-- What holds of the recorder in every state: it waits for `parts` and has counted the services that
-- run, of which there are at most `all` with those that wait.
record Sound (parts all : ℕ) (st : State) : Type 0 where
  asked : st.recorder.num_workers ≡ pos parts
  counted : st.recorder.ready_count ≡ pos (length st.running)
  room : length st.waiting + length st.running ≤ all

first-Sound :
    (n : ℤ) (joins : Bool) (listen : Option AddrPort) (parts : ℕ)
    → Sound parts (length (services joins listen parts)) (first_state n joins listen parts)
unfolding first_state set_workers Metrics.new
first-Sound n joins listen parts = record { asked = refl; counted = refl; room = omega arith }

length-middle :
    (pre post : List Service) (s : Service)
    → length (pre ++ (s ∷ post)) ≡ suc (length (pre ++ post))
length-middle pre post s = omega (arith, length-append pre (s ∷ post), length-append pre post)

Step-Sound : {parts all : ℕ} {a b : State} → Step a b → Sound parts all a → Sound parts all b
unfolding worker_ready worker_done set_draining
Step-Sound (starts pre post running s r) h = record {
  asked = h.asked;
  counted = ap Metrics.incremented h.counted;
  room = omega (arith, h.room, length-middle pre post s);
}
Step-Sound (fails pre post running s r) h = record {
  asked = h.asked;
  counted = h.counted;
  room = omega (arith, h.room, length-middle pre post s);
}
Step-Sound (stops pre post waiting s r) h = record {
  asked = h.asked;
  counted = ap Metrics.decremented (h.counted ∙ ap pos (length-middle pre post s));
  room = omega (arith, h.room, length-middle pre post s);
}
Step-Sound (drains waiting running r) h = record {
  asked = h.asked;
  counted = h.counted;
  room = h.room;
}

Reach-Sound : {parts all : ℕ} {a b : State} → Reach a b → Sound parts all a → Sound parts all b
Reach-Sound (here s) h = h
Reach-Sound (more a b c path step) h = Step-Sound step (Reach-Sound path h)

-- Ready exactly if the recorder is not draining and as many services run as it waits for.
readyz_iff :
    (r : Recorder) (parts running : ℕ)
    → r.num_workers ≡ pos (suc parts)
    → r.ready_count ≡ pos running
    → (r.draining ≡ false → suc parts ≤ running → handle_readyz r ≡ Status.ready)
      × (handle_readyz r ≡ Status.ready → (r.draining ≡ false) × (suc parts ≤ running))
unfolding handle_readyz
readyz_iff r parts running e f = (rw (e, f) (λ d l. ground arith), rw (e, f) (λ h. ground arith))

length-workers : (n : ℕ) → length (workers n) ≡ n
unfolding workers
length-workers zero = refl
length-workers (suc n) = ap suc (length-workers n)

-- At most the tee and the server run where nothing is joined.
length-tee_only : (listen : Option AddrPort) (parts : ℕ) → length (services false listen parts) ≤ 2
unfolding services
length-tee_only none parts = omega arith
length-tee_only (some listen) parts = omega arith

-- More services than ingress workers where the groups are joined.
length-joined : (listen : Option AddrPort) (parts : ℕ) → parts ≤ length (services true listen parts)
unfolding services
length-joined listen parts =
    omega
      (arith, length-append (workers parts) (tees listen ++ (server ∷ [])), length-workers parts)

-- With no join and three ingress workers or more, no state that the start, the failures, the stops and
-- the drain of the services reach is answered as ready.
pub tee_only-NotReady :
    (n : ℤ) (listen : Option AddrPort) (parts : ℕ) (st : State)
    → 3 ≤ parts
    → Reach (first_state n false listen parts) st
    → handle_readyz st.recorder ≢ Status.ready
tee_only-NotReady n listen zero st l path h = omega arith
tee_only-NotReady n listen (suc parts) st l path h =
    let sound = Reach-Sound path (first-Sound n false listen (suc parts)) in
    let (calm, enough) =
      (readyz_iff st.recorder parts (length st.running) sound.asked sound.counted).1 h in
    omega (arith, enough, sound.room, length-tee_only listen (suc parts))

-- Nothing has failed, stopped or begun to drain: the services that do not wait run.
record Calm (all : ℕ) (st : State) : Type 0 where
  serving : st.recorder.draining ≡ false
  whole : length st.waiting + length st.running ≡ all

first-Calm :
    (n : ℤ) (joins : Bool) (listen : Option AddrPort) (parts : ℕ)
    → Calm (length (services joins listen parts)) (first_state n joins listen parts)
unfolding first_state set_workers Metrics.new
first-Calm n joins listen parts = record { serving = refl; whole = omega arith }

-- Runs in which services start and nothing else happens.
pub data Starts : State → State → Type 0 where
  none_yet : (s : State) → Starts s s
  one_more :
      (a : State) (pre post running : List Service) (s : Service) (r : Recorder)
      → Starts a (record { waiting = pre ++ (s ∷ post); running = running; recorder = r })
      → Starts a
          (record { waiting = pre ++ post; running = s ∷ running; recorder = worker_ready r })

Starts-Reach : {a b : State} → Starts a b → Reach a b
Starts-Reach (none_yet s) = here s
Starts-Reach (one_more a pre post running s r path) =
    more a _ _ (Starts-Reach path) (starts pre post running s r)

Starts-Calm : {all : ℕ} {a b : State} → Starts a b → Calm all a → Calm all b
unfolding worker_ready
Starts-Calm (none_yet s) h = h
Starts-Calm (one_more a pre post running s r path) h =
    let before = Starts-Calm path h in
    record {
      serving = before.serving;
      whole = omega (arith, before.whole, length-middle pre post s);
    }

-- Every service that waits can start, one after the other.
start_all :
    (a : State) (waiting running : List Service) (r : Recorder)
    → Starts a (record { waiting = waiting; running = running; recorder = r })
    → (b : State) × Starts a b × (b.waiting ≡ [])
start_all a [] running r path = (_, path, refl)
start_all a (s ∷ waiting) running r path =
    start_all a waiting (s ∷ running) (worker_ready r) (one_more a [] waiting running s r path)

-- With the groups joined and at least one ingress worker: from every state in which services have
-- started and nothing else has happened, the others can start, and then the answer is ready.
pub Starts-Ready :
    (n : ℤ) (listen : Option AddrPort) (parts : ℕ) (st : State)
    → 1 ≤ parts
    → Starts (first_state n true listen parts) st
    → (later : State) × Starts st later
      × (later.waiting ≡ [])
      × (handle_readyz later.recorder ≡ Status.ready)
Starts-Ready n listen zero st l path = absurd (omega arith)
Starts-Ready n listen (suc parts) st l path =
    let (later, rest, empty) = start_all st st.waiting st.running st.recorder (none_yet st) in
    let sound =
      Reach-Sound (Starts-Reach rest)
        (Reach-Sound (Starts-Reach path) (first-Sound n true listen (suc parts))) in
    let calm = Starts-Calm rest (Starts-Calm path (first-Calm n true listen (suc parts))) in
    let none_left : length later.waiting ≡ 0 = ap length empty in
    (
      later,
      rest,
      empty,
      (readyz_iff later.recorder parts (length later.running) sound.asked sound.counted).0
          calm.serving (omega (arith, calm.whole, none_left, length-joined listen (suc parts))),
    )
