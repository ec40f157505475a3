-- ===== src/Tests/Limits.antt =====
-- The rate limiter, the cache views and the loop of the beacon at concrete inputs.
use retry_endpoint.Beacon.{build_advert}
use retry_endpoint.Beacon.Sender
use retry_endpoint.Beacon.Sender.Rounds
use retry_endpoint.Beacon.Sender.Rounds.{run_rounds}
use retry_endpoint.Cache
use retry_endpoint.Cache.{Got}
use retry_endpoint.Cache.Views
use retry_endpoint.Cache.Views.{Op, IsElsewhere, Spares, retrieve-run}
use retry_endpoint.Prelude.{
  ℕ, suc, ◌+◌, ◌*◌, ◌≡◌, refl, ap, Bool, true, false, none, some, List, [], ◌∷◌, arith, ℕ_discrete,
  dec_lt, ◌≤◌, get_or, inl, inr,
}
use retry_endpoint.Prelude.Bytes.{to_be}
use retry_endpoint.Prelude.Int.{pos}
use retry_endpoint.RateLimit.EventLog.Ascending.{live_count}
use retry_endpoint.RateLimit.Tiers
use retry_endpoint.RateLimit.Tiers.{SeqKey-discrete}
use retry_endpoint.RateLimit.Tiers.Order.{Asked, allow-Asked}
use retry_endpoint.RateLimit.Window
use retry_endpoint.RateLimit.Window.Refines.{Admits, allow-Admits}
use retry_endpoint.RateLimit.Window.Tracks.{Tracks, new-Tracks}
use retry_endpoint.RateLimit.Window.Runs.{
  IsTimed, reference, run, only, decisions, admitted_times, run-new, run_bounded, run-only,
}
use retry_endpoint.Tests.Values.{lib, advert, runtime, limits, memory, memory-Holds}

-- Four requests of key 1 and one of key 2, with a limit of 2 in a window of 10.
abbrev requests : List (ℕ × ℕ)
requests = (1, 0) ∷ (1, 4) ∷ (2, 4) ∷ (1, 5) ∷ (1, 12) ∷ []

requests-IsTimed : IsTimed ℕ_discrete 0 requests
requests-IsTimed = (omega arith, (omega arith, (omega arith, (omega arith, (omega arith, tt)))))

run-new_example :
    run ℕ_discrete ◌+◌ (Window.new 2 10 100) requests
    ≡ some (reference ℕ_discrete 10 2 (λ _. []) requests)
run-new_example = run-new ℕ_discrete ◌+◌ 2 10 100 requests requests-IsTimed

-- The third request of key 1 is refused, the one after the first has left the window is not.
reference_test :
    reference ℕ_discrete 10 2 (λ _. []) requests ≡ (true ∷ true ∷ true ∷ false ∷ true ∷ [])
unfolding reference ℕ_discrete dec_lt
reference_test = refl

run_bounded_example :
    (bs : List Bool) × (run ℕ_discrete ◌+◌ (Window.new 2 10 100) requests ≡ some bs)
    × (live_count 10 12 (admitted_times ℕ_discrete 1 requests bs) ≤ 2)
run_bounded_example =
    run_bounded ℕ_discrete ◌+◌ 2 10 100 12 1 requests requests-IsTimed (omega arith)

run-only_example :
    run ℕ_discrete ◌+◌ (Window.new 2 10 100) (only ℕ_discrete 1 requests)
    ≡ some (decisions ℕ_discrete 1 requests (reference ℕ_discrete 10 2 (λ _. []) requests))
run-only_example =
    run-only ℕ_discrete ◌+◌ 2 10 100 1 requests requests-IsTimed
      (run-new ℕ_discrete ◌+◌ 2 10 100 requests requests-IsTimed)

abbrev first_request :
    Admits ℕ_discrete ◌+◌ 10 2 3 (λ _. []) 1 (Window.allow ℕ_discrete ◌+◌ (Window.new 2 10 100) 1 3)
unfolding Window.new
first_request =
    allow-Admits ℕ_discrete ◌+◌ 0 3 (Window.new 2 10 100) (λ _. []) 1
      (new-Tracks ℕ_discrete 2 10 100) (omega arith)

limits-Tracks : Tracks SeqKey-discrete 0 (Tiers.new runtime limits).sequence_limiter (λ _. [])
unfolding Tiers.new Tiers.default_sequence_window
limits-Tracks = new-Tracks SeqKey-discrete 2 1000 100000

allow-Asked_example :
    Asked runtime 0
      (Tiers.new runtime limits)
      (λ _. [])
      (1 ∷ [])
      7
      5
      100
      100
      (Tiers.allow runtime (Tiers.new runtime limits) (1 ∷ []) 7 5 100 100)
allow-Asked_example =
    allow-Asked runtime 0 (Tiers.new runtime limits) (λ _. []) (1 ∷ []) 7 5 100 100 limits-Tracks
      (omega arith)

-- The views of the frames and of the claims.
abbrev frames : Cache.Store
frames = record { prefix = 102 ∷ 58 ∷ []; op_timeout = pos 1; is_local = true }

abbrev claims : Cache.Store
claims = record { prefix = 100 ∷ 58 ∷ []; op_timeout = pos 1; is_local = true }

abbrev first_frame : List ℕ
first_frame = 7 ∷ []

-- A frame is stored, a claim is made under its key, and another frame is stored and looked up.
abbrev traffic : List Op
traffic =
    Op.set_nx claims (1 ∷ []) (9 ∷ []) (pos 1)
    ∷ Op.store frames (2 ∷ []) (8 ∷ []) (pos 1)
    ∷ Op.retrieve frames (2 ∷ [])
    ∷ Op.delete claims (1 ∷ [])
    ∷ []

claims-IsElsewhere : IsElsewhere frames (1 ∷ []) claims (1 ∷ [])
claims-IsElsewhere = inr (refl, λ e. omega (arith, ap (λ (xs : List ℕ). get_or xs 0 0) e))

traffic-Spares : Spares frames (1 ∷ []) traffic
traffic-Spares = (
  claims-IsElsewhere,
  (inl (refl, λ e. omega (arith, ap (λ (xs : List ℕ). get_or xs 0 0) e)), (claims-IsElsewhere, tt)),
)

traffic_found :
    (Cache.retrieve memory frames (1 ∷ []) (
      Views.run memory traffic
        (Cache.store memory frames (1 ∷ []) first_frame (pos 1) (λ k. none)).1)).0
    ≡ Got.found first_frame
unfolding Cache.retrieve Cache.store Cache.set_nx Cache.delete Cache.key ℕ_discrete
traffic_found = refl

memory_stores : (Cache.store memory frames (1 ∷ []) first_frame (pos 1) (λ k. none)).0 ≡ true
unfolding Cache.store
memory_stores = refl

retrieve-run_example : first_frame ≡ first_frame
retrieve-run_example =
    retrieve-run memory (λ st k. st k) memory-Holds frames (1 ∷ []) first_frame first_frame (pos 1)
      (λ k. none) traffic memory_stores traffic-Spares traffic_found

-- Every group is dialled, and the connections are numbered.
abbrev dialling : Sender.Net ℕ
dialling = record {
  dial = λ w a. (some w, suc w);
  write = λ w c buf. (true, w);
  close = λ w c. (true, w);
}

run_rounds_example :
    let done =
      (Sender.run dialling lib
        (λ d. 60)
        (λ prefix id. to_be 2 prefix)
        advert
        2
        (record { world = 0; calls = [] })).1 in
    (Rounds.writes 0 done.calls ≡ 3 * Rounds.dials 0 done.calls)
    × (Rounds.closes 0 done.calls ≡ Rounds.dials 0 done.calls)
    × Rounds.Carries (build_advert lib (λ d. 60) advert) done.calls
run_rounds_example = run_rounds dialling 0 lib (λ d. 60) (λ prefix id. to_be 2 prefix) advert 2 0
