-- ===== src/RateLimit/Window/Runs.antt =====
-- Whole runs of a sliding-window limiter (ratelimit/ratelimit.go, `slidingWindowLimiter.Allow`).
use mathlib.Core.List.{append-nil, append_assoc}
use mathlib.Core.Option
use mathlib.Core.Option.{some-injective}
use retry_endpoint.Prelude.{
  ℕ, ◌+◌, ◌≤◌, ◌≡◌, refl, sym, ap, ap₂, ◌∙◌, Bool, Option, none, some, List, [], ◌∷◌, ◌++◌, arith,
  ltb, ite, if_pos, if_neg,
}
use retry_endpoint.RateLimit.EventLog.Ascending.{live_count, live_count-append, live_count_later}
use retry_endpoint.RateLimit.EventLog.Exact.{admitted}
use retry_endpoint.RateLimit.Window
use retry_endpoint.RateLimit.Window.{Limiter}
use retry_endpoint.RateLimit.Window.Refines.{allow-Admits}
use retry_endpoint.RateLimit.Window.Tracks.{History, note, Tracks, note_ne, new-Tracks}

admitted-bounded :
    (w now m : ℕ) (xs : List ℕ) (ok : Bool)
    → ok ≡ ltb (live_count w now xs) m
    → live_count w now xs ≤ m
    → live_count w now xs + live_count w now (admitted ok now) ≤ m
admitted-bounded w now m xs ok e le = ground arith

module _ {K : Type 0} (dec : Discrete K) where
  -- Requests in the order in which they take the lock, the clock being read under it.
  abbrev pub IsTimed : ℕ → List (K × ℕ) → Type 0
  IsTimed last [] = Unit
  IsTimed last ((key, now) ∷ es) = (last ≤ now) × IsTimed now es

  -- The limiter that keeps every admitted event for ever and counts those within the window.
  unfoldable pub reference : ℕ → ℕ → History dec → List (K × ℕ) → List Bool
  reference w m h [] = []
  reference w m h ((key, now) ∷ es) =
      let ok = ltb (live_count w now (h key)) m in ok ∷ reference w m (note dec h key ok now) es

  -- The requests of one key, and the decisions that a run makes on them.
  unfoldable pub only : K → List (K × ℕ) → List (K × ℕ)
  only k [] = []
  only k ((key, now) ∷ es) = let rest = only k es in ite (dec key k) ((key, now) ∷ rest) rest

  unfoldable pub decisions : K → List (K × ℕ) → List Bool → List Bool
  decisions k [] bs = []
  decisions k (e ∷ es) [] = []
  decisions k ((key, now) ∷ es) (b ∷ bs) =
      let rest = decisions k es bs in ite (dec key k) (b ∷ rest) rest

  -- The times at which a run admitted a key.
  unfoldable pub admitted_times : K → List (K × ℕ) → List Bool → List ℕ
  admitted_times k [] bs = []
  admitted_times k (e ∷ es) [] = []
  admitted_times k ((key, now) ∷ es) (b ∷ bs) =
      ite (dec key k) (admitted b now) [] ++ admitted_times k es bs

  reference-only :
      (w m : ℕ) (h g : History dec) (k : K) (es : List (K × ℕ))
      → h k ≡ g k
      → decisions k es (reference w m h es) ≡ reference w m g (only k es)
  unfolding reference only decisions
  reference-only w m h g k [] e = refl
  reference-only w m h g k ((key, now) ∷ es) e = elim (dec key k) [
    | yes p ↦
        rw (if_pos (dec key k) p, if_pos (dec key k) p)
          (ap₂ ◌∷◌ (agree p) (
            reference-only w m (note dec h key ok now) (note dec g key ok' now) k es (
              ap₂ (λ (xs : List ℕ) (b : Bool). xs ++ ite (dec key k) (admitted b now) []) e
                (agree p))))
    | no p ↦
        rw (if_neg (dec key k) p, if_neg (dec key k) p)
          (reference-only w m (note dec h key ok now) g k es (note_ne dec h key ok now k p ∙ e))
  ]
    where
      ok : Bool
      ok = ltb (live_count w now (h key)) m

      ok' : Bool
      ok' = ltb (live_count w now (g key)) m

      agree : key ≡ k → ok ≡ ok'
      agree p = ap (λ (xs : List ℕ). ltb (live_count w now xs) m) (ap h p ∙ e ∙ sym (ap g p))

  IsTimed-lower : (last now : ℕ) (es : List (K × ℕ)) → last ≤ now → IsTimed now es → IsTimed last es
  IsTimed-lower last now [] le ts = tt
  IsTimed-lower last now ((key, t) ∷ es) le ts = (omega arith, ts.1)

  only-IsTimed : (k : K) (last : ℕ) (es : List (K × ℕ)) → IsTimed last es → IsTimed last (only k es)
  unfolding only
  only-IsTimed k last [] ts = tt
  only-IsTimed k last ((key, now) ∷ es) ts = elim (dec key k) [
    | yes p ↦ rw (if_pos (dec key k) p) (ts.0, only-IsTimed k now es ts.1)
    | no p ↦
        rw (if_neg (dec key k) p)
          (IsTimed-lower last now (only k es) ts.0 (only-IsTimed k now es ts.1))
  ]

  -- The time of the last request of a run.
  abbrev pub final : ℕ → List (K × ℕ) → ℕ
  final last [] = last
  final last ((key, now) ∷ es) = final now es

  -- What a key has been admitted within the window never exceeds the limit.
  reference-bounded :
      (w m n last : ℕ) (h : History dec) (k : K) (es : List (K × ℕ))
      → IsTimed last es
      → final last es ≤ n
      → live_count w last (h k) ≤ m
      → live_count w n (h k ++ admitted_times k es (reference w m h es)) ≤ m
  unfolding reference admitted_times
  reference-bounded w m n last h k [] ts le b =
      rw append-nil (omega (arith, live_count_later w last n (h k) le))
  reference-bounded w m n last h k ((key, now) ∷ es) ts le b =
      rw (← append_assoc)
        (reference-bounded w m n now (note dec h key ok now) k es ts.1 le (step (dec key k)))
    where
      ok : Bool
      ok = ltb (live_count w now (h key)) m

      step : (d : Dec (key ≡ k)) → live_count w now (h k ++ ite d (admitted ok now) []) ≤ m
      step (yes p) = rw live_count-append (
          admitted-bounded w now m (h k) ok
            (ap (λ (xs : List ℕ). ltb (live_count w now xs) m) (ap h p))
            (omega (arith, live_count_later w last now (h k) ts.0)))
      step (no p) = rw append-nil (omega (arith, live_count_later w last now (h k) ts.0))

  module _ (grow : ℕ → ℕ → ℕ) where
    unfoldable pub run : Limiter K → List (K × ℕ) → Option (List Bool)
    run r [] = some []
    run r ((key, now) ∷ es) = elim (Window.allow dec grow r key now) [
      | none ↦ none
      | some (ok, r') ↦ Option.map (λ bs. ok ∷ bs) (run r' es)
    ]

    run-reference :
        (last : ℕ) (r : Limiter K) (h : History dec) (es : List (K × ℕ))
        → Tracks dec last r h
        → IsTimed last es
        → run r es ≡ some (reference r.window r.max_events h es)
    unfolding run reference
    run-reference last r h [] t ts = refl
    run-reference last r h ((key, now) ∷ es) t ts =
        let a = allow-Admits dec grow last now r h key t ts.0 in
        rw (a.returns, run)
          (rw (run-reference now a.next _ es a.tracks ts.1) (rw (a.same_window, a.same_max) refl))

    -- A new limiter, called at times that never decrease, never indexes out of range, and decides
    -- each request exactly as the limiter that keeps every admitted event for ever: a request is
    -- admitted if and only if fewer than `limit` events of its key are within the window.
    pub run-new :
        (limit window max_keys : ℕ) (es : List (K × ℕ))
        → IsTimed 0 es
        → run (Window.new limit window max_keys) es ≡ some (reference window limit (λ _. []) es)
    unfolding Window.new
    run-new limit window max_keys es ts =
        run-reference 0 (Window.new limit window max_keys) (λ _. []) es
          (new-Tracks dec limit window max_keys) ts

    -- A run at times that never decrease returns, and of what it admitted no more than `limit`
    -- events of any key lie within the window that ends at any moment from its last request on.
    pub run_bounded :
        (limit window max_keys n : ℕ) (k : K) (es : List (K × ℕ))
        → IsTimed 0 es
        → final 0 es ≤ n
        → (bs : List Bool) × (run (Window.new limit window max_keys) es ≡ some bs)
          × (live_count window n (admitted_times k es bs) ≤ limit)
    run_bounded limit window max_keys n k es ts le = (
      reference window limit (λ _. []) es,
      run-new limit window max_keys es ts,
      reference-bounded window limit n 0 (λ _. []) k es ts le (omega arith),
    )

    -- The decisions on one key in a run at times that never decrease are those of the run of that
    -- key's requests alone: requests under other keys neither cost it an event nor grant it one.
    pub run-only :
        (limit window max_keys : ℕ) (k : K) (es : List (K × ℕ)) {bs : List Bool}
        → IsTimed 0 es
        → run (Window.new limit window max_keys) es ≡ some bs
        → run (Window.new limit window max_keys) (only k es) ≡ some (decisions k es bs)
    run-only limit window max_keys k es {bs} ts e =
        run-new limit window max_keys (only k es) (only-IsTimed k 0 es ts)
        ∙ ap some (
            sym (reference-only window limit (λ _. []) (λ _. []) k es refl)
            ∙ ap (decisions k es)
                (some-injective _ _ (sym (run-new limit window max_keys es ts) ∙ e)))
