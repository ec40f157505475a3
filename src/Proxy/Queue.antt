-- ===== src/Proxy/Queue.antt =====
-- The bounded queue of recovery jobs (proxy/proxy.go, `Enqueue` and the receive in `Start`).
use retry_endpoint.Prelude.{
  ℕ, ◌≤◌, ◌≡◌, refl, sym, ap, ◌∙◌, Bool, true, false, Option, none, some, List, [], ◌∷◌, ◌++◌, ltb,
  if◌then◌else◌, length, length-append, arith, suc, ltb→lt,
}
use mathlib.Core.List.{append_assoc}
use retry_endpoint.Prelude.Int.{to_ℕ}
use retry_endpoint.Proxy.{Config, Job}

-- The channel, and the count of ProxyQueueDropped.
pub record Queue : Type 0 where
  pub jobs : List Job
  pub dropped : ℕ

module _ (cfg : Config) where
  -- `Enqueue`
  unfoldable pub enqueue : Job → Queue → Bool × Queue
  enqueue j q =
      if ltb (length q.jobs) (to_ℕ cfg.queue_depth)
      then (true, record q { jobs = q.jobs ++ (j ∷ []) })
      else (false, record q { dropped = (if cfg.rec then suc q.dropped else q.dropped) })

  -- What a worker receives; it waits on an empty channel.
  unfoldable pub dequeue : Queue → Option Job × Queue
  dequeue q = elim q.jobs [ [] ↦ (none, q) | j ∷ js ↦ (some j, record q { jobs = js }) ]

-- What server workers and recovery workers do to the queue, in the order in which they do it.
pub data Op : Type 0 where
  submit : Job → Op
  receive : Op

-- A history: the jobs that were accepted and those that were received, in order, and the queue.
pub record Trace : Type 0 where
  pub accepted : List Job
  pub received : List Job
  pub queue : Queue

abbrev pub empty : Queue
empty = record { jobs = []; dropped = 0 }

module _ (cfg : Config) where
  abbrev submitted : Job → Trace → Bool × Queue → Trace
  submitted j t (true, q) = record t { accepted = t.accepted ++ (j ∷ []); queue = q }
  submitted j t (false, q) = record t { queue = q }

  abbrev received : Trace → Option Job × Queue → Trace
  received t (some j, q) = record t { received = t.received ++ (j ∷ []); queue = q }
  received t (none, q) = record t { queue = q }

  abbrev pub step : Op → Trace → Trace
  step (Op.submit j) t = submitted j t (enqueue cfg j t.queue)
  step Op.receive t = received t (dequeue cfg t.queue)

  abbrev pub run : List Op → Trace → Trace
  run [] t = t
  run (op ∷ ops) t = run ops (step op t)

  -- The queue holds what was accepted and not yet received, in order, within its depth.
  abbrev pub IsFifo : Trace → Type 0
  IsFifo t =
      (t.accepted ≡ t.received ++ t.queue.jobs) × (length t.queue.jobs ≤ to_ℕ cfg.queue_depth)

  receive-IsFifo :
      (accepted received : List Job) (dropped : ℕ) (jobs : List Job)
      → (accepted ≡ received ++ jobs) × (length jobs ≤ to_ℕ cfg.queue_depth)
      → IsFifo (
          step Op.receive record {
            accepted = accepted;
            received = received;
            queue = record { jobs = jobs; dropped = dropped };
          })
  unfolding dequeue
  receive-IsFifo accepted received dropped [] f = f
  receive-IsFifo accepted received dropped (j ∷ js) f =
      (f.0 ∙ sym (append_assoc received (j ∷ []) js), omega (arith, f.1))

  step-IsFifo : (op : Op) (t : Trace) → IsFifo t → IsFifo (step op t)
  unfolding enqueue
  step-IsFifo (Op.submit j) t f = go (ltb (length t.queue.jobs) (to_ℕ cfg.queue_depth)) refl
    where
      go :
          (b : Bool)
          → ltb (length t.queue.jobs) (to_ℕ cfg.queue_depth) ≡ b
          → IsFifo (
              submitted j t (
                if b then (true, record t.queue { jobs = t.queue.jobs ++ (j ∷ []) }) else (
                  false,
                  record t.queue {
                    dropped = (if cfg.rec then suc t.queue.dropped else t.queue.dropped);
                  },
                )))
      go true e = (
        ap (λ xs. xs ++ (j ∷ [])) f.0 ∙ append_assoc t.received t.queue.jobs (j ∷ []),
        omega (arith, length-append t.queue.jobs (j ∷ []), ltb→lt _ _ e),
      )
      go false e = f
  step-IsFifo Op.receive t f = receive-IsFifo t.accepted t.received t.queue.dropped t.queue.jobs f

  -- From an empty queue, whatever the order in which jobs are submitted and received: the jobs that
  -- were accepted are those that were received followed by those still queued, in the order of
  -- their submission; and the queue never holds more jobs than its depth.
  pub run-IsFifo :
      (ops : List Op) → IsFifo (run ops record { accepted = []; received = []; queue = empty })
  run-IsFifo ops = go ops _ (refl, omega arith)
    where
      go : (ops : List Op) (t : Trace) → IsFifo t → IsFifo (run ops t)
      go [] t f = f
      go (op ∷ ops) t f = go ops (step op t) (step-IsFifo op t f)
