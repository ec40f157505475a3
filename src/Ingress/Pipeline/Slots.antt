-- ===== src/Ingress/Pipeline/Slots.antt =====
-- The slots of `receive` (ingress/pipeline.go): a ring of reusable buffers that move between the free
-- list, the receiver's batch, the queues and the processors, as a step relation. A slot is its
-- number; what it holds is another matter.
use retry_endpoint.Ingress.Pipeline.{recv_batch_size}
use retry_endpoint.Prelude.{
  ℕ, zero, suc, ◌+◌, ◌-◌, ◌*◌, ◌≤◌, ◌<◌, ◌≡◌, ◌≢◌, refl, sym, ap, ◌∙◌, Bool, true, false, Option,
  none, some, List, [], ◌∷◌, ◌++◌, ◌/◌, arith, ◌==◌, if◌then◌else◌,
}
pub mod Blocking

-- One processing goroutine: its queue, and the slot that it handles.
pub record Proc : Type 0 where
  pub queue : List ℕ
  pub current : Option ℕ

-- `waiting` says that the receiver stands at `batch[i] = <-free`.
pub record State : Type 0 where
  pub free : List ℕ
  pub batch : List ℕ
  pub waiting : Bool
  pub procs : List Proc

-- The sum of a weight over slots, and over processors.
unfoldable pub weigh : (ℕ → ℕ) → List ℕ → ℕ
weigh f [] = 0
weigh f (s ∷ ss) = f s + weigh f ss

unfoldable pub sum_procs : (Proc → ℕ) → List Proc → ℕ
sum_procs g [] = 0
sum_procs g (p ∷ ps) = g p + sum_procs g ps

abbrev pub one : ℕ → ℕ
one s = 1

-- What a processor holds.
abbrev pub in_hand : (ℕ → ℕ) → Option ℕ → ℕ
in_hand f none = 0
in_hand f (some s) = f s

abbrev pub held : (ℕ → ℕ) → Proc → ℕ
held f p = weigh f p.queue + in_hand f p.current

-- All slots there are.
unfoldable pub total : (ℕ → ℕ) → State → ℕ
total f st = weigh f st.free + (weigh f st.batch + sum_procs (held f) st.procs)

-- The steps, the queues holding up to `per` slots.
pub data Step (per : ℕ) : State → State → Type 0 where
  -- `case q <- s`, to the queue of the processor `p`.
  submit :
      (free batch rest queue : List ℕ) (current : Option ℕ) (before after : List Proc) (s : ℕ)
      → suc (weigh one queue) ≤ per
      → Step per
          record {
            free = free;
            batch = batch ++ (s ∷ rest);
            waiting = false;
            procs = before ++ (record { queue = queue; current = current } ∷ after);
          }
          record {
            free = free;
            batch = batch ++ rest;
            waiting = true;
            procs = before ++ (record { queue = queue ++ (s ∷ []); current = current } ∷ after);
          }
  -- `batch[i] = <-free`
  refill :
      (s : ℕ) (free batch rest : List ℕ) (procs : List Proc)
      → Step per
          record { free = s ∷ free; batch = batch ++ rest; waiting = true; procs = procs }
          record { free = free; batch = batch ++ (s ∷ rest); waiting = false; procs = procs }
  -- `for s := range q`
  take_slot :
      (free batch queue : List ℕ) (waiting : Bool) (before after : List Proc) (s : ℕ)
      → Step per
          record {
            free = free;
            batch = batch;
            waiting = waiting;
            procs = before ++ (record { queue = s ∷ queue; current = none } ∷ after);
          }
          record {
            free = free;
            batch = batch;
            waiting = waiting;
            procs = before ++ (record { queue = queue; current = some s } ∷ after);
          }
  -- `free <- s`, after `p.handle(s)`
  give_back :
      (free batch queue : List ℕ) (waiting : Bool) (before after : List Proc) (s : ℕ)
      → Step per
          record {
            free = free;
            batch = batch;
            waiting = waiting;
            procs = before ++ (record { queue = queue; current = some s } ∷ after);
          }
          record {
            free = free ++ (s ∷ []);
            batch = batch;
            waiting = waiting;
            procs = before ++ (record { queue = queue; current = none } ∷ after);
          }

-- Any number of steps.
pub data Reach (per : ℕ) (start : State) : State → Type 0 where
  here : Reach per start start
  next : {st st' : State} → Reach per start st → Step per st st' → Reach per start st'

weigh-append : (f : ℕ → ℕ) (xs ys : List ℕ) → weigh f (xs ++ ys) ≡ weigh f xs + weigh f ys
unfolding weigh
weigh-append f [] ys = omega arith
weigh-append f (x ∷ xs) ys = omega (arith, weigh-append f xs ys)

sum_procs-append :
    (g : Proc → ℕ) (ps qs : List Proc) → sum_procs g (ps ++ qs) ≡ sum_procs g ps + sum_procs g qs
unfolding sum_procs
sum_procs-append g [] qs = omega arith
sum_procs-append g (p ∷ ps) qs = omega (arith, sum_procs-append g ps qs)

-- No step makes or loses a slot.
Step-total : (per : ℕ) (f : ℕ → ℕ) {st st' : State} → Step per st st' → total f st' ≡ total f st
unfolding total weigh sum_procs
Step-total per f (Step.submit free batch rest queue current before after s room) = omega (
  arith,
  weigh-append f batch rest,
  weigh-append f batch (s ∷ rest),
  weigh-append f queue (s ∷ []),
  sum_procs-append (held f) before (record { queue = queue; current = current } ∷ after),
  sum_procs-append (held f) before
      (record { queue = queue ++ (s ∷ []); current = current } ∷ after),
)
Step-total per f (Step.refill s free batch rest procs) =
    omega (arith, weigh-append f batch rest, weigh-append f batch (s ∷ rest))
Step-total per f (Step.take_slot free batch queue waiting before after s) = omega (
  arith,
  sum_procs-append (held f) before (record { queue = s ∷ queue; current = none } ∷ after),
  sum_procs-append (held f) before (record { queue = queue; current = some s } ∷ after),
)
Step-total per f (Step.give_back free batch queue waiting before after s) = omega (
  arith,
  weigh-append f free (s ∷ []),
  sum_procs-append (held f) before (record { queue = queue; current = none } ∷ after),
  sum_procs-append (held f) before (record { queue = queue; current = some s } ∷ after),
)

-- `n` slots from number `a` on.
unfoldable pub slots_from : ℕ → ℕ → List ℕ
slots_from a zero = []
slots_from a (suc n) = a ∷ slots_from (suc a) n

unfoldable pub idle_procs : ℕ → List Proc
idle_procs zero = []
idle_procs (suc n) = record { queue = []; current = none } ∷ idle_procs n

-- `per := (depth + procs - 1) / procs`, for positive numbers.
unfoldable pub per_queue : ℕ → ℕ → ℕ
per_queue depth procs = (depth + procs - 1) / procs

-- `total`, the number of slots.
unfoldable pub slot_count : ℕ → ℕ → ℕ
slot_count per procs = per * procs + procs + recv_batch_size

-- The slots once the batch is filled from the free list, when the loop starts.
unfoldable pub first_state : ℕ → ℕ → State
first_state per procs = record {
  free = slots_from recv_batch_size (per * procs + procs);
  batch = slots_from 0 recv_batch_size;
  waiting = false;
  procs = idle_procs procs;
}
