-- ===== src/Ingress/Pipeline/Slots/Blocking.antt =====
-- The sizes of the free list, the batch and the queues (ingress/pipeline.go, `receive`).
use retry_endpoint.Ingress.Pipeline.{recv_batch_size}
use retry_endpoint.Ingress.Pipeline.Slots.{
  Proc, State, Step, Reach, weigh, sum_procs, one, held, in_hand, total, Step-total, weigh-append,
  sum_procs-append, slots_from, idle_procs, slot_count, first_state,
}
use retry_endpoint.Prelude.{
  ℕ, zero, suc, ◌+◌, ◌-◌, ◌*◌, ◌≤◌, ◌<◌, ◌≡◌, refl, ap, ◌∙◌, Bool, true, false, Option, none, some,
  List, [], ◌∷◌, ◌++◌, arith, ◌==◌, leb, ltb, ◌&&◌, if◌then◌else◌,
}

-- A slot that is this one.
abbrev pub is : ℕ → ℕ → ℕ
is k s = if s == k then 1 else 0

abbrev pub owed : Bool → ℕ
owed true = 1
owed false = 0

-- What holds in every state: no queue above its size, and the receiver's batch full, but for the
-- slot that it waits for.
pub record Fits (per room : ℕ) (st : State) : Type 0 where
  pub within : sum_procs (λ p. weigh one p.queue - per) st.procs ≡ 0
  pub same_room : sum_procs (λ p. suc per) st.procs ≡ room
  pub full : weigh one st.batch + owed st.waiting ≡ recv_batch_size

Step-Fits : (per room : ℕ) {st st' : State} → Step per st st' → Fits per room st → Fits per room st'
unfolding weigh sum_procs
Step-Fits per room (Step.submit free batch rest queue current before after s le) h =
    let old = record { queue = queue; current = current } ∷ after in
    let new = record { queue = queue ++ (s ∷ []); current = current } ∷ after in
    record {
      within = omega (
        arith,
        h.within,
        weigh-append one queue (s ∷ []),
        sum_procs-append (λ p. weigh one p.queue - per) before old,
        sum_procs-append (λ p. weigh one p.queue - per) before new,
      );
      same_room = omega (
        arith,
        h.same_room,
        sum_procs-append (λ p. suc per) before old,
        sum_procs-append (λ p. suc per) before new,
      );
      full = omega (arith, h.full, weigh-append one batch rest, weigh-append one batch (s ∷ rest));
    }
Step-Fits per room (Step.refill s free batch rest procs) h = record {
  within = h.within;
  same_room = h.same_room;
  full = omega (arith, h.full, weigh-append one batch rest, weigh-append one batch (s ∷ rest));
}
Step-Fits per room (Step.take_slot free batch queue waiting before after s) h =
    let old = record { queue = s ∷ queue; current = none } ∷ after in
    let new = record { queue = queue; current = some s } ∷ after in
    record {
      within = omega (
        arith,
        h.within,
        sum_procs-append (λ p. weigh one p.queue - per) before old,
        sum_procs-append (λ p. weigh one p.queue - per) before new,
      );
      same_room = omega (
        arith,
        h.same_room,
        sum_procs-append (λ p. suc per) before old,
        sum_procs-append (λ p. suc per) before new,
      );
      full = h.full;
    }
Step-Fits per room (Step.give_back free batch queue waiting before after s) h =
    let old = record { queue = queue; current = some s } ∷ after in
    let new = record { queue = queue; current = none } ∷ after in
    record {
      within = omega (
        arith,
        h.within,
        sum_procs-append (λ p. weigh one p.queue - per) before old,
        sum_procs-append (λ p. weigh one p.queue - per) before new,
      );
      same_room = omega (
        arith,
        h.same_room,
        sum_procs-append (λ p. suc per) before old,
        sum_procs-append (λ p. suc per) before new,
      );
      full = h.full;
    }

-- Processors hold no more than their queues have room for, and one slot each.
in_hand_le : (current : Option ℕ) → in_hand one current ≤ 1
in_hand_le none = omega arith
in_hand_le (some s) = omega arith

held_le :
    (per : ℕ) (ps : List Proc)
    → sum_procs (λ p. weigh one p.queue - per) ps ≡ 0
    → sum_procs (held one) ps ≤ sum_procs (λ p. suc per) ps
unfolding sum_procs
held_le per [] h = omega arith
held_le per (p ∷ ps) h = omega (arith, h, in_hand_le p.current, held_le per ps (omega (arith, h)))

-- The first state.
weigh-slots_from : (a n : ℕ) → weigh one (slots_from a n) ≡ n
unfolding weigh slots_from
weigh-slots_from a zero = refl
weigh-slots_from a (suc n) = omega (arith, weigh-slots_from (suc a) n)

weigh-slots_from_is :
    (k a n : ℕ) → weigh (is k) (slots_from a n) ≡ (if leb a k && ltb k (a + n) then 1 else 0)
unfolding weigh slots_from
weigh-slots_from_is k a zero = ground arith
weigh-slots_from_is k a (suc n) = ground (arith, weigh-slots_from_is k (suc a) n)

idle_procs-room : (per n : ℕ) → sum_procs (λ p. suc per) (idle_procs n) ≡ per * n + n
unfolding sum_procs idle_procs
idle_procs-room per zero = omega arith
idle_procs-room per (suc n) = grind (arith, idle_procs-room per n)

idle_procs-held : (f : ℕ → ℕ) (n : ℕ) → sum_procs (held f) (idle_procs n) ≡ 0
unfolding sum_procs idle_procs weigh
idle_procs-held f zero = refl
idle_procs-held f (suc n) = omega (arith, idle_procs-held f n)

idle_procs-within : (per n : ℕ) → sum_procs (λ p. weigh one p.queue - per) (idle_procs n) ≡ 0
unfolding sum_procs idle_procs weigh
idle_procs-within per zero = refl
idle_procs-within per (suc n) = omega (arith, idle_procs-within per n)

first_state-Fits : (per n : ℕ) → Fits per (per * n + n) (first_state per n)
unfolding first_state
first_state-Fits per n = record {
  within = idle_procs-within per n;
  same_room = idle_procs-room per n;
  full = omega (arith, weigh-slots_from 0 recv_batch_size);
}

first_state-one : (per n : ℕ) → total one (first_state per n) ≡ slot_count per n
unfolding first_state total slot_count
first_state-one per n = omega (
  arith,
  weigh-slots_from 0 recv_batch_size,
  weigh-slots_from recv_batch_size (per * n + n),
  idle_procs-held one n,
)

first_state-is : (per n k : ℕ) → k < slot_count per n → total (is k) (first_state per n) ≡ 1
unfolding first_state total slot_count
first_state-is per n k h = ground (
  arith,
  h,
  weigh-slots_from_is k 0 recv_batch_size,
  weigh-slots_from_is k recv_batch_size (per * n + n),
  idle_procs-held (is k) n,
)

Reach-total :
    (per : ℕ) (f : ℕ → ℕ) {start st : State} → Reach per start st → total f st ≡ total f start
Reach-total per f Reach.here = refl
Reach-total per f (Reach.next way step) = Step-total per f step ∙ Reach-total per f way

Reach-Fits :
    (per room : ℕ) {start st : State} → Reach per start st → Fits per room start → Fits per room st
Reach-Fits per room Reach.here h = h
Reach-Fits per room (Reach.next way step) h = Step-Fits per room step (Reach-Fits per room way h)

-- The receiver at `<-free` finds a slot there; the free list has room for every slot that is in
-- hand; and each slot is in one place only.
pub record NeverBlocks (per n : ℕ) (st : State) : Type 0 where
  pub refills : st.waiting ≡ true → 1 ≤ weigh one st.free
  pub returns : weigh one st.free + sum_procs (held one) st.procs ≤ slot_count per n
  pub unique : (k : ℕ) → k < slot_count per n → total (is k) st ≡ 1

-- In every state that the receive loop, its queues of `per` slots and its `n` processors reach, in
-- any interleaving: when the receiver takes a slot from the free list to refill its batch there is
-- one, a processor that returns its slot finds room in the free list, and every slot is in exactly
-- one place.
pub Reach-NeverBlocks :
    (per n : ℕ) {st : State} → Reach per (first_state per n) st → NeverBlocks per n st
unfolding total slot_count
Reach-NeverBlocks per n {st} way =
    let fits = Reach-Fits per (per * n + n) way (first_state-Fits per n) in
    let all = Reach-total per one way ∙ first_state-one per n in
    let le = held_le per st.procs fits.within in
    record {
      refills = λ e. omega (arith, all, le, fits.same_room, fits.full, ap owed e);
      returns = omega (arith, all);
      unique = λ k h. Reach-total per (is k) way ∙ first_state-is per n k h;
    }
