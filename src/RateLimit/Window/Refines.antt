-- ===== src/RateLimit/Window/Refines.antt =====
-- One call of the sliding-window limiter against the limiter that keeps every admitted event for
-- ever (ratelimit/ratelimit.go, `allowLocked`).

use mathlib.Core.Path.{subst₂}
use retry_endpoint.Prelude.{
  ℕ, ◌+◌, ◌≤◌, ◌≡◌, refl, Bool, ◌||◌, Option, none, some, arith, ltb, leb, subst, ap, ◌∙◌, leb,
  ◌||◌, length, if_pos, Bool-cases, Option-cases, inl, inr, length,
}
use retry_endpoint.Prelude.Assoc.{lookup, insert, lookup-insert, lookup-keep}
use retry_endpoint.RateLimit.EventLog
use retry_endpoint.RateLimit.EventLog.{EventLog, events, fresh, idle}
use retry_endpoint.RateLimit.EventLog.Ascending.{live_count, live_count-append}
use retry_endpoint.RateLimit.EventLog.Exact.{fresh-IsValid, admitted, Decided, allow-Decided}
use retry_endpoint.RateLimit.Window
use retry_endpoint.RateLimit.Window.{Limiter, evict_expired, sweep_if_due, add_key, record_event}
use retry_endpoint.RateLimit.Window.Tracks.{
  Tracks, History, note, evict_expired-Tracks, insert-Tracks, note_self, note_ne, Tracks-raise,
  IsValid-of_some,
}

module _ {K : Type 0} (dec : Discrete K) where
  -- What the sweep before a new key leaves.
  record Swept (now : ℕ) (r : Limiter K) (h : History dec) (s : Limiter K) : Type 0 where
    tracks : Tracks dec now s h
    absent : (k : K) → lookup dec k r.keys ≡ none → lookup dec k s.keys ≡ none
    same_window : s.window ≡ r.window
    same_max : s.max_events ≡ r.max_events

  sweep_if_due-Swept :
      (now : ℕ) (r : Limiter K) (h : History dec)
      → Tracks dec now r h
      → Swept now r h (sweep_if_due r now)
  unfolding sweep_if_due
  sweep_if_due-Swept now r h t =
      elim (Bool-cases (leb r.sweep_at (length r.keys) || leb (r.last_sweep + r.window) now)) [
        | inl due ↦ rw due (record {
          tracks = evict_expired-Tracks dec now r h t;
          absent =
              λ k e. unfold evict_expired in rw (lookup-keep dec _ k r.keys t.distinct, e) refl;
          same_window = unfold evict_expired in refl;
          same_max = unfold evict_expired in refl;
        })
        | inr early ↦
            rw early (record { tracks = t; absent = λ k e. e; same_window = refl; same_max = refl })
      ]

  module _ (grow : ℕ → ℕ → ℕ) where
    record Added (now : ℕ) (r : Limiter K) (h : History dec) (key : K) (s : Limiter K)
        : Type 0 where
      tracks : Tracks dec now s h
      present : lookup dec key s.keys ≡ some fresh
      same_window : s.window ≡ r.window
      same_max : s.max_events ≡ r.max_events

    -- A new key is added with an empty log, after a sweep or without one.
    add_key-Added :
        (now : ℕ) (r : Limiter K) (h : History dec) (key : K)
        → Tracks dec now r h
        → lookup dec key r.keys ≡ none
        → Added now r h key (add_key dec grow r key now)
    unfolding add_key
    add_key-Added now r h key t e = record {
      tracks = record { distinct = added.distinct; valid = added.valid; agree = added.agree };
      present = rw (lookup-insert dec key key fresh swept.keys) (if_pos (dec key key) refl _ _);
      same_window = s.same_window;
      same_max = s.same_max;
    }
      where
        swept : Limiter K
        swept = sweep_if_due r now

        s : Swept now r h swept
        s = sweep_if_due-Swept now r h t

        added : Tracks dec now (record swept { keys = insert dec key fresh swept.keys }) h
        added =
            insert-Tracks dec now swept h h key fresh s.tracks (fresh-IsValid now)
              (λ n q. rw (s.absent key e) at (s.tracks.agree key n q)) (λ k p. refl)

    -- A call that decides by the full history and keeps the agreement.
    pub record Admits (window limit now : ℕ) (h : History dec) (key : K)
        (out : Option (Bool × Limiter K)) : Type 0 where
      pub next : Limiter K
      pub returns : out ≡ some (ltb (live_count window now (h key)) limit, next)
      pub tracks :
          Tracks dec now next (note dec h key (ltb (live_count window now (h key)) limit) now)
      pub same_window : next.window ≡ window
      pub same_max : next.max_events ≡ limit

    record_event-Admits :
        (now : ℕ) (r : Limiter K) (h : History dec) (key : K) (l : EventLog)
        → Tracks dec now r h
        → lookup dec key r.keys ≡ some l
        → Admits r.window r.max_events now h key (record_event dec grow r key l now)
    unfolding record_event
    record_event-Admits now r h key l t e = record {
      next = record r { keys = insert dec key d.log r.keys };
      returns =
          rw (d.returns, record_event)
            (ap (λ b. some (b, record r { keys = insert dec key d.log r.keys })) decision);
      tracks =
          subst
            (λ b.
              Tracks dec now (record r { keys = insert dec key d.log r.keys })
                (note dec h key b now))
            decision
            (insert-Tracks dec now r h (note dec h key d.ok now) key d.log t d.valid
              (λ n q. rw (note_self dec h key d.ok now) (
                d.same n q
                ∙ live_count-append r.window n (events l) (admitted d.ok now)
                ∙ omega
                    (arith, agrees n q, live_count-append r.window n (h key) (admitted d.ok now))))
              (note_ne dec h key d.ok now));
      same_window = refl;
      same_max = refl;
    }
      where
        d : Decided r.window now r.max_events l (EventLog.allow grow l now r.window r.max_events)
        d =
            allow-Decided grow r.window now now r.max_events l
              (IsValid-of_some dec now _ e (t.valid key)) (omega arith)

        agrees :
            (n : ℕ) → now ≤ n → live_count r.window n (events l) ≡ live_count r.window n (h key)
        agrees n q = rw e at (t.agree key n q)

        decision : d.ok ≡ ltb (live_count r.window now (h key)) r.max_events
        decision = d.exact ∙ ap (λ c. ltb c r.max_events) (agrees now (omega arith))

    -- One call, at a time not before the last: the decision is that of the full history.
    pub allow-Admits :
        (last now : ℕ) (r : Limiter K) (h : History dec) (key : K)
        → Tracks dec last r h
        → last ≤ now
        → Admits r.window r.max_events now h key (Window.allow dec grow r key now)
    unfolding Window.allow
    allow-Admits last now r h key t le = elim (Option-cases (lookup dec key r.keys)) [
      | inl e ↦ rw (e, Window.allow) (new_key e)
      | inr (l, e) ↦ rw (e, Window.allow) (record_event-Admits now r h key l raised e)
    ]
      where
        raised : Tracks dec now r h
        raised = Tracks-raise dec last now r h le t

        new_key :
            lookup dec key r.keys ≡ none
            → Admits r.window r.max_events now h key
                (record_event dec grow (add_key dec grow r key now) key fresh now)
        new_key e =
            subst₂
              (λ w m.
                Admits w m now h key
                  (record_event dec grow (add_key dec grow r key now) key fresh now))
              a.same_window a.same_max
              (record_event-Admits now (add_key dec grow r key now) h key fresh a.tracks a.present)
          where
            a : Added now r h key (add_key dec grow r key now)
            a = add_key-Added now r h key raised e
