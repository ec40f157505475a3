-- ===== src/RateLimit/Window/Tracks.antt =====
-- The agreement of a sliding-window limiter's map with the events admitted so far
-- (ratelimit/ratelimit.go).
use mathlib.Core.List.{append-nil}
use retry_endpoint.Prelude.{
  ℕ, ◌≤◌, ◌≡◌, ◌≢◌, refl, Bool, not, Option, none, some, List, [], ◌++◌, arith, sym, subst, ◌∙◌,
  ite, if_pos, if_neg, Bool-cases, inl, inr,
}
use retry_endpoint.Prelude.Assoc.{
  lookup, insert, filtered, IsDistinct, lookup-insert, lookup-keep, keep-IsDistinct,
  insert-IsDistinct,
}
use retry_endpoint.Prelude.Int.{sub_ℕ}
use retry_endpoint.RateLimit.EventLog.{EventLog, events, idle}
use retry_endpoint.RateLimit.EventLog.Ascending.{IsAscending-raise, live_count}
use retry_endpoint.RateLimit.EventLog.Exact.{admitted}
use retry_endpoint.RateLimit.EventLog.Expire.{IsValid, idle_lem}
use retry_endpoint.RateLimit.Window
use retry_endpoint.RateLimit.Window.{Limiter, evict_expired, sweep_if_due, add_key, record_event}

-- The live events of a key, none if the map does not hold it.
abbrev pub held : ℕ → ℕ → Option EventLog → ℕ
held w n none = 0
held w n (some l) = live_count w n (events l)

abbrev pub AllValid : ℕ → Option EventLog → Type 0
AllValid last none = Unit
AllValid last (some l) = IsValid last l

IsValid-raise : (last now : ℕ) (l : EventLog) → last ≤ now → IsValid last l → IsValid now l
IsValid-raise last now l le v = record {
  ascending = IsAscending-raise 0 last now l.ts le v.ascending;
  packed = v.packed;
  nil_empty = v.nil_empty;
}

module _ {K : Type 0} (dec : Discrete K) where
  -- Every event ever admitted, by key, oldest first.
  abbrev pub History : Type 0
  History = K → List ℕ

  abbrev pub note : History → K → Bool → ℕ → History
  note h key ok now k = h k ++ ite (dec key k) (admitted ok now) []

  -- The map's logs and the history agree on what is live from `last` on.
  pub record Tracks (last : ℕ) (r : Limiter K) (h : History) : Type 0 where
    pub distinct : IsDistinct dec r.keys
    pub valid : (k : K) → AllValid last (lookup dec k r.keys)
    pub agree :
        (k : K) (n : ℕ)
        → last ≤ n
        → held r.window n (lookup dec k r.keys) ≡ live_count r.window n (h k)

  pub new-Tracks :
      (max_events window max_keys : ℕ) → Tracks 0 (Window.new max_events window max_keys) (λ _. [])
  unfolding Window.new lookup
  new-Tracks max_events window max_keys = record {
    distinct = tt;
    valid = λ k. tt;
    agree = λ k n q. refl;
  }

  pub Tracks-raise :
      (last now : ℕ) (r : Limiter K) (h : History) → last ≤ now → Tracks last r h → Tracks now r h
  Tracks-raise last now r h le t = record {
    distinct = t.distinct;
    valid = λ k. raise (lookup dec k r.keys) (t.valid k);
    agree = λ k n q. t.agree k n (omega arith);
  }
    where
      raise : (o : Option EventLog) → AllValid last o → AllValid now o
      raise none v = tt
      raise (some l) v = IsValid-raise last now l le v

  -- Sweeping drops only keys with nothing live.
  pub evict_expired-Tracks :
      (now : ℕ) (r : Limiter K) (h : History) → Tracks now r h → Tracks now (evict_expired r now) h
  unfolding evict_expired
  evict_expired-Tracks now r h t = record {
    distinct = keep-IsDistinct dec live r.keys t.distinct;
    valid = λ k.
        rw (lookup-keep dec live k r.keys t.distinct) (still (lookup dec k r.keys) (t.valid k));
    agree = λ k n q.
        rw (lookup-keep dec live k r.keys t.distinct)
          (same n q (lookup dec k r.keys) (t.valid k) ∙ t.agree k n q);
  }
    where
      live : EventLog → Bool
      live l = not (idle l (sub_ℕ now r.window))

      still : (o : Option EventLog) → AllValid now o → AllValid now (filtered live o)
      still none v = tt
      still (some l) v = elim (Bool-cases (idle l (sub_ℕ now r.window))) [
        | inl e ↦ rw e tt
        | inr e ↦ rw e v
      ]

      same :
          (n : ℕ)
          → now ≤ n
          → (o : Option EventLog) → AllValid now o
          → held r.window n (filtered live o) ≡ held r.window n o
      same n q none v = refl
      same n q (some l) v = elim (Bool-cases (idle l (sub_ℕ now r.window))) [
        | inl e ↦ rw e (sym (idle_lem r.window now now l v e n q))
        | inr e ↦ rw e
      ]

  pub IsValid-of_some :
      (now : ℕ) (o : Option EventLog) {l : EventLog} → o ≡ some l → AllValid now o → IsValid now l
  IsValid-of_some now o {l} e v = subst (AllValid now) e v

  -- Storing a log whose live events are those of the key's new history.
  pub insert-Tracks :
      (now : ℕ) (r : Limiter K) (h h' : History) (key : K) (l : EventLog)
      → Tracks now r h
      → IsValid now l
      → ((n : ℕ) → now ≤ n → live_count r.window n (events l) ≡ live_count r.window n (h' key))
      → ((k : K) → key ≢ k → h' k ≡ h k)
      → Tracks now (record r { keys = insert dec key l r.keys }) h'
  insert-Tracks now r h h' key l t v same others = record {
    distinct = insert-IsDistinct dec key l r.keys t.distinct;
    valid = λ k.
        rw (lookup-insert dec key k l r.keys)
          (elim (dec key k) [ yes p ↦ rw (if_pos _ p) v | no p ↦ rw (if_neg _ p) (t.valid k) ]);
    agree = λ k n q. rw (lookup-insert dec key k l r.keys) (elim (dec key k) [
      | yes p ↦ rw (if_pos _ p) (rw (← p) (same n q))
      | no p ↦ rw (if_neg _ p, others k p) (t.agree k n q)
    ]);
  }

  pub note_self :
      (h : History) (key : K) (ok : Bool) (now : ℕ)
      → note h key ok now key ≡ h key ++ admitted ok now
  note_self h key ok now = rw (if_pos (dec key key) refl)

  pub note_ne :
      (h : History) (key : K) (ok : Bool) (now : ℕ) (k : K) → key ≢ k → note h key ok now k ≡ h k
  note_ne h key ok now k p = rw (if_neg (dec key k) p, append-nil)
