-- ===== src/RateLimit/EventLog/Exact.antt =====
-- `allow` of one key's log, and the log's invariant (ratelimit/ratelimit.go).
use retry_endpoint.Prelude.{
  ℕ, ◌-◌, ◌≤◌, ◌<◌, ◌≡◌, refl, Bool, true, false, Option, some, List, [], ◌∷◌, ◌++◌, arith, leb,
  ltb, length, length-append, length-drop, drop-append, Bool-cases, inl, inr,
}
use retry_endpoint.RateLimit.EventLog.{EventLog, events, fresh, allocate, push, allow}
use retry_endpoint.RateLimit.EventLog.Ascending.{
  live_count, live_count-append, IsAscending-append, live_count-le,
}
use retry_endpoint.RateLimit.EventLog.Expire.{IsValid, Expired, expire-Expired}

pub fresh-IsValid : (last : ℕ) → IsValid last fresh
fresh-IsValid last = record { ascending = omega arith; packed = omega arith; nil_empty = λ _. refl }

-- The events that a decision adds to a log.
abbrev pub admitted : Bool → ℕ → List ℕ
admitted true now = now ∷ []
admitted false now = []

-- What one call of `allow` at `now` does.
pub record Decided (window now max : ℕ) (l : EventLog) (out : Option (Bool × EventLog))
    : Type 0 where
  pub ok : Bool
  pub log : EventLog
  pub returns : out ≡ some (ok, log)
  pub exact : ok ≡ ltb (live_count window now (events l)) max
  pub valid : IsValid now log
  pub same :
      (n : ℕ)
      → now ≤ n
      → live_count window n (events log) ≡ live_count window n (events l ++ admitted ok now)
  pub fits : length (events l) ≤ max → length (events log) ≤ max

-- A valid log that is nil holds nothing, so the fresh slice loses no event.
ts-allocate : (now : ℕ) (l : EventLog) → IsValid now l → (allocate l).ts ≡ l.ts
unfolding allocate
ts-allocate now l v = ground arith

head-allocate : (l : EventLog) → (allocate l).head ≡ l.head
unfolding allocate
head-allocate l = ground arith

leb-false : (a b : ℕ) → leb a b ≡ false → b < a
leb-false a b h = ground arith

module _ (grow : ℕ → ℕ → ℕ) where
  push-IsValid : (now : ℕ) (l : EventLog) → IsValid now l → IsValid now (push grow (allocate l) now)
  unfolding push
  push-IsValid now l v = record {
    ascending =
        rw (ts-allocate now l v) (IsAscending-append 0 now now l.ts (omega arith) v.ascending);
    packed =
        rw (ts-allocate now l v, head-allocate)
          (omega (arith, length-append l.ts (now ∷ []), v.packed));
    nil_empty = ground arith;
  }

  events-push :
      (now : ℕ) (l : EventLog)
      → IsValid now l
      → events (push grow (allocate l) now) ≡ events l ++ (now ∷ [])
  unfolding push
  events-push now l v =
      rw (ts-allocate now l v, head-allocate)
        (drop-append l.head l.ts (now ∷ []) (omega (arith, v.packed)))

  refused :
      (window now max : ℕ) (l m : EventLog)
      → Expired window now l m
      → leb max (length m.ts - m.head) ≡ true
      → Decided window now max l (some (false, m))
  refused window now max l m x full = record {
    ok = false;
    log = m;
    returns = refl;
    exact = ground (arith, x.count);
    valid = x.valid;
    same = λ n q. ground (arith, x.same n q, live_count-append window n (events l) []);
    fits =
        λ q. omega (arith, x.count, live_count-le window now (events l), length-drop m.head m.ts);
  }

  recorded :
      (window now max : ℕ) (l m : EventLog)
      → Expired window now l m
      → leb max (length m.ts - m.head) ≡ false
      → Decided window now max l (some (true, push grow (allocate m) now))
  recorded window now max l m x room = record {
    ok = true;
    log = push grow (allocate m) now;
    returns = refl;
    exact = ground (arith, x.count);
    valid = push-IsValid now m x.valid;
    same = λ n q.
        rw (events-push now m x.valid, live_count-append, live_count-append)
          (omega (arith, x.same n q));
    fits = λ q.
        rw (events-push now m x.valid, length-append)
          (omega (arith, length-drop m.head m.ts, leb-false max (length m.ts - m.head) room));
  }

  pub allow-Decided :
      (window last now max : ℕ) (l : EventLog)
      → IsValid last l
      → last ≤ now
      → Decided window now max l (allow grow l now window max)
  unfolding allow
  allow-Decided window last now max l v le =
      let (m, e, x) = expire-Expired window last now l v le in
      rw (e, allow)
        (elim (Bool-cases (leb max (length m.ts - m.head))) [
          | inl full ↦ rw full (refused window now max l m x full)
          | inr room ↦ rw room (recorded window now max l m x room)
        ])
