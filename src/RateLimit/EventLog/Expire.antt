-- ===== src/RateLimit/EventLog/Expire.antt =====
-- `expire` and `idle` of one key's log (ratelimit/ratelimit.go).
use retry_endpoint.Prelude.{
  ℕ, zero, suc, ◌+◌, ◌-◌, ◌*◌, ◌≤◌, ◌<◌, ◌≡◌, refl, Bool, true, false, inl, inr, Option, none, some,
  List, [], ◌∷◌, arith, leb, length, drop, get_last?, length-drop, drop-drop, ap, Bool-cases,
  Option-cases,
}
use retry_endpoint.Prelude.Int.{sub_ℕ}
use retry_endpoint.RateLimit.EventLog.{
  at_or_before, EventLog, events, skip_expired, age_out, compact, expire, idle,
}
use retry_endpoint.RateLimit.EventLog.Ascending.{
  IsAscending, live_count, live_count_of_last, live_count_all, live_count-le, IsAscending-drop,
  IsAscending-raise,
}

-- The state of a log between two calls, the last of them at `last`.
pub record IsValid (last : ℕ) (l : EventLog) : Type 0 where
  pub ascending : IsAscending 0 last l.ts
  pub packed : 2 * l.head ≤ length l.ts - 1
  pub nil_empty : l.is_nil ≡ true → l.ts ≡ []

pub at_or_before_lem : (t now window : ℕ) → at_or_before t (sub_ℕ now window) ≡ leb (t + window) now
at_or_before_lem t now window = ground arith

live_count-drop : (w n k : ℕ) (xs : List ℕ) → live_count w n xs ≡ 0 → live_count w n (drop k xs) ≡ 0
live_count-drop w n zero xs h = h
live_count-drop w n (suc k) [] h = refl
live_count-drop w n (suc k) (x ∷ xs) h = live_count-drop w n k xs (ground arith)

get_last?-drop :
    (k t : ℕ) (xs : List ℕ) → get_last? xs ≡ some t → k < length xs → get_last? (drop k xs) ≡ some t
get_last?-drop zero t xs e h = e
get_last?-drop (suc k) t [] e h = absurd (omega arith)
get_last?-drop (suc k) t (x ∷ []) e h = absurd (omega arith)
get_last?-drop (suc k) t (x ∷ y ∷ xs) e h = get_last?-drop k t (y ∷ xs) e (omega arith)

get_last?-none : (xs : List ℕ) → get_last? xs ≡ none → xs ≡ []
get_last?-none [] e = refl
get_last?-none (x ∷ []) e = absurd (cc e)
get_last?-none (x ∷ y ∷ xs) e = absurd (cc (get_last?-none (y ∷ xs) e))

-- What the loop over the expired prefix has done: it stopped `k` events on.
record Skipped (w now head : ℕ) (ts : List ℕ) (out : Option ℕ) : Type 0 where
  k : ℕ
  stops : out ≡ some (head + k)
  inside : k < length ts
  all_live : live_count w now (drop k ts) ≡ length (drop k ts)
  same : (n : ℕ) → now ≤ n → live_count w n (drop k ts) ≡ live_count w n ts

skip_expired-Skipped :
    (w now lo hi head t : ℕ) (ts : List ℕ)
    → IsAscending lo hi ts
    → get_last? ts ≡ some t
    → now < t + w
    → Skipped w now head ts (skip_expired ts (sub_ℕ now w) head)
unfolding skip_expired
skip_expired-Skipped w now lo hi head t [] a e h = absurd (cc e)
skip_expired-Skipped w now lo hi head t (x ∷ []) a e h = record {
  k = 0;
  stops = ground (arith, at_or_before_lem x now w);
  inside = omega arith;
  all_live = ground arith;
  same = λ n _. refl;
}
skip_expired-Skipped w now lo hi head t (x ∷ y ∷ ts) a e h =
    elim (Bool-cases (at_or_before x (sub_ℕ now w))) [
      | inl old ↦
          let rest = skip_expired-Skipped w now x hi (head + 1) t (y ∷ ts) a.1 e h in
          record {
            k = suc rest.k;
            stops = ground (arith, old, rest.stops);
            inside = omega (arith, rest.inside);
            all_live = rest.all_live;
            same = λ n le. ground (arith, rest.same n le, at_or_before_lem x now w);
          }
      | inr live ↦ record {
        k = 0;
        stops = ground (arith, live);
        inside = omega arith;
        all_live =
            live_count_all w now x hi (x ∷ y ∷ ts) (ground (arith, at_or_before_lem x now w))
              (ground (arith, at_or_before_lem x now w)) (omega arith, a.1);
        same = λ n _. refl;
      }
    ]

-- What `expire` at `now` leaves of a log.
pub record Expired (w now : ℕ) (l m : EventLog) : Type 0 where
  pub valid : IsValid now m
  pub count : length m.ts - m.head ≡ live_count w now (events l)
  pub same : (n : ℕ) → now ≤ n → live_count w n (events m) ≡ live_count w n (events l)

age_out-Expired :
    (w last now t : ℕ) (l : EventLog)
    → IsValid last l
    → get_last? l.ts ≡ some t
    → t + w ≤ now
    → Expired w now l (age_out l)
unfolding age_out
age_out-Expired w last now t l v e h = record {
  valid = record { ascending = ground arith; packed = ground arith; nil_empty = ground arith };
  count = ground (arith, none_left now (omega arith));
  same = λ n le. ground (arith, none_left n le);
}
  where
    none_left : (n : ℕ) → now ≤ n → live_count w n (events l) ≡ 0
    none_left n le =
        live_count-drop w n l.head l.ts
          (live_count_of_last w n 0 last t l.ts v.ascending e (omega arith))

compact-Expired :
    (w last now h : ℕ) (l : EventLog)
    → IsValid last l
    → last ≤ now
    → h < length l.ts
    → live_count w now (drop h l.ts) ≡ length (drop h l.ts)
    → ((n : ℕ) → now ≤ n → live_count w n (drop h l.ts) ≡ live_count w n (events l))
    → l.is_nil ≡ false
    → Expired w now l (compact (record l { head = h }))
unfolding compact
compact-Expired w last now h l v le lt all_live same nn = record {
  valid = record {
    ascending = ground (arith, kept, moved);
    packed = ground arith;
    nil_empty = λ e. absurd (ground arith);
  };
  count = ground (arith, length-drop h l.ts, same now (omega arith));
  same = λ n q. ground (arith, same n q);
}
  where
    kept : IsAscending 0 now l.ts
    kept = IsAscending-raise 0 last now l.ts le v.ascending

    moved : IsAscending 0 now (drop h l.ts)
    moved = IsAscending-drop h 0 now l.ts kept

length-get_last? : (t : ℕ) (xs : List ℕ) → get_last? xs ≡ some t → 0 < length xs
length-get_last? t [] e = absurd (cc e)
length-get_last? t (x ∷ xs) e = omega arith

empty-Expired :
    (w last now : ℕ) (l : EventLog) → IsValid last l → last ≤ now → l.ts ≡ [] → Expired w now l l
empty-Expired w last now l v le e = record {
  valid = record {
    ascending = IsAscending-raise 0 last now l.ts le v.ascending;
    packed = v.packed;
    nil_empty = v.nil_empty;
  };
  count =
      omega (arith, ap length e, live_count-le w now (drop l.head l.ts), length-drop l.head l.ts);
  same = λ n q. refl;
}

module _ (w last now t : ℕ) (l : EventLog) (v : IsValid last l) (le : last ≤ now) where
  skipped :
      get_last? l.ts ≡ some t
      → now < t + w
      → Skipped w now l.head
          (drop l.head l.ts)
          (skip_expired (drop l.head l.ts) (sub_ℕ now w) l.head)
  skipped e live =
      skip_expired-Skipped w now 0 last l.head t (drop l.head l.ts)
        (IsAscending-drop l.head 0 last l.ts v.ascending)
        (get_last?-drop l.head t l.ts e (omega (arith, v.packed, length-get_last? t l.ts e))) live

  Skipped-Expired :
      {out : Option ℕ} (s : Skipped w now l.head (drop l.head l.ts) out)
      → Expired w now l (compact (record l { head = l.head + s.k }))
  Skipped-Expired s =
      compact-Expired w last now (l.head + s.k) l v le
        (omega (arith, s.inside, length-drop l.head l.ts)) (rw (← joined) s.all_live)
        (λ n q. rw (← joined) (s.same n q)) (not_nil l.is_nil refl)
    where
      joined : drop s.k (drop l.head l.ts) ≡ drop (l.head + s.k) l.ts
      joined = drop-drop l.head s.k l.ts

      not_nil : (b : Bool) → l.is_nil ≡ b → l.is_nil ≡ false
      not_nil true e =
          absurd (omega (arith, s.inside, length-drop l.head l.ts, ap length (v.nil_empty e)))
      not_nil false e = e

-- `expire` never indexes out of range, and drops exactly the events whose window has passed.
pub expire-Expired :
    (w last now : ℕ) (l : EventLog)
    → IsValid last l
    → last ≤ now
    → (m : EventLog) × (expire l (sub_ℕ now w) ≡ some m) × Expired w now l m
unfolding expire
expire-Expired w last now l v le = elim (Option-cases (get_last? l.ts)) [
  | inl e ↦ (l, ground arith, empty-Expired w last now l v le (get_last?-none l.ts e))
  | inr (t, e) ↦ elim (Bool-cases (at_or_before t (sub_ℕ now w))) [
    | inl old ↦ (
      age_out l,
      ground arith,
      age_out-Expired w last now t l v e (ground (arith, at_or_before_lem t now w)),
    )
    | inr live ↦
        let s = skipped w last now t l v le e (ground (arith, at_or_before_lem t now w)) in
        (
          compact (record l { head = l.head + s.k }),
          ground (arith, s.stops),
          Skipped-Expired w last now t l v le s,
        )
  ]
]

-- A log is idle exactly when no event of it is live, now or later.
pub idle_lem :
    (w last now : ℕ) (l : EventLog)
    → IsValid last l
    → idle l (sub_ℕ now w) ≡ true
    → (n : ℕ) → now ≤ n
    → live_count w n (events l) ≡ 0
unfolding idle
idle_lem w last now l v e n q = elim (Option-cases (get_last? l.ts)) [
  | inl none_last ↦
      live_count-drop w n l.head l.ts (ap (live_count w n) (get_last?-none l.ts none_last))
  | inr (t, last_is) ↦ live_count-drop w n l.head l.ts (
      live_count_of_last w n 0 last t l.ts v.ascending last_is
        (ground (arith, at_or_before_lem t now w)))
]
