-- ===== src/RateLimit/EventLog.antt =====
-- `eventLog` (ratelimit/ratelimit.go): one key's admitted events as monotonic timestamps.
--
-- A timestamp is nanoseconds since `epoch`, so it is a natural number; a cutoff `now - window` may
-- be negative and is an integer. A slice is its elements, its capacity, and whether it is nil.
-- An index out of range is a panic, the result `none`.
use retry_endpoint.Prelude.{
  ℕ, zero, suc, ◌+◌, ◌-◌, ◌*◌, Bool, true, false, ◌&&◌, Option, none, some, List, [], ◌∷◌, ◌++◌,
  leb, ltb, if◌then◌else◌, length, drop, get_last?, take,
}
use retry_endpoint.Prelude.Int.{ℤ, pos, negsuc, sub_ℕ}
pub mod Ascending
pub mod Expire
pub mod Exact

-- `t <= cutoff`
abbrev pub at_or_before : ℕ → ℤ → Bool
at_or_before t (pos c) = leb t c
at_or_before t (negsuc c) = false

abbrev pub log_init_cap : ℕ
log_init_cap = 4

abbrev pub log_shrink_cap : ℕ
log_shrink_cap = 256

pub record EventLog : Type 0 where
  pub ts : List ℕ
  pub cap : ℕ
  pub is_nil : Bool
  pub head : ℕ

-- `&eventLog{}`
abbrev pub fresh : EventLog
fresh = record { ts = []; cap = 0; is_nil = true; head = 0 }

-- The events that have not expired, `ts[head:]`.
abbrev pub events : EventLog → List ℕ
events l = drop l.head l.ts

-- `for l.ts[l.head] <= cutoff { l.head++ }`, over what is left of the slice from `head` on.
unfoldable pub skip_expired : List ℕ → ℤ → ℕ → Option ℕ
skip_expired [] cutoff head = none
skip_expired (t ∷ ts) cutoff head = elim (at_or_before t cutoff) [
  | true ↦ skip_expired ts cutoff (head + 1)
  | false ↦ some head
]

-- The branch of `expire` where the whole window has aged out.
unfoldable pub age_out : EventLog → EventLog
age_out l =
    if ltb log_shrink_cap l.cap
    then record { ts = []; cap = 0; is_nil = true; head = 0 }
    else record l { ts = []; head = 0 }

-- The end of `expire`: the live events move to the front once `head` passes half the slice, to a
-- smaller array if they fill under an eighth of a large one.
unfoldable pub compact : EventLog → EventLog
compact l =
    if ltb (2 * l.head) (length l.ts)
    then l
    else let live = drop l.head l.ts in
      if ltb log_shrink_cap l.cap && ltb (8 * length live) l.cap
      then record { ts = live; cap = 2 * length live; is_nil = false; head = 0 }
      else record l { ts = live; head = 0 }

unfoldable pub expire : EventLog → ℤ → Option EventLog
unfolding skip_expired age_out compact
expire l cutoff = elim (get_last? l.ts) [
  | none ↦ some l
  | some t ↦ elim (at_or_before t cutoff) [
    | true ↦ some (age_out l)
    | false ↦ elim (skip_expired (drop l.head l.ts) cutoff l.head) [
      | none ↦ none
      | some h ↦ some (compact (record l { head = h }))
    ]
  ]
]

-- `if l.ts == nil { l.ts = make([]int64, 0, logInitCap) }`
unfoldable pub allocate : EventLog → EventLog
allocate l = if l.is_nil then record l { ts = []; cap = log_init_cap; is_nil = false } else l

-- `idle` reports whether every event is at or before cutoff.
unfoldable pub idle : EventLog → ℤ → Bool
idle l cutoff = elim (get_last? l.ts) [ none ↦ true | some t ↦ at_or_before t cutoff ]

-- `grow old needed` is the capacity that Go's `append` chooses for a full slice.
module _ (grow : ℕ → ℕ → ℕ) where
  -- `l.ts = append(l.ts, now)`
  unfoldable pub push : EventLog → ℕ → EventLog
  push l now = record l {
    ts = l.ts ++ (now ∷ []);
    cap = if ltb (length l.ts) l.cap then l.cap else grow l.cap (length l.ts + 1);
    is_nil = false;
  }

  unfoldable pub allow : EventLog → ℕ → ℕ → ℕ → Option (Bool × EventLog)
  unfolding expire allocate push
  allow l now window max = elim (expire l (sub_ℕ now window)) [
    | none ↦ none
    | some m ↦
        if leb max (length m.ts - m.head)
        then some (false, m)
        else some (true, push (allocate m) now)
  ]
