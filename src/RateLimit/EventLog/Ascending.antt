-- ===== src/RateLimit/EventLog/Ascending.antt =====
-- Nondecreasing lists of timestamps, and how many of them a window still holds.
use retry_endpoint.Prelude.{
  ℕ, zero, suc, ◌+◌, ◌≤◌, ◌≡◌, refl, some, List, [], ◌∷◌, ◌++◌, arith, ltb, if◌then◌else◌, length,
  drop, get_last?,
}

-- Nondecreasing, from `lo` on and up to `hi`.
abbrev pub IsAscending : ℕ → ℕ → List ℕ → Type 0
IsAscending lo hi [] = lo ≤ hi
IsAscending lo hi (x ∷ xs) = (lo ≤ x) × IsAscending x hi xs

-- How many of the timestamps are within the window at `now`: those after `now - window`.
abbrev pub live_count : ℕ → ℕ → List ℕ → ℕ
live_count window now [] = 0
live_count window now (t ∷ ts) =
    if ltb now (t + window) then suc (live_count window now ts) else live_count window now ts

pub live_count-append :
    (w n : ℕ) (xs ys : List ℕ) → live_count w n (xs ++ ys) ≡ live_count w n xs + live_count w n ys
live_count-append w n [] ys = omega arith
live_count-append w n (x ∷ xs) ys = ground (arith, live_count-append w n xs ys)

pub IsAscending-le : (lo hi : ℕ) (xs : List ℕ) → IsAscending lo hi xs → lo ≤ hi
IsAscending-le lo hi [] h = h
IsAscending-le lo hi (x ∷ xs) h = omega (arith, IsAscending-le x hi xs h.1)

pub IsAscending-lower :
    (k lo hi : ℕ) (xs : List ℕ) → k ≤ lo → IsAscending lo hi xs → IsAscending k hi xs
IsAscending-lower k lo hi [] le h = omega arith
IsAscending-lower k lo hi (x ∷ xs) le h = (omega arith, h.1)

pub IsAscending-raise :
    (lo hi top : ℕ) (xs : List ℕ) → hi ≤ top → IsAscending lo hi xs → IsAscending lo top xs
IsAscending-raise lo hi top [] le h = omega arith
IsAscending-raise lo hi top (x ∷ xs) le h = (h.0, IsAscending-raise x hi top xs le h.1)

pub IsAscending-drop :
    (n lo hi : ℕ) (xs : List ℕ) → IsAscending lo hi xs → IsAscending lo hi (drop n xs)
IsAscending-drop zero lo hi xs h = h
IsAscending-drop (suc n) lo hi [] h = h
IsAscending-drop (suc n) lo hi (x ∷ xs) h =
    IsAscending-lower lo x hi (drop n xs) h.0 (IsAscending-drop n x hi xs h.1)

pub IsAscending-append :
    (lo hi now : ℕ) (xs : List ℕ)
    → hi ≤ now
    → IsAscending lo hi xs
    → IsAscending lo now (xs ++ (now ∷ []))
IsAscending-append lo hi now [] le h = (omega arith, omega arith)
IsAscending-append lo hi now (x ∷ xs) le h = (h.0, IsAscending-append x hi now xs le h.1)

-- Past the end of the window of the last event, no event is live.
pub live_count_of_last :
    (w n lo hi t : ℕ) (xs : List ℕ)
    → IsAscending lo hi xs
    → get_last? xs ≡ some t
    → t + w ≤ n
    → live_count w n xs ≡ 0
live_count_of_last w n lo hi t [] a e h = refl
live_count_of_last w n lo hi t (x ∷ []) a e h = ground arith
live_count_of_last w n lo hi t (x ∷ y ∷ xs) a e h =
    ground (arith, live_count_of_last w n x hi t (y ∷ xs) a.1 e h, le_last t y x xs a.1 e)
  where
    le_last :
        (t y lo : ℕ) (xs : List ℕ)
        → IsAscending lo hi (y ∷ xs)
        → get_last? (y ∷ xs) ≡ some t
        → y ≤ t
    le_last t y lo [] a e = ground arith
    le_last t y lo (z ∷ zs) a e = omega (arith, le_last t z y zs a.1 e)

-- If the first event is live, all of them are.
pub live_count_all :
    (w n x hi : ℕ) (xs : List ℕ)
    → n ≤ x + w
    → (suc n ≤ x + w)
    → IsAscending x hi xs
    → live_count w n xs ≡ length xs
live_count_all w n x hi [] h h' a = refl
live_count_all w n x hi (y ∷ xs) h h' a =
    ground (arith, live_count_all w n y hi xs (omega arith) (omega arith) a.1)

pub live_count-le : (w n : ℕ) (xs : List ℕ) → live_count w n xs ≤ length xs
live_count-le w n [] = omega arith
live_count-le w n (x ∷ xs) = ground (arith, live_count-le w n xs)

-- A later clock leaves fewer events live.
pub live_count_later : (w n m : ℕ) (xs : List ℕ) → n ≤ m → live_count w m xs ≤ live_count w n xs
live_count_later w n m [] h = omega arith
live_count_later w n m (x ∷ xs) h = ground (arith, live_count_later w n m xs h)
