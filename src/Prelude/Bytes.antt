-- ===== src/Prelude/Bytes.antt =====
-- Datagrams as lists of bytes: encoding/binary's BigEndian, slices, and array copies.
use Prim.Native.Nat.{ℕ, zero, suc, ◌+◌, ◌-◌, ◌*◌, ◌/◌, ◌%◌, ◌^◌, ◌≤◌, ◌<◌}
use mathlib.Core.List.{List, [], ◌∷◌, ◌++◌}
use mathlib.Core.Path.{◌≡◌, refl, ap, ◌∙◌}
use native.Mathlib.Omega.{arith}
use native.Mathlib.Nat.{pow-suc}
use retry_endpoint.Prelude.Lists.{
  length, take, drop, length-append, take-append_left, drop-append_left, drop-drop, drop-take,
  take-take, All,
}

abbrev pub Bytes : Type 0
Bytes = List ℕ

-- `raw[from:from+n]`. The source tests the length first, wherever it may be short.
abbrev pub slice : ℕ → ℕ → Bytes → Bytes
slice from n raw = take n (drop from raw)

-- The number that bytes stand for, the first byte highest.
be_from : ℕ → Bytes → ℕ
be_from acc [] = acc
be_from acc (b ∷ bs) = be_from (acc * 256 + b) bs

unfoldable pub be : Bytes → ℕ
unfolding be_from
be bs = be_from 0 bs

-- `binary.BigEndian.Uint16(raw[from:])`, for 2, 4 or 8 bytes.
abbrev pub uint_at : ℕ → ℕ → Bytes → ℕ
uint_at from n raw = be (slice from n raw)

-- `binary.BigEndian.PutUint16` and its like: the low `n` bytes of a number.
unfoldable pub to_be : ℕ → ℕ → Bytes
to_be zero x = []
to_be (suc n) x = to_be n (x / 256) ++ (x % 256 ∷ [])

pub length-to_be : (n x : ℕ) → length (to_be n x) ≡ n
unfolding to_be
length-to_be zero x = refl
length-to_be (suc n) x =
    omega (arith, length-append (to_be n (x / 256)) (x % 256 ∷ []), length-to_be n (x / 256))

be_from-append :
    (acc : ℕ) (xs : Bytes) (b : ℕ) → be_from acc (xs ++ (b ∷ [])) ≡ be_from acc xs * 256 + b
unfolding be_from
be_from-append acc [] b = refl
be_from-append acc (x ∷ xs) b = be_from-append (acc * 256 + x) xs b

pub be-to_be : (n x : ℕ) → x < 256 ^ n → be (to_be n x) ≡ x
unfolding be to_be
be-to_be zero x h = omega (arith, h)
be-to_be (suc n) x h =
    be_from-append 0 (to_be n (x / 256)) (x % 256)
    ∙ omega (arith, be-to_be n (x / 256) (omega (arith, pow-suc 256 n, h)))

-- A slice of a buffer that is written part by part.
pub slice-append :
    (from n : ℕ) (pre mid post : Bytes)
    → length pre ≡ from
    → length mid ≡ n
    → slice from n (pre ++ (mid ++ post)) ≡ mid
slice-append from n pre mid post e f =
    rw (← e, ← f)
      (ap (take (length mid)) (drop-append_left pre (mid ++ post)) ∙ take-append_left mid post)

pub uint_at-append :
    (from n x : ℕ) (pre post : Bytes)
    → length pre ≡ from
    → x < 256 ^ n
    → uint_at from n (pre ++ (to_be n x ++ post)) ≡ x
uint_at-append from n x pre post e h =
    ap be (slice-append from n pre (to_be n x) post e (length-to_be n x)) ∙ be-to_be n x h

-- The last byte apart.
snoc_view :
    (n : ℕ) (bs : Bytes)
    → length bs ≡ suc n
    → All (λ b. b < 256) bs
    → (ys : Bytes) × (z : ℕ) × (bs ≡ ys ++ (z ∷ []))
      × (length ys ≡ n)
      × All (λ b. b < 256) ys
      × (z < 256)
snoc_view n [] e h = absurd (omega arith)
snoc_view zero (b ∷ []) e h = ([], b, refl, refl, tt, h.0)
snoc_view zero (b ∷ c ∷ bs) e h = absurd (omega arith)
snoc_view (suc n) (b ∷ []) e h = absurd (omega arith)
snoc_view (suc n) (b ∷ c ∷ bs) e h =
    let (ys, z, split, len, small, last) = snoc_view n (c ∷ bs) (omega arith) h.1 in
    (b ∷ ys, z, ap (◌∷◌ b) split, omega arith, (h.0, small), last)

-- Writing the number that bytes stand for gives the bytes back.
pub to_be-be : (n : ℕ) (bs : Bytes) → length bs ≡ n → All (λ b. b < 256) bs → to_be n (be bs) ≡ bs
unfolding to_be be
to_be-be zero [] e h = refl
to_be-be zero (b ∷ bs) e h = absurd (omega arith)
to_be-be (suc n) bs e h =
    let (ys, z, split, len, small, last) = snoc_view n bs e h in
    rw (split, be_from-append 0 ys z)
      (rw (shifted (be_from 0 ys) z last, low (be_from 0 ys) z last, to_be-be n ys len small))
  where
    shifted : (x z : ℕ) → z < 256 → (x * 256 + z) / 256 ≡ x
    shifted x z h = omega arith

    low : (x z : ℕ) → z < 256 → (x * 256 + z) % 256 ≡ z
    low x z h = omega arith

-- A slice of a slice from its start, and one further in.
pub slice_of_slice :
    (from m k n : ℕ) (raw : Bytes)
    → k + n ≤ m
    → slice k n (slice from m raw) ≡ slice (from + k) n raw
slice_of_slice from m k n raw h =
    ap (take n) (drop-take k m (drop from raw) (omega arith))
    ∙ take-take n (m - k) (drop k (drop from raw)) (omega arith)
    ∙ ap (take n) (drop-drop from k raw)
