-- ===== src/Prelude/Assoc.antt =====
-- Go maps as association lists: lookup, assignment, and the deletion of entries in a range loop.
use Prim.Native.Nat.{◌+◌, ◌≤◌}
use mathlib.Core.Bool.{Bool}
use mathlib.Core.List.{List, [], ◌∷◌}
use mathlib.Core.Logic.{ite}
use mathlib.Core.Option.{Option, none, some}
use mathlib.Core.Path.{◌≡◌, refl}
use native.Mathlib.Omega.{arith}
use retry_endpoint.Prelude.Lists.{length}
use retry_endpoint.Prelude.Tests.{if◌then◌else◌}

-- `if p(v) { delete(m, k) }` over the whole map, with `p` the test for keeping an entry.
unfoldable pub keep {ℓ} : {K V : Type ℓ} → (V → Bool) → List (K × V) → List (K × V)
keep p [] = []
keep p ((k, v) ∷ m) = let rest = keep p m in if p v then (k, v) ∷ rest else rest

pub length-keep-le {ℓ} :
    {K V : Type ℓ} (p : V → Bool) (m : List (K × V)) → length (keep p m) ≤ length m
unfolding keep
length-keep-le p [] = omega arith
length-keep-le p ((k, v) ∷ m) = ground (arith, length-keep-le p m)

-- What is left of an optional value after a test.
abbrev pub filtered {ℓ} : {V : Type ℓ} → (V → Bool) → Option V → Option V
filtered p none = none
filtered p (some v) = if p v then some v else none

module _ {ℓ} {K V : Type ℓ} (dec : Discrete K) where
  -- `v, ok := m[k]`
  unfoldable pub lookup : K → List (K × V) → Option V
  lookup k [] = none
  lookup k ((j, v) ∷ m) = ite (dec j k) (some v) (lookup k m)

  -- `m[k] = v`
  unfoldable pub insert : K → V → List (K × V) → List (K × V)
  insert k v [] = (k, v) ∷ []
  insert k v ((j, w) ∷ m) = ite (dec j k) ((j, v) ∷ m) ((j, w) ∷ insert k v m)

  -- No key stands twice.
  abbrev pub IsDistinct : List (K × V) → Type ℓ
  IsDistinct [] = Unit
  IsDistinct ((k, v) ∷ m) = (lookup k m ≡ none) × IsDistinct m

  pub lookup-insert :
      (k j : K) (v : V) (m : List (K × V))
      → lookup j (insert k v m) ≡ ite (dec k j) (some v) (lookup j m)
  unfolding lookup insert
  lookup-insert k j v [] = refl
  lookup-insert k j v ((i, w) ∷ m) = ground (arith, lookup-insert k j v m)

  lookup-keep-none :
      (p : V → Bool) (k : K) (m : List (K × V)) → lookup k m ≡ none → lookup k (keep p m) ≡ none
  unfolding lookup keep
  lookup-keep-none p k [] h = refl
  lookup-keep-none p k ((j, v) ∷ m) h = ground (arith, lookup-keep-none p k m)

  pub lookup-keep :
      (p : V → Bool) (k : K) (m : List (K × V))
      → IsDistinct m
      → lookup k (keep p m) ≡ filtered p (lookup k m)
  unfolding lookup keep
  lookup-keep p k [] d = refl
  lookup-keep p k ((j, v) ∷ m) d = ground (arith, lookup-keep p k m, lookup-keep-none p j m d.0)

  pub keep-IsDistinct : (p : V → Bool) (m : List (K × V)) → IsDistinct m → IsDistinct (keep p m)
  unfolding keep
  keep-IsDistinct p [] d = d
  keep-IsDistinct p ((j, v) ∷ m) d =
      ground (arith, keep-IsDistinct p m d.1, lookup-keep-none p j m d.0)

  pub insert-IsDistinct :
      (k : K) (v : V) (m : List (K × V)) → IsDistinct m → IsDistinct (insert k v m)
  unfolding insert lookup
  insert-IsDistinct k v [] d = (refl, tt)
  insert-IsDistinct k v ((j, w) ∷ m) d =
      ground (arith, insert-IsDistinct k v m d.1, lookup-insert k j v m)

  -- Assignment to a new key adds one entry; to an old key, none.
  pub length-insert_new :
      (k : K) (v : V) (m : List (K × V)) → lookup k m ≡ none → length (insert k v m) ≡ length m + 1
  unfolding insert lookup
  length-insert_new k v [] h = omega arith
  length-insert_new k v ((j, w) ∷ m) h = ground (arith, length-insert_new k v m)

  pub length-insert_old :
      (k : K) (v w : V) (m : List (K × V)) → lookup k m ≡ some w → length (insert k v m) ≡ length m
  unfolding insert lookup
  length-insert_old k v w [] h = absurd (cc h)
  length-insert_old k v w ((j, u) ∷ m) h = ground (arith, length-insert_old k v w m)
