-- ===== src/Cache/Views.antt =====
-- Several views of one backend (cache/cache.go): the frames, and the claims of the dedup gates.
use retry_endpoint.Prelude.{
  ◌≡◌, ◌≢◌, ◌<◌, refl, sym, ap, ap₂, ◌∙◌, ◌⊎◌, inl, inr, true, Option, none, some, List, [], ◌∷◌,
  length, take, drop, take-append_left, drop-append_left,
}
use retry_endpoint.Prelude.Bytes.{Bytes}
use retry_endpoint.Prelude.Int.{ℤ, to_ℕ}
use mathlib.Core.Option.{some-injective}
use retry_endpoint.Cache
use retry_endpoint.Cache.{Backend, Got, Store, key}

-- What the program relies on when it looks a frame up: a `Set` that succeeds, with a lifetime, is
-- read back by the `Get` that comes next.
pub record ReadsBack {B : Type 0} (b : Backend B) : Type 0 where
  pub get-set :
      (c : Option ℤ) (k v : Bytes) (ttl : ℤ) (st : B)
      → 0 < to_ℕ ttl
      → (b.set c k v ttl st).0 ≡ true
      → (b.get c k (b.set c k v ttl st).1).0 ≡ Got.found v

-- A backend may lose any entry, to its capacity or to the entry's deadline.
abbrev pub Remains : Option Bytes → Option Bytes → Type 0
Remains before after = (after ≡ before) ⊎ (after ≡ none)

-- A backend that holds a value for some keys: what it finds is what it holds, a `Set` that succeeds
-- makes it hold no other value for the key, and no operation gives another key a value.
pub record Holds {B : Type 0} (b : Backend B) (holds : B → Bytes → Option Bytes) : Type 0 where
  pub get_sound :
      (c : Option ℤ) (k u : Bytes) (st : B) → (b.get c k st).0 ≡ Got.found u → holds st k ≡ some u
  pub set_here :
      (c : Option ℤ) (k v : Bytes) (ttl : ℤ) (st : B)
      → (b.set c k v ttl st).0 ≡ true
      → Remains (some v) (holds (b.set c k v ttl st).1 k)
  pub set_elsewhere :
      (c : Option ℤ) (k j v : Bytes) (ttl : ℤ) (st : B)
      → j ≢ k
      → Remains (holds st j) (holds (b.set c k v ttl st).1 j)
  pub set_nx_elsewhere :
      (c : Option ℤ) (k j v : Bytes) (ttl : ℤ) (st : B)
      → j ≢ k
      → Remains (holds st j) (holds (b.set_nx c k v ttl st).1 j)
  pub del_elsewhere :
      (c : Option ℤ) (k j : Bytes) (st : B)
      → j ≢ k
      → Remains (holds st j) (holds (b.del c k st).1 j)
  pub get_anywhere :
      (c : Option ℤ) (k j : Bytes) (st : B) → Remains (holds st j) (holds (b.get c k st).1 j)

-- An operation through some view of the backend.
pub data Op : Type 0 where
  store set_nx : Store → Bytes → Bytes → ℤ → Op
  delete retrieve : Store → Bytes → Op

-- The state after the operations of all the parts, in the order in which the backend sees them.
abbrev pub run : {B : Type 0} → Backend B → List Op → B → B
run b [] st = st
run b (Op.store t k v ttl ∷ ops) st = run b ops (Cache.store b t k v ttl st).1
run b (Op.set_nx t k v ttl ∷ ops) st = run b ops (Cache.set_nx b t k v ttl st).1
run b (Op.delete t k ∷ ops) st = run b ops (Cache.delete b t k st).1
run b (Op.retrieve t k ∷ ops) st = run b ops (Cache.retrieve b t k st).1

-- Another key of the view, or any key of a view whose prefix is another of the same length.
abbrev pub IsElsewhere : Store → Bytes → Store → Bytes → Type 0
IsElsewhere s k t j =
    ((t.prefix ≡ s.prefix) × (j ≢ k))
    ⊎ ((length t.prefix ≡ length s.prefix) × (t.prefix ≢ s.prefix))

-- None of the operations writes to the key `k` of the view `s`.
abbrev pub Spares : Store → Bytes → List Op → Type 0
Spares s k [] = Unit
Spares s k (Op.store t j v ttl ∷ ops) = IsElsewhere s k t j × Spares s k ops
Spares s k (Op.set_nx t j v ttl ∷ ops) = IsElsewhere s k t j × Spares s k ops
Spares s k (Op.delete t j ∷ ops) = IsElsewhere s k t j × Spares s k ops
Spares s k (Op.retrieve t j ∷ ops) = Spares s k ops

IsElsewhere-keys : (s t : Store) (k j : Bytes) → IsElsewhere s k t j → key s k ≢ key t j
unfolding key
IsElsewhere-keys s t k j (inl (same, ne)) e = ne (
    sym (drop-append_left t.prefix j)
    ∙ ap₂ drop (ap length same) (sym e)
    ∙ drop-append_left s.prefix k)
IsElsewhere-keys s t k j (inr (len, ne)) e =
    ne (sym (take-append_left t.prefix j) ∙ ap₂ take len (sym e) ∙ take-append_left s.prefix k)

Remains-trans : (x y z : Option Bytes) → Remains x y → Remains y z → Remains x z
Remains-trans x y z (inl e) (inl f) = inl (f ∙ e)
Remains-trans x y z (inr e) (inl f) = inr (f ∙ e)
Remains-trans x y z h (inr f) = inr f

module _ {B : Type 0} (b : Backend B) (s : Store) where
  -- A frame that a view stores without error is what the view retrieves under that key.
  pub retrieve-store :
      (k v : Bytes) (ttl : ℤ) (st : B)
      → ReadsBack b
      → 0 < to_ℕ ttl
      → (Cache.store b s k v ttl st).0 ≡ true
      → (Cache.retrieve b s k (Cache.store b s k v ttl st).1).0 ≡ Got.found v
  unfolding Cache.store Cache.retrieve
  retrieve-store k v ttl st ok live h = ok.get-set _ _ v ttl st live h

module _ {B : Type 0} (b : Backend B) (holds : B → Bytes → Option Bytes) (ok : Holds b holds)
    (s : Store) (k : Bytes) where
  run-Remains :
      (ops : List Op) (st : B)
      → Spares s k ops
      → Remains (holds st (key s k)) (holds (run b ops st) (key s k))
  unfolding Cache.store Cache.set_nx Cache.delete Cache.retrieve
  run-Remains [] st d = inl refl
  run-Remains (Op.store t j v ttl ∷ ops) st d =
      Remains-trans _ _ _ (ok.set_elsewhere _ _ _ v ttl st (IsElsewhere-keys s t k j d.0))
        (run-Remains ops _ d.1)
  run-Remains (Op.set_nx t j v ttl ∷ ops) st d =
      Remains-trans _ _ _ (ok.set_nx_elsewhere _ _ _ _ ttl st (IsElsewhere-keys s t k j d.0))
        (run-Remains ops _ d.1)
  run-Remains (Op.delete t j ∷ ops) st d =
      Remains-trans _ _ _ (ok.del_elsewhere _ _ _ st (IsElsewhere-keys s t k j d.0))
        (run-Remains ops _ d.1)
  run-Remains (Op.retrieve t j ∷ ops) st d =
      Remains-trans _ _ _ (ok.get_anywhere _ _ _ st) (run-Remains ops _ d)

  -- On a backend that may lose entries but makes none up: after a frame is stored without error
  -- under a key of a view, and any operations that do not write to that key of that view (stores,
  -- claims, deletions and lookups, through this view or through views whose prefix is another of
  -- the same length), a lookup of the key that finds a value finds that frame.
  pub retrieve-run :
      (v u : Bytes) (ttl : ℤ) (st : B) (ops : List Op)
      → (Cache.store b s k v ttl st).0 ≡ true
      → Spares s k ops
      → (Cache.retrieve b s k (run b ops (Cache.store b s k v ttl st).1)).0 ≡ Got.found u
      → u ≡ v
  unfolding Cache.store Cache.retrieve
  retrieve-run v u ttl st ops stored d found =
      let start = (b.set (Cache.op_ctx s) (key s k) v ttl st).1 in
      let held = ok.get_sound _ _ u _ found in
      elim (Remains-trans (some v) (holds start (key s k)) _ (ok.set_here _ _ v ttl st stored)
        (run-Remains ops start d)) [
          | inl same ↦ some-injective _ _ (sym held ∙ same)
          | inr gone ↦ absurd (cc (held, gone))
        ]
