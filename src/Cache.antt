-- ===== src/Cache.antt =====
-- Package cache (cache/cache.go): a namespaced view of a shared backend. The backend of
-- shard-common is a parameter; an operation gets its deadline, `none` without one.
use retry_endpoint.Prelude.{ℕ, Bool, true, false, Option, none, some, ◌++◌, if◌then◌else◌}
use retry_endpoint.Prelude.Bytes.{Bytes}
use retry_endpoint.Prelude.Int.{ℤ, pos, not_positive}
pub mod Views

-- The answer of `Get`: an error, (nil, nil), or a value.
pub data Got : Type 0 where
  failed missing : Got
  found : Bytes → Got

-- `scache.Backend`. `set` and `del` say whether they succeed; `set_nx` returns its error and its
-- result; `is_memory` is the type assertion to *memory.Backend, `len` the one to Len().
pub record Backend (B : Type 0) : Type 0 where
  pub is_memory : Bool
  pub set : Option ℤ → Bytes → Bytes → ℤ → B → Bool × B
  pub get : Option ℤ → Bytes → B → Got × B
  pub del : Option ℤ → Bytes → B → Bool × B
  pub set_nx : Option ℤ → Bytes → Bytes → ℤ → B → (Bool × Bool) × B
  pub len : Option (B → ℕ)

-- `time.Second`, in nanoseconds.
abbrev pub second : ℤ
second = pos 1000000000

pub record Store : Type 0 where
  pub prefix : Bytes
  pub op_timeout : ℤ
  pub is_local : Bool

-- `NewStore`
unfoldable pub new_store : {B : Type 0} → Backend B → Bytes → ℤ → Store
new_store b prefix op_timeout = record {
  prefix = prefix;
  op_timeout = if not_positive op_timeout then second else op_timeout;
  is_local = b.is_memory;
}

-- `key`
unfoldable pub key : Store → Bytes → Bytes
key s k = s.prefix ++ k

-- `opCtx`: a remote operation is bounded, a local one never waits.
unfoldable pub op_ctx : Store → Option ℤ
op_ctx s = if s.is_local then none else some s.op_timeout

module _ {B : Type 0} (b : Backend B) (s : Store) where
  -- `Store`
  unfoldable pub store : Bytes → Bytes → ℤ → B → Bool × B
  store k value ttl = b.set (op_ctx s) (key s k) value ttl

  -- `Retrieve`
  unfoldable pub retrieve : Bytes → B → Got × B
  retrieve k = b.get (op_ctx s) (key s k)

  -- `Delete`
  unfoldable pub delete : Bytes → B → Bool × B
  delete k = b.del (op_ctx s) (key s k)

  -- `SetNX`
  unfoldable pub set_nx : Bytes → Bytes → ℤ → B → (Bool × Bool) × B
  set_nx k value ttl = b.set_nx (op_ctx s) (key s k) value ttl

  -- `Len`
  unfoldable pub len : B → ℕ
  len st = elim b.len [ none ↦ 0 | some f ↦ f st ]

  -- `Close`, which leaves the backend to its owner.
  unfoldable pub close : B → Bool × B
  close st = (true, st)
