-- ===== src/Effects.antt =====
-- Code with effects: a function of the world (what the dependencies keep) that also records its
-- calls, the latest first. `W` is the type of worlds and `C` that of recorded calls.
use retry_endpoint.Prelude.{Bool, List, ◌∷◌, if◌then◌else◌}

pub record Run (W C : Type 0) : Type 0 where
  pub world : W
  pub calls : List C

abbrev pub M : Type 0 → Type 0 → Type 0 → Type 0
M W C A = Run W C → A × Run W C

abbrev pub pure : {W C A : Type 0} → A → M W C A
pure a r = (a, r)

infixl 5 ◌>>=◌ ◌>>◌
abbrev pub ◌>>=◌ : {W C A B : Type 0} → M W C A → (A → M W C B) → M W C B
◌>>=◌ m f r = f (m r).0 (m r).1

abbrev pub ◌>>◌ : {W C B : Type 0} → M W C (Unit {0}) → M W C B → M W C B
m >> k = m >>= λ _. k

-- A call of a dependency, whose effect is in the world alone.
abbrev pub ask : {W C A : Type 0} → (W → A × W) → M W C A
ask f r = ((f r.world).0, record r { world = (f r.world).1 })

abbrev pub note : {W C : Type 0} → C → M W C (Unit {0})
note c r = (tt, record r { calls = c ∷ r.calls })

abbrev pub when : {W C : Type 0} → Bool → M W C (Unit {0}) → M W C (Unit {0})
when b m r = if b then m r else (tt, r)
