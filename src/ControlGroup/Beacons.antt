-- ===== src/ControlGroup/Beacons.antt =====
-- The prefixes into which the beacon advertises (config/controlgroup.go, `BeaconGroupPrefixes`).
use retry_endpoint.ControlGroup.{
  Shard, Compat, ScopeName, BeaconScope, Prefixes, has, add_new, add_all, collect_next, collect,
  control_group_prefixes, beacon_group_prefixes, beacon_scope_names, named_prefixes,
}
use retry_endpoint.Prelude.{
  ℕ, ◌≡◌, refl, sym, ap, ◌∙◌, Bool, true, false, ◌||◌, some, List, [], ◌∷◌, ◌++◌, ◌==◌,
  if◌then◌else◌, arith, subst,
}

abbrev pub IsDistinct : List ℕ → Type 0
IsDistinct [] = Unit
IsDistinct (p ∷ ps) = (has p ps ≡ false) × IsDistinct ps

has-snoc_new :
    (q p : ℕ) (ps : List ℕ) → has q ps ≡ false → (q == p) ≡ false → has q (ps ++ (p ∷ [])) ≡ false
unfolding has
has-snoc_new q p [] h e = ground arith
has-snoc_new q p (x ∷ ps) h e = ground (arith, has-snoc_new q p ps)

has-snoc : (q p : ℕ) (ps : List ℕ) → has q (ps ++ (p ∷ [])) ≡ (has q ps || q == p)
unfolding has
has-snoc q p [] = ground arith
has-snoc q p (x ∷ ps) = ground (arith, has-snoc q p ps)

snoc-IsDistinct :
    (p : ℕ) (ps : List ℕ) → has p ps ≡ false → IsDistinct ps → IsDistinct (ps ++ (p ∷ []))
unfolding has
snoc-IsDistinct p [] h d = (refl, tt)
snoc-IsDistinct p (x ∷ ps) h d =
    (has-snoc_new x p ps d.0 (ground arith), snoc-IsDistinct p ps (ground arith) d.1)

-- What adding prefixes does: no prefix is there twice, and those that are there are the old and the
-- new ones.
record Grown (ps out out' : List ℕ) : Type 0 where
  distinct : IsDistinct out → IsDistinct out'
  same : (q : ℕ) → has q out' ≡ (has q out || has q ps)

add_new-Grown : (out : List ℕ) (p : ℕ) → Grown (p ∷ []) out (add_new out p)
unfolding add_new has
add_new-Grown out p = go (has p out) refl
  where
    twice :
        (q : ℕ) (b c : Bool)
        → has p out ≡ true
        → has q out ≡ b
        → (q == p) ≡ c
        → b ≡ (b || (c || false))
    twice q true c e f g = refl
    twice q false true e f g = ground (arith, e, f, g)
    twice q false false e f g = refl

    alike : (b c : Bool) → (b || c) ≡ (b || (c || false))
    alike true c = refl
    alike false true = refl
    alike false false = refl

    go : (b : Bool) → has p out ≡ b → Grown (p ∷ []) out (if b then out else out ++ (p ∷ []))
    go true e = record { distinct = λ d. d; same = λ q. twice q (has q out) (q == p) e refl refl }
    go false e = record {
      distinct = snoc-IsDistinct p out e;
      same = λ q. has-snoc q p out ∙ alike (has q out) (q == p);
    }

add_all-Grown : (out ps : List ℕ) → Grown ps out (add_all out ps)
unfolding add_all has
add_all-Grown out [] = record { distinct = λ d. d; same = λ q. alike (has q out) }
  where
    alike : (b : Bool) → b ≡ (b || false)
    alike true = refl
    alike false = refl
add_all-Grown out (p ∷ ps) =
    let one = add_new-Grown out p in
    let more = add_all-Grown (add_new out p) ps in
    record {
      distinct = λ d. more.distinct (one.distinct d);
      same = λ q.
          more.same q
          ∙ ap (λ b. b || has q ps) (one.same q)
          ∙ alike (has q out) (q == p) (has q ps);
    }
  where
    alike : (a b c : Bool) → ((a || (b || false)) || c) ≡ (a || (b || c))
    alike true b c = refl
    alike false true c = refl
    alike false false c = refl

module _ (shard : Shard) (ssm : Bool) (c : Compat) where
  abbrev pub holds : ℕ → Prefixes → Bool
  holds q (Prefixes.error e) = false
  holds q (Prefixes.ok ps) = has q ps

  -- Whether some scope of the list has a prefix.
  abbrev pub offered : List ScopeName → ℕ → Bool
  offered [] q = false
  offered (name ∷ names) q = holds q (control_group_prefixes shard ssm c name) || offered names q

  -- What a result says, from the prefixes `out`, of the scopes that `more` tells.
  abbrev Collected : List ℕ → (ℕ → Bool) → Prefixes → Type 0
  Collected out more (Prefixes.error e) = Unit
  Collected out more (Prefixes.ok ps) =
      (IsDistinct out → IsDistinct ps) × ((q : ℕ) → has q ps ≡ (has q out || more q))

  step-Collected :
      (out qs : List ℕ) (more : ℕ → Bool) (r : Prefixes)
      → Collected (add_all out qs) more r
      → Collected out (λ q. has q qs || more q) r
  step-Collected out qs more (Prefixes.error e) h = tt
  step-Collected out qs more (Prefixes.ok ps) h =
      let grown = add_all-Grown out qs in
      (
        λ d. h.0 (grown.distinct d),
        λ q. h.1 q ∙ ap (λ b. b || more q) (grown.same q) ∙ assoc (has q out) (has q qs) (more q),
      )
    where
      assoc : (a b c : Bool) → ((a || b) || c) ≡ (a || (b || c))
      assoc true b c = refl
      assoc false b c = refl

  collect_next-Collected :
      (r : Prefixes) (rest : List ℕ → Prefixes) (out : List ℕ) (more : ℕ → Bool)
      → ((out' : List ℕ) → Collected out' more (rest out'))
      → Collected out (λ q. holds q r || more q) (collect_next shard ssm c r rest out)
  unfolding collect_next
  collect_next-Collected (Prefixes.error e) rest out more h = tt
  collect_next-Collected (Prefixes.ok qs) rest out more h =
      step-Collected out qs more (rest (add_all out qs)) (h (add_all out qs))

  collect-Collected :
      (names : List ScopeName) (out : List ℕ)
      → Collected out (offered names) (collect shard ssm c names out)
  unfolding collect
  collect-Collected [] out = (λ d. d, λ q. unit (has q out))
    where
      unit : (b : Bool) → b ≡ (b || false)
      unit true = refl
      unit false = refl
  collect-Collected (name ∷ names) out =
      collect_next-Collected (control_group_prefixes shard ssm c name) (collect shard ssm c names)
        out (offered names) (collect-Collected names)

  -- When the prefixes of a beacon scope resolve, no prefix is listed twice, and the list holds
  -- exactly the prefixes of the scopes that the beacon scope covers.
  pub beacon_group_prefixes-Distinct :
      (scope : BeaconScope) (names : List ScopeName) (ps : List ℕ)
      → beacon_scope_names scope ≡ some names
      → beacon_group_prefixes shard ssm c scope ≡ Prefixes.ok ps
      → IsDistinct ps × ((q : ℕ) → has q ps ≡ offered names q)
  unfolding beacon_group_prefixes named_prefixes has
  beacon_group_prefixes-Distinct scope names ps e f =
      let all =
        subst (Collected [] (offered names)) (sym (ap (named_prefixes shard ssm c) e) ∙ f)
          (collect-Collected names []) in
      (all.0 tt, all.1)
