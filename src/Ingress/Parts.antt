-- ===== src/Ingress/Parts.antt =====
-- The partition of the multicast groups over the ingress workers (ingress/ingress.go, `Partition`).
use mathlib.Core.List.{
  Perm, append_assoc, append-nil, perm_append_comm, perm-append_left_iff, perm-append_right_iff,
}
use mathlib.Core.List.Perm
use native.Mathlib.Nat.{mod-lt}
use retry_endpoint.Ingress.{append_at, deal, empty_parts, part_count, partition}
use retry_endpoint.Prelude.{
  ℕ, zero, suc, ◌%◌, ◌<◌, ◌≡◌, refl, sym, ap, ◌∙◌, subst, List, [], ◌∷◌, ◌++◌, length, arith,
  if◌then◌else◌, max, min,
}
use retry_endpoint.Prelude.Int.{ℤ, pos, negsuc, not_positive, to_ℕ}

count : (len : ℕ) (n : ℤ) → max 1 (to_ℕ (part_count len n)) ≡ max 1 (min (to_ℕ n) len)
unfolding part_count
count len (pos n) = ground arith
count len (negsuc n) = omega arith

module _ {ℓ} {A : Type ℓ} where
  -- The parts in one list.
  abbrev pub joined : List (List A) → List A
  joined [] = []
  joined (p ∷ ps) = p ++ joined ps

  length-append_at : (i : ℕ) (g : A) (ps : List (List A)) → length (append_at i g ps) ≡ length ps
  unfolding append_at
  length-append_at i g [] = refl
  length-append_at zero g (p ∷ ps) = refl
  length-append_at (suc i) g (p ∷ ps) = ap suc (length-append_at i g ps)

  append_at-Perm :
      (i : ℕ) (g : A) (ps : List (List A))
      → i < length ps
      → Perm (joined (append_at i g ps)) (joined ps ++ (g ∷ []))
  unfolding append_at
  append_at-Perm i g [] h = absurd (omega arith)
  append_at-Perm zero g (p ∷ ps) h =
      rw (append_assoc p (g ∷ []) (joined ps), append_assoc p (joined ps) (g ∷ []))
        ((perm-append_left_iff p).1 (perm_append_comm (g ∷ []) (joined ps)))
  append_at-Perm (suc i) g (p ∷ ps) h =
      rw (append_assoc p (joined ps) (g ∷ []))
        ((perm-append_left_iff p).1 (append_at-Perm i g ps (omega arith)))

  deal-Perm :
      (n i : ℕ) (gs : List A) (ps : List (List A))
      → length ps ≡ n
      → 0 < n
      → Perm (joined (deal n i gs ps)) (joined ps ++ gs) × (length (deal n i gs ps) ≡ n)
  unfolding deal
  deal-Perm n i [] ps e h = (rw (append-nil (joined ps)) (Perm.refl (joined ps)), e)
  deal-Perm n i (g ∷ gs) ps e h =
      let ih =
        deal-Perm n (suc i) gs (append_at (i % n) g ps) (length-append_at (i % n) g ps ∙ e) h in
      (
        Perm.trans ih.0 (
            subst (Perm (joined (append_at (i % n) g ps) ++ gs))
              (append_assoc (joined ps) (g ∷ []) gs)
              ((perm-append_right_iff gs).1
                (append_at-Perm (i % n) g ps (subst (λ m. i % n < m) (sym e) (mod-lt i h))))),
        ih.1,
      )

  length-empty_parts :
      (n : ℕ) → (length (empty_parts {A = A} n) ≡ n) × (joined (empty_parts {A = A} n) ≡ [])
  unfolding empty_parts
  length-empty_parts zero = (refl, refl)
  length-empty_parts (suc n) = (ap suc (length-empty_parts n).0, (length-empty_parts n).1)

  parts-Perm :
      (groups : List A) (m : ℤ)
      → let ps =
          if not_positive m then groups ∷ [] else deal (to_ℕ m) 0 groups (empty_parts (to_ℕ m)) in
        Perm (joined ps) groups × (length ps ≡ max 1 (to_ℕ m))
  parts-Perm groups (negsuc m) = (rw (append-nil groups) (Perm.refl groups), refl)
  parts-Perm groups (pos zero) = (rw (append-nil groups) (Perm.refl groups), refl)
  parts-Perm groups (pos (suc m)) =
      let start = length-empty_parts (suc m) in
      let all = deal-Perm (suc m) 0 groups (empty_parts (suc m)) start.0 (omega arith) in
      (
        subst (λ xs. Perm (joined (deal (suc m) 0 groups (empty_parts (suc m)))) (xs ++ groups))
            start.1 all.0,
        omega (arith, all.1),
      )

  -- The parts hold the configured groups, each as often as it is listed, and nothing else; there
  -- are as many parts as were asked for unless the groups are fewer, and at least one.
  pub partition-Perm :
      (groups : List A) (n : ℤ)
      → Perm (joined (partition groups n)) groups
        × (length (partition groups n) ≡ max 1 (min (to_ℕ n) (length groups)))
  unfolding partition part_count
  partition-Perm groups n =
      let all = parts-Perm groups (part_count (length groups) n) in
      (all.0, all.1 ∙ count (length groups) n)
