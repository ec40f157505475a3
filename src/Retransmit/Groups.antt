-- ===== src/Retransmit/Groups.antt =====
-- The group of the fourth tier (server/server.go, `processNACK`) and the group of `targetGroup`
-- (retransmit/retransmit.go).
use retry_endpoint.Frames.{FrameLib, Classes}
use retry_endpoint.Prelude.{
  ℕ, ◌≤◌, ◌≡◌, ◌≢◌, refl, sym, Bool, true, false, some, arith, length, get_or, ◌==◌, leb, ltb, ◌↔◌,
}
use retry_endpoint.Prelude.Bytes.{Bytes}
use retry_endpoint.Retransmit.{
  Retransmitter, Target, target_group, class_group, tx_group, beef_group,
}
use retry_endpoint.Server.Calls.{Deps}
use retry_endpoint.Server.Handler
use retry_endpoint.Server.Handler.{Server, tx_id}

other_version : (a b : ℕ) → a ≢ b → (a == b) ≡ false
other_version a b n = ground arith

same_test : (a b : ℕ) (t : Bool) → (t ≡ true) ↔ (a ≡ b) → t ≡ (a == b)
same_test a b true i = ground (arith, i.0 refl)
same_test a b false i = sym (other_version a b (λ e. absurd (cc (i.1 e))))

enough : (m n : ℕ) → m ≤ n → leb m n ≡ true
enough m n h = ground arith

not_short : (m n : ℕ) → m ≤ n → ltb n m ≡ false
not_short m n h = ground arith

module _ {W : Type 0} (lib : FrameLib) (deps : Deps W) (s : Server) (r : Retransmitter) where
  -- The two sides by the tests on the version, of which those for other classes fail.
  by_version :
      (beef : Bytes → ℕ) (raw : Bytes) (is_v9 is_v8 : Bool)
      → s.beef_engine ≡ some beef
      → r.beef_engine ≡ some beef
      → 88 ≤ length raw
      → lib.is_beef raw ≡ is_v9
      → lib.is_bundle raw ≡ is_v8
      → (get_or raw 6 0 == lib.ver_v9) ≡ is_v9
      → (get_or raw 6 0 == lib.ver_v8) ≡ is_v8
      → (get_or raw 6 0 == lib.ver_v4) ≡ false
      → (get_or raw 6 0 == lib.ver_v6) ≡ false
      → (get_or raw 6 0 == lib.ver_v5) ≡ false
      → (get_or raw 6 0 == lib.ver_v3) ≡ false
      → class_group lib r raw (tx_id raw)
        ≡ Target.to (r.engine.addr (Handler.rate_group lib deps s r.engine.group_index raw))
  unfolding class_group tx_group beef_group Handler.rate_group
  by_version beef raw true is_v8 es er le b9 b8 t9 t8 t4 t6 t5 t3 =
      rw (t4, t6, t5, t9, es, er, b9, enough 88 (length raw) le, not_short 88 (length raw) le) refl
  by_version beef raw false true es er le b9 b8 t9 t8 t4 t6 t5 t3 =
      rw (t4, t6, t5, t9, t3, t8, es, b9, b8, enough 58 (length raw) (omega arith)) refl
  by_version beef raw false false es er le b9 b8 t9 t8 t4 t6 t5 t3 =
      rw (t4, t6, t5, t9, t3, t8, es, b9, b8) refl

  -- A transaction frame, a bundle or a BEEF frame of 88 bytes or more is charged to the very group
  -- that it is then multicast to, when the server and the retransmitter share the shard engine and
  -- the plane engine. (Blocks, subtrees, anchors and fragments are multicast to groups of their
  -- own.)
  pub rate_group-target_group :
      (beef : Bytes → ℕ) (raw : Bytes)
      → Classes lib
      → s.beef_engine ≡ some beef
      → r.beef_engine ≡ some beef
      → 88 ≤ length raw
      → get_or raw 6 0 ≢ lib.ver_v3
      → get_or raw 6 0 ≢ lib.ver_v4
      → get_or raw 6 0 ≢ lib.ver_v5
      → get_or raw 6 0 ≢ lib.ver_v6
      → target_group lib r raw (tx_id raw)
        ≡ Target.to (r.engine.addr (Handler.rate_group lib deps s r.engine.group_index raw))
  unfolding target_group
  rate_group-target_group beef raw c es er le n3 n4 n5 n6 =
      rw (enough 7 (length raw) (omega arith)) (
        by_version beef raw _ _ es er le refl refl (sym (same_test _ _ _ (c.beef_iff raw)))
          (sym (same_test _ _ _ (c.bundle_iff raw))) (other_version _ _ n4) (other_version _ _ n6)
          (other_version _ _ n5) (other_version _ _ n3))
