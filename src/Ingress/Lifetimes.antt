-- ===== src/Ingress/Lifetimes.antt =====
-- The lifetimes in the cache by frame version, as a table: for fragments by the version of the frame
-- that is cut (ingress/ingress.go, `processFragmentFrame`), and for recovered frames by their own
-- (proxy/proxy.go, `ttlFor`).
use retry_endpoint.Frames.{FrameLib}
use retry_endpoint.Prelude.{ℕ, List, [], ◌∷◌, ◌==◌, if◌then◌else◌}
use retry_endpoint.Prelude.Int.{ℤ}
use retry_endpoint.Proxy.{Ttls}

-- The first entry for a version, or the default.
abbrev entry : ℕ → ℤ → List (ℕ × ℤ) → ℤ
entry ver default [] = default
entry ver default ((v, ttl) ∷ rows) = if ver == v then ttl else entry ver default rows

-- BRC-131 blocks, BRC-132 subtree data, BRC-134 anchors, BRC-148 BEEF; all else lives like a
-- transaction.
abbrev pub lifetime : FrameLib → Ttls → ℕ → ℤ
lifetime lib t ver = entry ver t.tx (
    (lib.ver_v4, t.block)
    ∷ (lib.ver_v5, t.subtree)
    ∷ (lib.ver_v6, t.anchor)
    ∷ (lib.ver_v9, t.beef)
    ∷ [])
