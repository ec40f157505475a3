-- ===== src/Proxy/Fetch.antt =====
-- The datagram that `fetch` returns (proxy/proxy.go).
use retry_endpoint.Frames.{FrameLib}
use retry_endpoint.Prelude.{
  ◌≡◌, refl, sym, ap, ◌∙◌, ◌↔◌, Bool, true, false, none, some, List, [], ◌∷◌, ◌++◌, All,
  if◌then◌else◌,
}
use mathlib.Core.Option.{some-injective}
use retry_endpoint.Prelude.Bytes.{Bytes}
use retry_endpoint.Proxy.{accept, is_frame, is_miss}

module _ (lib : FrameLib) where
  -- `raw` is a frame, and neither a frame nor a MISS came before it.
  abbrev pub IsFirst : List Bytes → Bytes → Type 0
  IsFirst ds raw =
      (before after : List Bytes) × (ds ≡ before ++ (raw ∷ after))
      × (is_frame lib raw ≡ true)
      × All (λ d. (is_frame lib d ≡ false) × (is_miss lib d ≡ false)) before

  first :
      (d : Bytes) (ds : List Bytes) (raw : Bytes) (frame miss : Bool)
      → is_frame lib d ≡ frame
      → is_miss lib d ≡ miss
      → (accept lib ds ≡ some raw → IsFirst ds raw)
      → (if frame then some d else if miss then none else accept lib ds) ≡ some raw
      → IsFirst (d ∷ ds) raw
  first d ds raw true miss f m ih e =
      let same = some-injective _ _ e in
      ([], ds, ap (λ x. x ∷ ds) same, ap (is_frame lib) (sym same) ∙ f, tt)
  first d ds raw false true f m ih e = absurd (cc e)
  first d ds raw false false f m ih e =
      let (before, after, split, fr, none_before) = ih e in
      (d ∷ before, after, ap (◌∷◌ d) split, fr, ((f, m), none_before))

  accept_sound : (ds : List Bytes) (raw : Bytes) → accept lib ds ≡ some raw → IsFirst ds raw
  unfolding accept
  accept_sound [] raw e = absurd (cc e)
  accept_sound (d ∷ ds) raw e =
      first d ds raw (is_frame lib d) (is_miss lib d) refl refl (accept_sound ds raw) e

  accept_complete :
      (before after : List Bytes) (raw : Bytes)
      → is_frame lib raw ≡ true
      → All (λ d. (is_frame lib d ≡ false) × (is_miss lib d ≡ false)) before
      → accept lib (before ++ (raw ∷ after)) ≡ some raw
  unfolding accept
  accept_complete [] after raw f none_before = rw f refl
  accept_complete (d ∷ before) after raw f none_before =
      rw (none_before.0.0, none_before.0.1) (accept_complete before after raw f none_before.1)

  -- Of the datagrams that arrive before the deadline, a fetch returns the first one that is a
  -- frame return, unless a MISS comes before it; junk and ACKs in between are passed over.
  pub accept-IsFirst : (ds : List Bytes) (raw : Bytes) → (accept lib ds ≡ some raw) ↔ IsFirst ds raw
  accept-IsFirst ds raw = (
    accept_sound ds raw,
    λ x.
        let (before, after, split, f, none_before) = x in
        ap (accept lib) split ∙ accept_complete before after raw f none_before,
  )
