-- ===== src/Ingress/Kept.antt =====
-- What the handlers' common end does to the cache (ingress/ingress.go).
use retry_endpoint.Effects.{Run, pure, ◌>>=◌, ◌>>◌, ask, note}
use retry_endpoint.Frames.{FrameLib, Header}
use retry_endpoint.Ingress.{Worker}
use retry_endpoint.Ingress.Frame
use retry_endpoint.Ingress.Frame.{Call, Store, Metric}
use mathlib.Core.Option.{some-injective}
use retry_endpoint.Prelude.{
  ◌≡◌, ◌≢◌, refl, ap, ap₂, ◌∙◌, Bool, true, false, Option, none, some, List, [], ◌∷◌, arith, ◌==◌,
  if◌then◌else◌,
}
use retry_endpoint.Prelude.Bytes.{Bytes, uint_at}
use retry_endpoint.Prelude.Int.{ℤ}
use retry_endpoint.Server.Wire.{cache_key}

-- The stores of a run, the latest first: key, value and lifetime.
abbrev pub stores : List Call → List (Bytes × Bytes × ℤ)
stores [] = []
stores (Call.metric m ∷ cs) = stores cs
stores (Call.store k raw ttl ok ∷ cs) = (k, raw, ttl) ∷ stores cs

module _ {W : Type 0} (lib : FrameLib) (cache : Store W) (w : Worker) where
  -- What a handler does with a frame whose decoder reads `o`, in the run `r`.
  pub record Kept (raw : Bytes) (act : Frame.M W (Unit {0})) (o : Option Header) (ttl : ℤ)
      : Type 0 where
    pub on_stamped :
        (h : Header) (r : Run W Call)
        → o ≡ some h
        → h.seq_num ≢ 0
        → stores (act r).1.calls
          ≡ (cache_key (uint_at 40 8 raw) (uint_at 48 8 raw), raw, ttl) ∷ stores r.calls
    pub on_world :
        (h : Header) (r : Run W Call)
        → o ≡ some h
        → h.seq_num ≢ 0
        → (act r).1.world
          ≡ (cache r.world (cache_key (uint_at 40 8 raw) (uint_at 48 8 raw)) raw ttl).1
    pub on_unstamped :
        (h : Header) (r : Run W Call)
        → o ≡ some h
        → h.seq_num ≡ 0
        → stores (act r).1.calls ≡ stores r.calls
    pub on_bad : (r : Run W Call) → o ≡ none → stores (act r).1.calls ≡ stores r.calls

  pub count-stores :
      (m : Metric) (r : Run W Call) → stores (Frame.count lib cache w m r).1.calls ≡ stores r.calls
  unfolding Frame.count
  count-stores m r = ground arith

  stored-stores :
      (ok : Bool) (src : Bytes) (r : Run W Call)
      → stores (Frame.stored lib cache w ok src r).1.calls ≡ stores r.calls
  unfolding Frame.stored
  stored-stores true src r = count-stores _ r
  stored-stores false src r = count-stores _ r

  count-world : (m : Metric) (r : Run W Call) → (Frame.count lib cache w m r).1.world ≡ r.world
  unfolding Frame.count
  count-world m r = ground arith

  stored-world :
      (ok : Bool) (src : Bytes) (r : Run W Call)
      → (Frame.stored lib cache w ok src r).1.world ≡ r.world
  unfolding Frame.stored
  stored-world true src r = count-world _ r
  stored-world false src r = count-world _ r

  -- The end of `keep_frame`, by its test.
  abbrev ending : Bytes → Bytes → Header → ℤ → Bool → Frame.M W (Unit {0})
  ending raw src h ttl b =
      if b
      then pure tt
      else (ask (λ st. cache st (cache_key h.hash_key h.seq_num) raw ttl) >>= λ ok.
          note (Call.store (cache_key h.hash_key h.seq_num) raw ttl ok)
          >> Frame.stored lib cache w ok src)

  ending-stamped :
      (raw src : Bytes) (h : Header) (ttl : ℤ) (b : Bool) (r : Run W Call)
      → b ≡ false
      → stores (ending raw src h ttl b r).1.calls
        ≡ (cache_key h.hash_key h.seq_num, raw, ttl) ∷ stores r.calls
  ending-stamped raw src h ttl true r e = absurd (cc e)
  ending-stamped raw src h ttl false r e = stored-stores _ src _

  ending-world :
      (raw src : Bytes) (h : Header) (ttl : ℤ) (b : Bool) (r : Run W Call)
      → b ≡ false
      → (ending raw src h ttl b r).1.world
        ≡ (cache r.world (cache_key h.hash_key h.seq_num) raw ttl).1
  ending-world raw src h ttl true r e = absurd (cc e)
  ending-world raw src h ttl false r e = stored-world _ src _

  ending-unstamped :
      (raw src : Bytes) (h : Header) (ttl : ℤ) (b : Bool) (r : Run W Call)
      → b ≡ true
      → stores (ending raw src h ttl b r).1.calls ≡ stores r.calls
  ending-unstamped raw src h ttl true r e = refl
  ending-unstamped raw src h ttl false r e = absurd (cc e)

  abbrev received : Run W Call → Run W Call
  received r = (Frame.count lib cache w Metric.frame_received r).1

  pub keep_frame-Kept :
      (raw src : Bytes) (h : Header) (ttl : ℤ)
      → h.hash_key ≡ uint_at 40 8 raw
      → h.seq_num ≡ uint_at 48 8 raw
      → Kept raw (Frame.keep_frame lib cache w raw src h ttl) (some h) ttl
  unfolding Frame.keep_frame
  keep_frame-Kept raw src h ttl hk sn = record {
    on_stamped = λ h' r e n.
        ending-stamped raw src h ttl (h.seq_num == 0) (received r)
          (ground (arith, ap (λ x. x.seq_num) (some-injective _ _ e)))
        ∙ ap₂ (λ k cs. (k, raw, ttl) ∷ cs) (ap₂ cache_key hk sn) (count-stores _ r);
    on_world = λ h' r e n.
        ending-world raw src h ttl (h.seq_num == 0) (received r)
          (ground (arith, ap (λ x. x.seq_num) (some-injective _ _ e)))
        ∙ ap₂ (λ k st. (cache st k raw ttl).1) (ap₂ cache_key hk sn) (count-world _ r);
    on_unstamped = λ h' r e z.
        ending-unstamped raw src h ttl (h.seq_num == 0) (received r)
          (ground (arith, ap (λ x. x.seq_num) (some-injective _ _ e)))
        ∙ count-stores _ r;
    on_bad = λ r e. absurd (cc e);
  }

  pub dropped-Kept :
      (raw : Bytes) (m : Metric) (ttl : ℤ) → Kept raw (Frame.count lib cache w m) none ttl
  dropped-Kept raw m ttl = record {
    on_stamped = λ h r e n. absurd (cc e);
    on_world = λ h r e n. absurd (cc e);
    on_unstamped = λ h r e z. absurd (cc e);
    on_bad = λ r e. count-stores m r;
  }
