-- ===== src/Config/Precedence.antt =====
-- Which lifetime wins per frame class (config/config.go, `resolveCacheTTLs` and its call in `Load`).
use Prim.Native.String.{String}
use retry_endpoint.Config.Declared.{
  flags, cache_flags, ttl_flags, default_cache_ttl_tx, default_cache_ttl_block,
  default_cache_ttl_subtree, default_cache_ttl_anchor, default_cache_ttl_beef, seconds,
}
use retry_endpoint.Config.Flags.{Platform, duration_var, env_parsed}
use retry_endpoint.Config.Load.{load}
use retry_endpoint.Config.Loaded.{load_flags-ttls}
use retry_endpoint.Config.Parts.{Config}
use retry_endpoint.Config.Result.{ok}
use retry_endpoint.Config.Text.{is_empty}
use retry_endpoint.Config.Ttls.{resolved_ttls, resolve_cache_ttls, is_explicit}
use retry_endpoint.Prelude.{
  ℕ, ◌≡◌, refl, ◌∙◌, Bool, true, false, Option, none, some, if◌then◌else◌, arith, not,
}
use retry_endpoint.Prelude.Int.{ℤ, pos}
use retry_endpoint.Proxy.{Ttls}
use retry_endpoint.RateLimit.Tiers.{Runtime}

-- How an operator sets a duration: by a flag, by a variable, by a variable that does not parse, or
-- not at all.
pub data Setting : Type 0 where
  by_flag by_env : ℤ → Setting
  malformed unset : Setting

abbrev pub parsed_env : Option ℤ → Setting
parsed_env none = malformed
parsed_env (some v) = by_env v

abbrev pub setting_of : Option ℤ → Bool → Option ℤ → Setting
setting_of (some v) unset_env parsed = by_flag v
setting_of none true parsed = unset
setting_of none false parsed = parsed_env parsed

-- The value of one knob, with what stands in for it where it is not set.
abbrev pub chosen : Setting → ℕ → ℤ → ℤ
chosen (by_flag v) default fallback = v
chosen (by_env v) default fallback = v
chosen malformed default fallback = pos default
chosen unset default fallback = fallback

-- What the common knob gives a class: its value if it is set at all, and else the class's default.
abbrev pub common : Setting → ℕ → ℤ
common s default = chosen s (seconds 60) (pos default)

module _ {rt : Runtime} (os : Platform rt) where
  abbrev pub setting : String → String → Setting
  setting name key =
      setting_of (os.duration_flag name) (is_empty (os.getenv key))
        (os.parse_duration (os.getenv key))

  abbrev pub class_ttl : String → String → ℕ → ℤ
  class_ttl name key default =
      chosen (setting name key) default (common (setting "cache-ttl" "CACHE_TTL") default)

  abbrev pub expected_ttls : Ttls
  expected_ttls = record {
    tx = class_ttl "cache-ttl-tx" "CACHE_TTL_TX" default_cache_ttl_tx;
    block = class_ttl "cache-ttl-block" "CACHE_TTL_BLOCK" default_cache_ttl_block;
    subtree = class_ttl "cache-ttl-subtree" "CACHE_TTL_SUBTREE" default_cache_ttl_subtree;
    anchor = class_ttl "cache-ttl-anchor" "CACHE_TTL_ANCHOR" default_cache_ttl_anchor;
    beef =
        chosen (setting "cache-ttl-beef" "CACHE_TTL_BEEF") default_cache_ttl_beef
          (pos default_cache_ttl_beef);
  }

  -- One class: the fallback rule, against what is expected of it.
  class_agrees :
      (name key : String) (default : ℕ)
      → (if not (is_explicit os "cache-ttl" "CACHE_TTL")
          then duration_var os name key default
          else if not (is_explicit os name key)
          then duration_var os "cache-ttl" "CACHE_TTL" (seconds 60)
          else duration_var os name key default)
        ≡ class_ttl name key default
  unfolding is_explicit duration_var env_parsed
  class_agrees name key default = ground arith

  fallback : Bool → Bool → ℤ → ℤ → ℤ
  fallback common_set set ttl own = if not common_set then own else if not set then ttl else own

  by_class :
      (ttl : ℤ) (s a b c d : Bool) (t : Ttls)
      → resolve_cache_ttls ttl s a b c d t ≡ record {
        tx = fallback s a ttl t.tx;
        block = fallback s b ttl t.block;
        subtree = fallback s c ttl t.subtree;
        anchor = fallback s d ttl t.anchor;
        beef = t.beef;
      }
  unfolding resolve_cache_ttls fallback
  by_class ttl true a b c d t = refl
  by_class ttl false a b c d t = refl

  beef_agrees :
      duration_var os "cache-ttl-beef" "CACHE_TTL_BEEF" default_cache_ttl_beef ≡ expected_ttls.beef
  unfolding duration_var env_parsed
  beef_agrees = ground arith

  resolved-expected : resolved_ttls os (cache_flags os).ttl (cache_flags os).ttls ≡ expected_ttls
  unfolding resolved_ttls cache_flags ttl_flags fallback
  resolved-expected = by_class _ _ _ _ _ _ _ ∙ (λ i. record {
    tx = class_agrees "cache-ttl-tx" "CACHE_TTL_TX" default_cache_ttl_tx i;
    block = class_agrees "cache-ttl-block" "CACHE_TTL_BLOCK" default_cache_ttl_block i;
    subtree = class_agrees "cache-ttl-subtree" "CACHE_TTL_SUBTREE" default_cache_ttl_subtree i;
    anchor = class_agrees "cache-ttl-anchor" "CACHE_TTL_ANCHOR" default_cache_ttl_anchor i;
    beef = beef_agrees i;
  })

  -- In a configuration that `Load` returns, each class's lifetime is that of its own flag, else of its
  -- own variable, else of the common flag or variable, else its default; a variable that does not
  -- parse counts as set, to the default of its knob; the BEEF class takes nothing from the common
  -- knob.
  pub load-ttls : (c : Config rt) → load os ≡ ok c → c.ttls ≡ expected_ttls
  unfolding load flags
  load-ttls c h = load_flags-ttls os (flags os) c h ∙ resolved-expected
