-- ===== src/Config/Csv.antt =====
-- Comma-separated lists (config/config.go, `splitCSV`), against the writing of such lists.
use retry_endpoint.Config.Text.{
  Text, is_empty, is_space, trim, trim_left, trim_right, split, attach, tokens, split_csv,
}
use retry_endpoint.Prelude.{
  ℕ, ◌≡◌, ◌↔◌, refl, ap, subst, ◌∙◌, false, ◌&&◌, List, [], ◌∷◌, ◌++◌, ◌==◌, All, if-both,
}

-- Entries with a comma between any two.
pub join : List Text → Text
join [] = []
join (t ∷ []) = t
join (t ∷ u ∷ ts) = t ++ (0x2C ∷ join (u ∷ ts))

abbrev pub HasNoComma : Text → Type 0
HasNoComma t = All (λ c. (c == 0x2C) ≡ false) t

-- An entry that is not empty, holds no comma, and has no space at either end.
pub record IsToken (t : Text) : Type 0 where
  pub filled : is_empty t ≡ false
  pub whole : HasNoComma t
  pub trimmed : trim t ≡ t

split-one : (t : Text) → HasNoComma t → split t ≡ t ∷ []
unfolding split
split-one [] h = refl
split-one (c ∷ t) h = rw (h.0, split-one t h.1) refl

split-comma : (t s : Text) → HasNoComma t → split (t ++ (0x2C ∷ s)) ≡ t ∷ split s
unfolding split
split-comma [] s h = refl
split-comma (c ∷ t) s h = rw (h.0, split-comma t s h.1) refl

tokens-cons : (t : Text) (ps : List Text) → IsToken t → tokens (t ∷ ps) ≡ t ∷ tokens ps
unfolding tokens
tokens-cons t ps h = rw (h.trimmed, h.filled) refl

tokens-nil : tokens [] ≡ []
unfolding tokens
tokens-nil = refl

tokens-join :
    (t : Text) (ts : List Text) → All IsToken (t ∷ ts) → tokens (split (join (t ∷ ts))) ≡ t ∷ ts
unfolding join
tokens-join t [] h = rw (split-one t h.0.whole) (tokens-cons t [] h.0 ∙ ap (◌∷◌ t) tokens-nil)
tokens-join t (u ∷ ts) h =
    rw (split-comma t (join (u ∷ ts)) h.0.whole)
      (tokens-cons t _ h.0 ∙ ap (◌∷◌ t) (tokens-join u ts h.1))

join-filled : (t : Text) (ts : List Text) → IsToken t → is_empty (join (t ∷ ts)) ≡ false
unfolding join
join-filled [] ts h = absurd (cc h.filled)
join-filled (c ∷ t) [] h = refl
join-filled (c ∷ t) (u ∷ ts) h = refl

split_csv-join : (ts : List Text) → All IsToken ts → split_csv (join ts) ≡ ts
unfolding split_csv join
split_csv-join [] h = refl
split_csv-join (t ∷ ts) h = rw (join-filled t ts h.0) (tokens-join t ts h)

-- What a text keeps when it is trimmed.
trim_left-HasNoComma : (s : Text) → HasNoComma s → HasNoComma (trim_left s)
unfolding trim_left
trim_left-HasNoComma [] h = h
trim_left-HasNoComma (c ∷ s) h =
    if-both HasNoComma (is_space c) (λ e. trim_left-HasNoComma s h.1) (λ e. h)

trim_right-HasNoComma : (s : Text) → HasNoComma s → HasNoComma (trim_right s)
unfolding trim_right
trim_right-HasNoComma [] h = h
trim_right-HasNoComma (c ∷ s) h =
    if-both HasNoComma (is_empty (trim_right s) && is_space c) (λ e. tt)
      (λ e. (h.0, trim_right-HasNoComma s h.1))

trim_right_idem : (s : Text) → trim_right (trim_right s) ≡ trim_right s
unfolding trim_right
trim_right_idem [] = refl
trim_right_idem (c ∷ s) =
    if-both (λ t. trim_right t ≡ t) (is_empty (trim_right s) && is_space c) (λ e. refl)
      (λ e. rw (trim_right_idem s, e) refl)

-- A text that does not begin with a space, or is empty.
abbrev Begins : Text → Type 0
Begins [] = Unit
Begins (c ∷ s) = is_space c ≡ false

trim_left-Begins : (s : Text) → Begins (trim_left s)
unfolding trim_left
trim_left-Begins [] = tt
trim_left-Begins (c ∷ s) = if-both Begins (is_space c) (λ e. trim_left-Begins s) (λ e. e)

trim_right-Begins : (s : Text) → Begins s → Begins (trim_right s)
unfolding trim_right
trim_right-Begins [] h = tt
trim_right-Begins (c ∷ s) h =
    if-both Begins (is_empty (trim_right s) && is_space c) (λ e. tt) (λ e. h)

trim_left-of_Begins : (s : Text) → Begins s → trim_left s ≡ s
unfolding trim_left
trim_left-of_Begins [] h = refl
trim_left-of_Begins (c ∷ s) h = rw h refl

trim_idem : (s : Text) → trim (trim s) ≡ trim s
unfolding trim
trim_idem s =
    ap trim_right (
      trim_left-of_Begins (trim_right (trim_left s))
        (trim_right-Begins (trim_left s) (trim_left-Begins s)))
    ∙ trim_right_idem (trim_left s)

trim-HasNoComma : (s : Text) → HasNoComma s → HasNoComma (trim s)
unfolding trim
trim-HasNoComma s h = trim_right-HasNoComma (trim_left s) (trim_left-HasNoComma s h)

attach-HasNoComma :
    (c : ℕ) (ps : List Text)
    → (c == 0x2C) ≡ false
    → All HasNoComma ps
    → All HasNoComma (attach c ps)
attach-HasNoComma c [] e h = ((e, tt), tt)
attach-HasNoComma c (p ∷ ps) e h = ((e, h.0), h.1)

split-HasNoComma : (s : Text) → All HasNoComma (split s)
unfolding split
split-HasNoComma [] = (tt, tt)
split-HasNoComma (c ∷ s) =
    if-both (All HasNoComma) (c == 0x2C) (λ e. (tt, split-HasNoComma s))
      (λ e. attach-HasNoComma c (split s) e (split-HasNoComma s))

tokens-IsToken : (ps : List Text) → All HasNoComma ps → All IsToken (tokens ps)
unfolding tokens
tokens-IsToken [] h = tt
tokens-IsToken (p ∷ ps) h =
    if-both (All IsToken) (is_empty (trim p)) (λ e. tokens-IsToken ps h.1)
      (λ e. (
        record { filled = e; whole = trim-HasNoComma p h.0; trimmed = trim_idem p },
        tokens-IsToken ps h.1,
      ))

pub split_csv-IsToken : (s : Text) → All IsToken (split_csv s)
unfolding split_csv
split_csv-IsToken [] = tt
split_csv-IsToken (c ∷ s) = tokens-IsToken (split (c ∷ s)) (split-HasNoComma (c ∷ s))

-- `splitCSV` gives back a list that was written with commas exactly if its entries are not empty, hold
-- no comma, and have no space at either end.
pub split_csv_iff : (ts : List Text) → (split_csv (join ts) ≡ ts) ↔ All IsToken ts
split_csv_iff ts = (λ e. subst (All IsToken) e (split_csv-IsToken (join ts)), split_csv-join ts)
