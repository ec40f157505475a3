-- ===== src/Config/Text.antt =====
-- Text of flags and of the environment (config/config.go, `splitCSV` and `parseGroupID`), as lists
-- of code points, with what the file uses of the packages strings and strconv.
use Prim.Native.Char.{code}
use Prim.Native.String.{String}
use retry_endpoint.Prelude.{
  ℕ, ◌+◌, ◌-◌, ◌*◌, Bool, true, false, ◌&&◌, ◌||◌, not, Option, none, some, List, [], ◌∷◌, map, leb,
  ltb, ◌==◌, if◌then◌else◌, drop,
}

abbrev pub Text : Type 0
Text = List ℕ

-- The code points of a constant of the source.
abbrev pub runes : String → Text
runes (String.◌∷◌ first rest) = code first ∷ runes rest
runes String.[] = []

abbrev pub is_empty : Text → Bool
is_empty [] = true
is_empty (c ∷ s) = false

-- `s == t`
unfoldable pub same : Text → Text → Bool
same [] [] = true
same [] (d ∷ t) = false
same (c ∷ s) [] = false
same (c ∷ s) (d ∷ t) = c == d && same s t

-- `unicode.IsSpace`
unfoldable pub is_space : ℕ → Bool
is_space c =
    (leb 9 c && leb c 13)
    || c == 0x20
    || c == 0x85
    || c == 0xA0
    || c == 0x1680
    || (leb 0x2000 c && leb c 0x200A)
    || c == 0x2028
    || c == 0x2029
    || c == 0x202F
    || c == 0x205F
    || c == 0x3000

unfoldable pub trim_left : Text → Text
trim_left [] = []
trim_left (c ∷ s) = let rest = trim_left s in if is_space c then rest else c ∷ s

unfoldable pub trim_right : Text → Text
trim_right [] = []
trim_right (c ∷ s) = let rest = trim_right s in if is_empty rest && is_space c then [] else c ∷ rest

-- `strings.TrimSpace`
unfoldable pub trim : Text → Text
trim s = trim_right (trim_left s)

-- `unicode.ToLower`, as far as the source looks at its results: the letters that lower to one of
-- ASCII, which beyond ASCII are the dotted capital I and the Kelvin sign.
unfoldable pub lower : ℕ → ℕ
lower c =
    if leb 0x41 c && leb c 0x5A
    then c + 32
    else if c == 0x130
    then 0x69
    else if c == 0x212A
    then 0x6B
    else c

-- `strings.ToLower`
unfoldable pub to_lower : Text → Text
to_lower s = map lower s

-- Puts a character before the first part.
abbrev pub attach : ℕ → List Text → List Text
attach c [] = (c ∷ []) ∷ []
attach c (p ∷ ps) = (c ∷ p) ∷ ps

-- `strings.Split(s, ",")`
unfoldable pub split : Text → List Text
split [] = [] ∷ []
split (c ∷ s) = let rest = split s in if c == 0x2C then [] ∷ rest else attach c rest

-- The loop over the parts: each is trimmed, and kept if anything is left of it.
unfoldable pub tokens : List Text → List Text
tokens [] = []
tokens (p ∷ ps) = let rest = tokens ps in if is_empty (trim p) then rest else trim p ∷ rest

-- `splitCSV`
unfoldable pub split_csv : Text → List Text
split_csv s = if is_empty s then [] else tokens (split s)

-- The value of a digit of strconv.ParseUint; 36 stands for every character that no base up to 16 has.
unfoldable pub digit : ℕ → ℕ
digit c =
    if leb 0x30 c && leb c 0x39
    then c - 0x30
    else if leb 0x61 c && leb c 0x66
    then c - 0x61 + 10
    else if leb 0x41 c && leb c 0x46
    then c - 0x41 + 10
    else 36

-- The loop of ParseUint for 16 bits, from the value of the digits before.
unfoldable pub digits_value : ℕ → ℕ → Text → Option ℕ
digits_value base acc [] = some acc
digits_value base acc (c ∷ s) =
    let n = acc * base + digit c in
    let rest = digits_value base n s in
    if not (ltb (digit c) base) then none else if ltb 0xFFFF n then none else rest

-- `strconv.ParseUint(s, base, 16)`; `none` is an error.
unfoldable pub parse_uint16 : Text → ℕ → Option ℕ
parse_uint16 s base = if is_empty s then none else digits_value base 0 s

-- `strings.HasPrefix(low, "0x")`
abbrev pub has_0x : Text → Bool
has_0x (a ∷ b ∷ s) = a == 0x30 && b == 0x78
has_0x s = false

-- `parseGroupID`, after the test for an empty value.
unfoldable pub parse_trimmed : Text → Option ℕ
parse_trimmed s =
    if has_0x (to_lower s)
    then parse_uint16 (drop 2 s) 16
    else elim (parse_uint16 s 10) [ none ↦ parse_uint16 s 16 | some n ↦ parse_uint16 s 10 ]

-- `parseGroupID`; `none` is an error.
unfoldable pub parse_group_id : Text → Option ℕ
parse_group_id s = let t = trim s in if is_empty t then none else parse_trimmed t
