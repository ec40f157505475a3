-- ===== src/Config/Numbers.antt =====
-- Group ids (config/config.go, `parseGroupID`).
use retry_endpoint.Config.Text.{
  Text, parse_group_id, parse_trimmed, parse_uint16, digits_value, trim, digit,
}
use retry_endpoint.Prelude.{ℕ, ◌≤◌, ◌≡◌, some, [], ◌∷◌, arith, ◌+◌, ◌*◌, drop}

digits_value-Range :
    (base acc : ℕ) (s : Text) (n : ℕ) → acc ≤ 0xFFFF → digits_value base acc s ≡ some n → n ≤ 0xFFFF
unfolding digits_value
digits_value-Range base acc [] n l h = ground arith
digits_value-Range base acc (c ∷ s) n l h =
    ground (arith, digits_value-Range base (acc * base + digit c) s n)

parse_uint16-Range : (s : Text) (base n : ℕ) → parse_uint16 s base ≡ some n → n ≤ 0xFFFF
unfolding parse_uint16
parse_uint16-Range s base n h = ground (arith, digits_value-Range base 0 s n)

parse_trimmed-Range : (s : Text) (n : ℕ) → parse_trimmed s ≡ some n → n ≤ 0xFFFF
unfolding parse_trimmed
parse_trimmed-Range s n h = ground (
  arith,
  parse_uint16-Range (drop 2 s) 16 n,
  parse_uint16-Range s 16 n,
  parse_uint16-Range s 10 n,
)

pub parse_group_id-Range : (s : Text) (n : ℕ) → parse_group_id s ≡ some n → n ≤ 0xFFFF
unfolding parse_group_id
parse_group_id-Range s n h = ground (arith, parse_trimmed-Range (trim s) n)
