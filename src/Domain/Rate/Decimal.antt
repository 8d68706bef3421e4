-- ===== src/Domain/Rate/Decimal.antt =====
-- internal/inference/domain/money.go: `ParseDecimal`. A text is the list of its code points;
-- `strings.TrimSpace` takes off the code points of `unicode.IsSpace` at both ends, and
-- `big.Int.SetString` in base 10 reads a list of digits that is not empty.
pub mod Laws
use yunhou_users.Common.{
  ℕ, suc, zero, ◌+◌, ◌*◌, ◌-◌, ◌^◌, ◌≤◌, ◌<◌, ◌≡◌, refl, Bool, true, false, not, ◌&&◌, ◌||◌, Option,
  none, some, List, [], ◌∷◌, ◌++◌, ltb, leb, ◌==◌, all, length, length-append, pos, max_int64,
  if◌then◌else◌, arith, All, ap, Bool-cases, inl, inr,
}
use mathlib.Core.List.{reverse}
use yunhou_users.Domain.Errors.{Result, ok, err, sentinel, Sentinel}
use yunhou_users.Domain.Rate.{Rate, new_rate}

abbrev is_space : ℕ → Bool
is_space c =
    (leb 9 c && leb c 13)
    || c == 32
    || c == 0x85
    || c == 0xa0
    || c == 0x1680
    || (leb 0x2000 c && leb c 0x200a)
    || c == 0x2028
    || c == 0x2029
    || c == 0x202f
    || c == 0x205f
    || c == 0x3000

unfoldable pub trim_left : List ℕ → List ℕ
trim_left [] = []
trim_left (c ∷ s) = let rest = trim_left s in if is_space c then rest else c ∷ s

unfoldable pub trim_space : List ℕ → List ℕ
unfolding trim_left
trim_space s = reverse (trim_left (reverse (trim_left s)))

-- The text before the first '.' and the text behind it, if there is one.
unfoldable pub split_dot : List ℕ → List ℕ × Option (List ℕ)
split_dot [] = ([], none)
split_dot (c ∷ s) =
    let (before, after) = split_dot s in if c == b'.' then ([], some s) else (c ∷ before, after)

abbrev has_text : Option (List ℕ) → Bool
has_text none = false
has_text (some _) = true

-- `strings.IndexByte(s, '.') >= 0`
abbrev has_dot : List ℕ → Bool
has_dot s = has_text (split_dot s).1

abbrev pub is_digit : ℕ → Bool
is_digit r = not (ltb r b'0' || ltb b'9' r)

-- The value of a list of digits, read from the left.
unfoldable pub digits_value : ℕ → List ℕ → ℕ
digits_value acc [] = acc
digits_value acc (c ∷ s) = digits_value (acc * 10 + (c - b'0')) s

abbrev is_empty : List ℕ → Bool
is_empty [] = true
is_empty (_ ∷ _) = false

-- The part of the function behind the split, on the integer and the fractional part.
unfoldable pub parse_parts : List ℕ → List ℕ → Result Rate
unfolding digits_value new_rate
parse_parts int_part frac_part =
    if is_empty int_part && is_empty frac_part
    then err (sentinel Sentinel.invalid_decimal)
    else if not (all is_digit (int_part ++ frac_part))
    then err (sentinel Sentinel.invalid_decimal)
    else let num = digits_value 0 (int_part ++ frac_part) in
      let den = 10 ^ length frac_part in
      if not (leb num max_int64 && leb den max_int64)
      then err (sentinel Sentinel.overflow)
      else new_rate (pos num) (pos den)

abbrev parse_split : List ℕ × Option (List ℕ) → Result Rate
parse_split (int_part, none) = parse_parts int_part []
parse_split (int_part, some frac_part) =
    if has_dot frac_part
    then err (sentinel Sentinel.invalid_decimal)
    else parse_parts int_part frac_part

unfoldable pub parse_decimal : List ℕ → Result Rate
unfolding trim_space parse_parts
parse_decimal text =
    let s = trim_space text in
    if is_empty s then err (sentinel Sentinel.invalid_decimal) else parse_split (split_dot s)
