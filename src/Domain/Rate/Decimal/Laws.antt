-- ===== src/Domain/Rate/Decimal/Laws.antt =====
-- internal/inference/domain/money.go: what `ParseDecimal` accepts and returns.
use yunhou_users.Common.{
  ℕ, zero, suc, ◌^◌, ◌≤◌, ◌<◌, ◌≡◌, refl, Bool, true, false, not, ◌&&◌, none, some, List, [], ◌∷◌,
  ◌++◌, all, length, pos, max_int64, arith, ◌≢◌, le→leb,
}
use native.Mathlib.Nat.{pow-suc}
use mathlib.Core.List.{reverse, reverse-cons, reverse-reverse}
use yunhou_users.Domain.Errors.{ok}
use yunhou_users.Domain.Rate.{Rate}
use yunhou_users.Domain.Rate.Rounding.{IsValid}
use yunhou_users.Domain.Rate.Decimal.{
  is_space, is_empty, is_digit, digits_value, trim_left, trim_space, split_dot, parse_parts,
  parse_split, parse_decimal,
}

pow-pos : (n : ℕ) → 0 < 10 ^ n
pow-pos zero = omega arith
pow-pos (suc n) = omega (arith, pow-suc 10 n, pow-pos n)

parse_parts-IsValid : (i f : List ℕ) {r : Rate} → parse_parts i f ≡ ok r → IsValid r
unfolding parse_parts
parse_parts-IsValid i f h = ground arith

-- Every rate that a text parses to has a positive denominator and a numerator that is not negative.
pub parse_decimal-IsValid : (s : List ℕ) {r : Rate} → parse_decimal s ≡ ok r → IsValid r
unfolding parse_decimal
parse_decimal-IsValid s h = grind (arith, parse_parts-IsValid)

abbrev not_space : ℕ → Bool
not_space c = not (is_space c)

all-append : (p : ℕ → Bool) (xs ys : List ℕ) → all p (xs ++ ys) ≡ (all p xs && all p ys)
all-append p [] ys = refl
all-append p (x ∷ xs) ys = ground (arith, all-append p xs ys)

all-reverse : (p : ℕ → Bool) (xs : List ℕ) → all p xs ≡ true → all p (reverse xs) ≡ true
all-reverse p [] h = refl
all-reverse p (x ∷ xs) h =
    rw (reverse-cons x xs, all-append p (reverse xs) (x ∷ [])) (ground (arith, all-reverse p xs))

trim_left_id : (s : List ℕ) → all not_space s ≡ true → trim_left s ≡ s
unfolding trim_left
trim_left_id [] h = refl
trim_left_id (c ∷ s) h = ground arith

trim_space_id : (s : List ℕ) → all not_space s ≡ true → trim_space s ≡ s
unfolding trim_space
trim_space_id s h =
    rw (trim_left_id s h, trim_left_id (reverse s) (all-reverse not_space s h)) (reverse-reverse s)

digit-not_space : (c : ℕ) → is_digit c ≡ true → not_space c ≡ true
digit-not_space c h = ground arith

all_digits-not_space : (s : List ℕ) → all is_digit s ≡ true → all not_space s ≡ true
all_digits-not_space [] h = refl
all_digits-not_space (c ∷ s) h = ground (arith, all_digits-not_space s, digit-not_space c)

split_dot-digits : (s : List ℕ) → all is_digit s ≡ true → split_dot s ≡ (s, none)
unfolding split_dot
split_dot-digits [] h = refl
split_dot-digits (c ∷ s) h = rw (split_dot-digits s (ground arith)) (ground arith)

split_dot-append : (s t : List ℕ) → all is_digit s ≡ true → split_dot (s ++ b'.' ∷ t) ≡ (s, some t)
unfolding split_dot
split_dot-append [] t h = refl
split_dot-append (c ∷ s) t h = rw (split_dot-append s t (ground arith)) (ground arith)

literal_not_empty : (i f : List ℕ) → i ++ f ≢ [] → (is_empty i && is_empty f) ≡ false
literal_not_empty [] [] h = absurd (h refl)
literal_not_empty [] (c ∷ f) h = refl
literal_not_empty (c ∷ i) f h = refl

point_not_empty : (i f : List ℕ) → is_empty (i ++ b'.' ∷ f) ≡ false
point_not_empty [] f = refl
point_not_empty (c ∷ i) f = refl

parse_parts_exact :
    (i f : List ℕ)
    → i ++ f ≢ []
    → all is_digit (i ++ f) ≡ true
    → digits_value 0 (i ++ f) ≤ max_int64
    → 10 ^ length f ≤ max_int64
    → parse_parts i f
      ≡ ok (record { num = pos (digits_value 0 (i ++ f)); den = pos (10 ^ length f) })
unfolding parse_parts
parse_parts_exact i f some_digit h hn hd =
    rw (literal_not_empty i f some_digit, h, le→leb _ _ hn, le→leb _ _ hd)
      (ground (arith, pow-pos (length f)))

parse_split_exact :
    (i f : List ℕ) → all is_digit f ≡ true → parse_split (i, some f) ≡ parse_parts i f
parse_split_exact i f h = rw (split_dot-digits f h)

-- The decimal literal with the digits `i` before the point and `f` behind it is read exactly, where there is
-- a digit at all, and both the number that all its digits spell and the power of ten of the digits
-- behind the point are at most the largest int64: as that number over that power of ten.
pub parse_decimal_exact :
    (i f : List ℕ)
    → i ++ f ≢ []
    → all is_digit i ≡ true
    → all is_digit f ≡ true
    → digits_value 0 (i ++ f) ≤ max_int64
    → 10 ^ length f ≤ max_int64
    → parse_decimal (i ++ b'.' ∷ f)
      ≡ ok (record { num = pos (digits_value 0 (i ++ f)); den = pos (10 ^ length f) })
unfolding parse_decimal
parse_decimal_exact i f some_digit hi hf hn hd =
    let digits : all is_digit (i ++ f) ≡ true = rw (all-append is_digit i f, hi, hf) in
    let spaceless : all not_space (i ++ b'.' ∷ f) ≡ true =
      rw
        (all-append not_space i (b'.' ∷ f), all_digits-not_space i hi, all_digits-not_space f hf) in
    rw
      (
        trim_space_id (i ++ b'.' ∷ f) spaceless,
        point_not_empty i f,
        split_dot-append i f hi,
        parse_split_exact i f hf,
      )
      (parse_parts_exact i f some_digit digits hn hd)
