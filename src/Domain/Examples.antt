-- ===== src/Domain/Examples.antt =====
-- internal/inference/domain: the theorems at concrete amounts, prices and texts.
use yunhou_users.Common.{
  ℕ, ◌≡◌, ◌*◌, refl, List, [], ◌∷◌, pos, arith, eqb, ◌^◌, sub64, add64, wrap64,
}
use yunhou_users.Domain.Errors.{ok}
use yunhou_users.Domain.Money
use yunhou_users.Domain.Money.{Money, IsValid, valid_currency, add_exact, sub-add}
use yunhou_users.Domain.Rate.{Rate, round_up, range_check, micros_for_units}
use yunhou_users.Domain.Rate.Rounding.{IsRounding, micros_for_units-IsRounding}
use yunhou_users.Domain.Rate.Decimal.{parse_decimal, digits_value}
use yunhou_users.Domain.Rate.Decimal.Laws.{parse_decimal_exact}

abbrev yuan : List ℕ
yuan = b'C' ∷ b'N' ∷ b'Y' ∷ []

abbrev five : Money
five = record { micros = pos 5000000; currency = yuan }

abbrev two : Money
two = record { micros = pos 2000000; currency = yuan }

five-IsValid : IsValid five
unfolding valid_currency
five-IsValid = record { valid = refl; nonneg = omega arith; small = omega arith }

two-IsValid : IsValid two
unfolding valid_currency
two-IsValid = record { valid = refl; nonneg = omega arith; small = omega arith }

sum_of_two : Money.add five two ≡ ok (record { micros = pos 7000000; currency = yuan })
unfolding Money.add eqb sub64 add64 wrap64
sum_of_two = refl

-- Three micros for seven units, per million.
abbrev three_per_million : Rate
three_per_million = record { num = pos 3000000; den = pos 1000000 }

micros_for_units-IsRounding_example :
    (m : ℕ) × IsRounding round_up (3000000 * 7) 1000000 m
    × (micros_for_units three_per_million (pos 7) round_up ≡ range_check m)
micros_for_units-IsRounding_example =
    micros_for_units-IsRounding three_per_million (pos 7) round_up
      (record { num_nonneg = omega arith; den_pos = omega arith }) (omega arith)
      (λ e. ground (arith, e))

-- The literal 12.50.
parse_decimal_exact_example :
    parse_decimal (b'1' ∷ b'2' ∷ b'.' ∷ b'5' ∷ b'0' ∷ [])
    ≡ ok
        (record { num = pos (digits_value 0 (b'1' ∷ b'2' ∷ b'5' ∷ b'0' ∷ [])); den = pos (10 ^ 2) })
parse_decimal_exact_example =
    parse_decimal_exact (b'1' ∷ b'2' ∷ []) (b'5' ∷ b'0' ∷ []) (λ e. cc) refl refl
      (unfold digits_value in omega arith) (omega arith)
