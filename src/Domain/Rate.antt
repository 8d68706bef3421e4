-- ===== src/Domain/Rate.antt =====
-- internal/inference/domain/money.go: `Rate`, an exact rational price, and its rounding into
-- integer micro-units. `big.Int` is an unbounded number; the operands are not negative there.
pub mod Rounding
pub mod Decimal
use yunhou_users.Common.{
  ℕ, ◌+◌, ◌*◌, ◌/◌, ◌%◌, ◌||◌, List, ℤ, pos, pos_part, ltb, leb, ltb_ℤ, leb_ℤ, max_int64,
  if◌then◌else◌,
}
use yunhou_users.Domain.Errors.{Result, ok, err, ◌>>=◌, sentinel, Sentinel}
use yunhou_users.Domain.Money.{Money, new_money}

pub data RoundingMode : Type 0 where
  round_down round_up round_half_up : RoundingMode
  -- any other int
  unknown_mode : RoundingMode

pub record Rate : Type 0 where
  pub num : ℤ
  pub den : ℤ

unfoldable pub new_rate : ℤ → ℤ → Result Rate
new_rate num den =
    if leb_ℤ den (pos 0) || ltb_ℤ num (pos 0)
    then err (sentinel Sentinel.invalid_rate)
    else ok (record { num = num; den = den })

unfoldable pub rate_per_million : ℤ → Result Rate
unfolding new_rate
rate_per_million micros = new_rate micros (pos 1000000)

-- The `switch` on the mode, on the numerator and the denominator of the exact price.
unfoldable pub round : RoundingMode → ℕ → ℕ → Result ℕ
round RoundingMode.round_down n d = ok (n / d)
round RoundingMode.round_up n d = ok (if ltb 0 (n % d) then n / d + 1 else n / d)
round RoundingMode.round_half_up n d = ok (if leb d (2 * (n % d)) then n / d + 1 else n / d)
round RoundingMode.unknown_mode n d = err (sentinel Sentinel.rounding_mode)

abbrev pub range_check : ℕ → Result ℤ
range_check q = if leb q max_int64 then ok (pos q) else err (sentinel Sentinel.overflow)

unfoldable pub micros_for_units : Rate → ℤ → RoundingMode → Result ℤ
unfolding round
micros_for_units r units mode =
    if ltb_ℤ units (pos 0)
    then err (sentinel Sentinel.negative_value)
    else if leb_ℤ r.den (pos 0) || ltb_ℤ r.num (pos 0)
    then err (sentinel Sentinel.invalid_rate)
    else round mode (pos_part r.num * pos_part units) (pos_part r.den) >>= range_check

unfoldable pub charge_units : Rate → ℤ → RoundingMode → Result ℤ
unfolding micros_for_units
charge_units r units mode = do micros ← micros_for_units r units mode; ok micros

unfoldable pub charge_units_money : Rate → ℤ → List ℕ → RoundingMode → Result Money
unfolding micros_for_units
charge_units_money r units currency mode = do
  micros ← micros_for_units r units mode
  new_money micros currency
