-- ===== src/Accounting/Wallet/Major.antt =====
-- internal/inference/accounting/wallet.go: the conversion at the payment boundary is exact.
use mathlib.Core.Path.{subst}
use yunhou_users.Common.{
  ℕ, ◌*◌, ◌≡◌, List, ℤ, pos, pos_part, eqb_ℤ, eq_of_parts, arith, Bool-cases, inl, inr,
}
use yunhou_users.Domain.Errors.{ok, >>=-eq-ok}
use yunhou_users.Domain.Money.{new_money}
use yunhou_users.Domain.Rate.{Rate, micros_for_units, round_down, round_up}
use yunhou_users.Domain.Rate.Rounding.{micros_for_units_ok}
use yunhou_users.Domain.Rate.Decimal.{parse_decimal}
use yunhou_users.Accounting.Wallet.{micros_per_major, micros_from_decimal_major, exact_or_refuse}

-- An integer amount is exactly the decimal number of major units.
abbrev pub IsExact : Rate → ℤ → Type 0
IsExact rate micros =
    (m : ℕ) × (micros ≡ pos m) × (m * pos_part rate.den ≡ pos_part rate.num * 1000000)

both_roundings :
    (rate : Rate) {down up : ℤ}
    → micros_for_units rate micros_per_major round_down ≡ ok down
    → micros_for_units rate micros_per_major round_up ≡ ok up
    → up ≡ down
    → IsExact rate down
both_roundings rate h g e =
    let (_, _, (m, qm, _, low)) = micros_for_units_ok rate micros_per_major round_down h in
    let (_, _, (k, qk, _, high)) = micros_for_units_ok rate micros_per_major round_up g in
    let same : k ≡ m = ground (arith, qm, qk, e) in (m, qm, ground (arith, low, high, same))

exact_or_refuse_ok :
    (down up : ℤ) {micros : ℤ} → exact_or_refuse down up ≡ ok micros → (up ≡ down) × (down ≡ micros)
unfolding exact_or_refuse
exact_or_refuse_ok down up h = elim (Bool-cases (eqb_ℤ up down)) [
  | inl e ↦ ground (arith, e, eq_of_parts up down, h)
  | inr e ↦ ground (arith, e, h)
]

-- A converted amount is exact: the micros are the parsed decimal number of major units, times a
-- million, with nothing rounded away.
pub micros_from_decimal_major-IsExact :
    (dec currency : List ℕ) {micros : ℤ}
    → micros_from_decimal_major dec currency ≡ ok micros
    → (rate : Rate) × (parse_decimal dec ≡ ok rate) × IsExact rate micros
unfolding micros_from_decimal_major
micros_from_decimal_major-IsExact dec currency h =
    let (_, _, h1) = >>=-eq-ok (new_money (pos 0) currency) _ h in
    let (rate, parsed, h2) = >>=-eq-ok (parse_decimal dec) _ h1 in
    let (down, e, h3) = >>=-eq-ok (micros_for_units rate micros_per_major round_down) _ h2 in
    let (up, g, h4) = >>=-eq-ok (micros_for_units rate micros_per_major round_up) _ h3 in
    let (same, z) = exact_or_refuse_ok down up h4 in
    (rate, parsed, subst (IsExact rate) z (both_roundings rate e g same))
