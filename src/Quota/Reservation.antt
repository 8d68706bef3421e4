-- ===== src/Quota/Reservation.antt =====
-- internal/inference/quota/reservation.go: the safe upper bound that one request reserves.
pub mod Bounds
pub mod Covers
use yunhou_users.Common.{
  ℕ, Option, none, some, List, [], ◌∷◌, ℤ, pos, leb_ℤ, ltb_ℤ, not, ◌||◌, if◌then◌else◌,
}
use yunhou_users.Domain.Errors.{
  Code, Sentinel, sentinel, new_error, wrap_error, Result, ok, err, ◌>>=◌, ◌>>◌, fail_if,
}
use yunhou_users.Domain.Money.{Money, new_money}
use yunhou_users.Domain.Rate.{Rate, RoundingMode, round_up}
use yunhou_users.Accounting.Pricing.{
  PriceKind, PriceVersion, price_kind_eqb, add_line, price_extras,
}

pub record ReserveBounds : Type 0 where
  pub input_bound_tokens : ℤ
  pub output_cap_tokens : ℤ
  pub extra_bounds : List (ℕ × ℤ)

-- The client's cap, where it narrows the model's.
abbrev narrow : ℤ → Option ℤ → Result ℤ
narrow cap none = ok cap
narrow cap (some client) =
    if leb_ℤ client (pos 0)
    then err (wrap_error Code.invalid_input (sentinel Sentinel.negative_value))
    else ok (if ltb_ℤ client cap then client else cap)

unfoldable pub effective_output_cap : Option ℤ → ℤ → Result ℤ
effective_output_cap client model =
    if leb_ℤ model (pos 0) then err (new_error Code.invalid_input) else narrow model client

unfoldable pub input_bound : ℤ → ℤ → Result ℤ
input_bound estimated context =
    if leb_ℤ context (pos 0)
    then err (new_error Code.invalid_input)
    else if ltb_ℤ estimated (pos 0)
    then err (wrap_error Code.invalid_input (sentinel Sentinel.negative_value))
    else ok (if ltb_ℤ context estimated then context else estimated)

-- The loop over the four token lines.
unfoldable pub reserve_lines : ℤ → List (ℤ × Rate) → Result ℤ
unfolding add_line
reserve_lines total [] = ok total
reserve_lines total ((units, rate) ∷ lines) =
    add_line round_up total units rate >>= λ sum. reserve_lines sum lines

abbrev pub bound_lines : PriceVersion → ReserveBounds → List (ℤ × Rate)
bound_lines price b =
    (b.input_bound_tokens, price.input)
    ∷ (b.input_bound_tokens, price.cache_read)
    ∷ (b.input_bound_tokens, price.cache_write)
    ∷ (b.output_cap_tokens, price.output)
    ∷ []

-- The loops over the token lines and over the extra items.
unfoldable pub reserve_total : PriceVersion → ReserveBounds → Result ℤ
unfolding reserve_lines price_extras
reserve_total price b = reserve_lines (pos 0) (bound_lines price b) >>= λ sum.
    price_extras round_up price.extra_rates sum b.extra_bounds

abbrev refuse_negative : ℤ → Result ℤ
refuse_negative total =
    if ltb_ℤ total (pos 0)
    then err (wrap_error Code.invalid_input (sentinel Sentinel.negative_value))
    else ok total

unfoldable pub reserve_amount : PriceVersion → ReserveBounds → Result ℤ
unfolding reserve_total
reserve_amount price b = do
  fail_if (not (price_kind_eqb price.kind PriceKind.sale_credit)) (new_error Code.invalid_input)
  fail_if (ltb_ℤ b.input_bound_tokens (pos 0) || leb_ℤ b.output_cap_tokens (pos 0))
      (wrap_error Code.invalid_input (sentinel Sentinel.negative_value))
  total ← reserve_total price b
  refuse_negative total

-- The price version that `ReserveAmountMoney` hands on: the rates, under the credit kind.
abbrev pub credit_mirror : PriceVersion → PriceVersion
credit_mirror price = record {
  id = 0;
  model_id = 0;
  kind = PriceKind.sale_credit;
  currency = [];
  input = price.input;
  cache_read = price.cache_read;
  cache_write = price.cache_write;
  output = price.output;
  extra_rates = price.extra_rates;
  revision = pos 0;
  effective_from = 0;
  effective_to = none;
}

unfoldable pub reserve_amount_money : PriceVersion → ReserveBounds → Result Money
unfolding reserve_amount
reserve_amount_money price b = do
  fail_if (not (price_kind_eqb price.kind PriceKind.sale_money)) (new_error Code.invalid_input)
  total ← reserve_amount (credit_mirror price) b
  new_money total price.currency
