-- ===== src/Accounting/Examples.antt =====
-- internal/inference/accounting: the theorems at concrete prices, holds, entries and ledgers.
use yunhou_users.Common.{
  ℕ, ◌≡◌, ◌↔◌, refl, true, false, none, some, List, [], ◌∷◌, ◌++◌, ℤ, pos, ◌+ℤ◌, ◌-ℤ◌, ◌≤ℤ◌, ◌<ℤ◌,
  max_int64, arith, add64, sub64, wrap64, int_laws,
}
use yunhou_users.Domain.Errors.{Code, WindowKind, new_error, ok, err}
use yunhou_users.Domain.Credit
use yunhou_users.Domain.Money.{new_money, valid_currency}
use yunhou_users.Domain.Rate.{Rate, new_rate, round, micros_for_units}
use yunhou_users.Domain.Rate.Decimal.{
  parse_decimal, trim_left, trim_space, split_dot, parse_parts, digits_value,
}
use yunhou_users.Domain.Usage.{UsageBuckets, UsageRecord, UsageSource, LedgerEntryType}
use yunhou_users.Quota.Reservation.{ReserveBounds, reserve_lines, reserve_total, reserve_amount}
use yunhou_users.Accounting.Pricing.{
  PriceKind, PriceVersion, Charge, Inclusion, rounding_for, add_line, price_buckets, price_extras,
  total_of, validate, quote, sub_bucket, add_bucket, billable_buckets, resolve_price,
}
use yunhou_users.Accounting.Pricing.Quote.{IsQuote, quote-IsQuote}
use yunhou_users.Accounting.Pricing.Buckets.{IsNormalized, billable_buckets-IsNormalized}
use yunhou_users.Accounting.Pricing.Resolve.{IsResolved, resolve_price-IsResolved}
use yunhou_users.Accounting.Overage.{OverageSettings, check_wallet_spend}
use yunhou_users.Accounting.Overage.Gate.{check_wallet_spend_iff, check_wallet_spend_wraps}
use yunhou_users.Accounting.Wallet.{
  WalletEntrySpec, WalletEntryType, WalletDirection, WalletSource, validate_wallet_entry,
  reversal_of, split_freeze, split_consume, split_release, min_ℤ, clamp, micros_from_decimal_major,
  exact_or_refuse,
}
use yunhou_users.Accounting.Wallet.Entries.{signed, reversal_of-validate}
use yunhou_users.Accounting.Wallet.Split.{split_freeze_parts, split_consume-split_release}
use yunhou_users.Accounting.Wallet.Major.{IsExact, micros_from_decimal_major-IsExact}
use yunhou_users.Accounting.Settlement.{
  Decision, CorrectionDirection, decide_settlement, correction_delta,
}
use yunhou_users.Accounting.Settlement.Laws.{
  IsDecision, IsCorrection, decide_settlement-IsDecision, correction_delta-IsCorrection,
}
use yunhou_users.Accounting.Reconciliation.{
  FactDirection, LedgerFact, apply_fact, rebuild_from, rebuild_used_micros, WindowReconciliation,
}
use yunhou_users.Accounting.Reconciliation.Laws.{
  correction_fact, rebuild_used_micros-correction_delta,
}

abbrev per_million : ℕ → Rate
per_million n = record { num = pos n; den = pos 1000000 }

abbrev price : PriceVersion
price = record {
  id = 1;
  model_id = 2;
  kind = PriceKind.sale_credit;
  currency = [];
  input = per_million 3;
  cache_read = per_million 1;
  cache_write = per_million 4;
  output = per_million 15;
  extra_rates = [];
  revision = pos 1;
  effective_from = 0;
  effective_to = none;
}

-- The cache is inside the reported input, the reasoning beside the output.
abbrev inclusion : Inclusion
inclusion = record {
  reasoning_in_output = false;
  cache_read_in_input = true;
  cache_write_in_input = true;
}

abbrev reported_buckets : UsageBuckets
reported_buckets = record {
  input_tokens = some (pos 1000000);
  cache_read_tokens = some (pos 300000);
  cache_write_tokens = none;
  output_tokens = some (pos 60000);
  reasoning_tokens = some (pos 40000);
}

abbrev billed_buckets : UsageBuckets
billed_buckets = record {
  input_tokens = some (pos 700000);
  cache_read_tokens = some (pos 300000);
  cache_write_tokens = none;
  output_tokens = some (pos 100000);
  reasoning_tokens = some (pos 40000);
}

abbrev usage_of : UsageBuckets → UsageRecord
usage_of b = record {
  request_id = 1;
  attempt_id = 2;
  source = UsageSource.reported;
  buckets = b;
  revision = 1;
}

abbrev cost : Charge
cost = record {
  kind = PriceKind.sale_credit;
  basis = UsageSource.reported;
  credit = pos 6;
  money = none;
  price_version_id = 1;
  revision = pos 1;
  billable = billed_buckets;
}

normalized : billable_buckets reported_buckets inclusion ≡ ok billed_buckets
unfolding billable_buckets sub_bucket add_bucket sub64 add64 wrap64 ◌+ℤ◌ ◌-ℤ◌
normalized = refl

billable_buckets-IsNormalized_example : IsNormalized reported_buckets inclusion billed_buckets
billable_buckets-IsNormalized_example =
    billable_buckets-IsNormalized reported_buckets inclusion (omega arith, omega arith)
      (omega arith, omega arith) tt (omega int_laws, omega int_laws) normalized

quoted : quote price (usage_of billed_buckets) [] ≡ ok cost
unfolding quote validate total_of rounding_for price_buckets price_extras add_line micros_for_units
    round Credit.add sub64 add64 wrap64 ◌+ℤ◌ ◌-ℤ◌
quoted = refl

quote-IsQuote_example : IsQuote price (usage_of billed_buckets) [] cost
quote-IsQuote_example = quote-IsQuote price (usage_of billed_buckets) [] quoted

resolve_price-IsResolved_example :
    IsResolved
      (price ∷ [])
      PriceKind.sale_credit
      5
      (resolve_price (price ∷ []) PriceKind.sale_credit 5)
resolve_price-IsResolved_example = resolve_price-IsResolved (price ∷ []) PriceKind.sale_credit 5

abbrev decision : Decision
decision = record {
  record_used = usage_of billed_buckets;
  charge = some cost;
  reserved_micros = pos 31;
}

decides : decide_settlement (usage_of reported_buckets) price inclusion (pos 31) ≡ ok decision
unfolding decide_settlement billable_buckets sub_bucket add_bucket quote validate total_of
    rounding_for price_buckets price_extras add_line micros_for_units round Credit.add sub64 add64
    wrap64 ◌+ℤ◌ ◌-ℤ◌
decides = refl

decide_settlement-IsDecision_example :
    IsDecision (usage_of reported_buckets) price inclusion (pos 31) decision
decide_settlement-IsDecision_example =
    decide_settlement-IsDecision (usage_of reported_buckets) price inclusion (pos 31) (omega arith)
      (omega arith, omega arith) (omega arith, omega arith) tt (omega int_laws, omega int_laws)
      decides

abbrev bounds : ReserveBounds
bounds = record {
  input_bound_tokens = pos 2000000;
  output_cap_tokens = pos 1000000;
  extra_bounds = [];
}

reserved : reserve_amount price bounds ≡ ok (pos 31)
unfolding reserve_amount reserve_total reserve_lines price_extras add_line micros_for_units round
    Credit.add sub64 add64 wrap64 ◌+ℤ◌ ◌-ℤ◌
reserved = refl

correction_delta-IsCorrection_example :
    IsCorrection (pos 10) (pos 4) (correction_delta (pos 10) (pos 4))
correction_delta-IsCorrection_example =
    correction_delta-IsCorrection (pos 10) (pos 4) (omega arith) (omega arith) (omega arith)

abbrev limited : OverageSettings
limited = record { enabled = true; monthly_spend_limit_micros = some (pos 100) }

check_wallet_spend_iff_example :
    (check_wallet_spend limited (pos 60) (pos 30) ≡ ok tt)
    ↔ ((true ≡ true) × ((limit : ℤ) × (some (pos 100) ≡ some limit) × (pos 60 +ℤ pos 30 ≤ℤ limit)))
check_wallet_spend_iff_example =
    check_wallet_spend_iff limited (pos 60) (pos 30) (omega arith) (omega arith) (omega int_laws)

check_wallet_spend_wraps_example : check_wallet_spend limited (pos max_int64) (pos 1) ≡ ok tt
check_wallet_spend_wraps_example =
    check_wallet_spend_wraps (pos max_int64) (pos 1) (pos 100) (omega arith) (omega arith)
      (omega arith) (omega arith) (omega arith) (omega int_laws)

abbrev yuan : List ℕ
yuan = b'C' ∷ b'N' ∷ b'Y' ∷ []

abbrev spent : WalletEntrySpec
spent = record {
  type = WalletEntryType.consume;
  direction = WalletDirection.debit;
  source = WalletSource.bonus;
  amount = record { micros = pos 5; currency = yuan };
}

abbrev taken_back : WalletEntrySpec
taken_back = record {
  type = WalletEntryType.reversal_entry;
  direction = WalletDirection.credit;
  source = WalletSource.bonus;
  amount = record { micros = pos 5; currency = yuan };
}

accepted : validate_wallet_entry spent ≡ ok tt
unfolding validate_wallet_entry
accepted = refl

reversed : reversal_of spent ≡ ok taken_back
unfolding reversal_of
reversed = refl

reversal_of-validate_example :
    (validate_wallet_entry taken_back ≡ ok tt)
    × (WalletSource.bonus ≡ WalletSource.bonus)
    × (signed WalletDirection.debit (pos 5) +ℤ signed WalletDirection.credit (pos 5) ≡ pos 0)
    × (reversal_of taken_back ≡ err (new_error Code.invalid_input))
reversal_of-validate_example = reversal_of-validate spent accepted reversed

frozen : split_freeze (pos 30) (pos 100) (pos 50) ≡ ok (pos 20, pos 30)
unfolding split_freeze min_ℤ clamp sub64 add64 wrap64 ◌+ℤ◌ ◌-ℤ◌
frozen = refl

split_freeze_parts_example :
    (pos 20 +ℤ pos 30 ≡ pos 50)
    × (pos 0 ≤ℤ pos 20)
    × (pos 0 ≤ℤ pos 30)
    × (pos 0 <ℤ pos 30 → pos 30 ≤ℤ pos 30)
    × (pos 0 <ℤ pos 20 → pos 20 ≤ℤ pos 100)
    × (pos 0 <ℤ pos 20 → pos 30 ≤ℤ pos 30)
split_freeze_parts_example =
    split_freeze_parts (pos 30) (pos 100) (pos 50) (omega arith, omega arith)
      (omega arith, omega arith) (omega arith, omega arith) (omega int_laws, omega int_laws) frozen

split_consume-split_release_example :
    (c : ℤ) × (b : ℤ) × (extra : ℤ) × (split_consume (pos 20) (pos 30) (pos 60) ≡ ok (c, b, extra))
    × (split_release (pos 20) (pos 30) c b ≡ ok (pos 20 -ℤ c, pos 30 -ℤ b))
    × (c +ℤ b +ℤ extra ≡ pos 60)
    × (pos 0 ≤ℤ extra)
    × (pos 0 <ℤ extra → (c ≡ pos 20) × (b ≡ pos 30))
split_consume-split_release_example =
    split_consume-split_release (pos 20) (pos 30) (pos 60) (omega arith) (omega arith) (omega arith)
      (omega arith) (omega arith) (omega arith)

-- The text 2.5
abbrev text : List ℕ
text = b'2' ∷ b'.' ∷ b'5' ∷ []

converted : micros_from_decimal_major text yuan ≡ ok (pos 2500000)
unfolding micros_from_decimal_major new_money valid_currency parse_decimal trim_space trim_left
    split_dot parse_parts digits_value new_rate micros_for_units round exact_or_refuse
converted = refl

micros_from_decimal_major-IsExact_example :
    (rate : Rate) × (parse_decimal text ≡ ok rate) × IsExact rate (pos 2500000)
micros_from_decimal_major-IsExact_example = micros_from_decimal_major-IsExact text yuan converted

abbrev charged_fact : LedgerFact
charged_fact = record {
  type = LedgerEntryType.charge;
  amount_micros = pos 10;
  direction = FactDirection.no_direction;
}

rebuilt : rebuild_used_micros (charged_fact ∷ []) ≡ ok (pos 10)
unfolding rebuild_used_micros rebuild_from apply_fact add64 wrap64 ◌+ℤ◌
rebuilt = refl

corrected : correction_delta (pos 10) (pos 4) ≡ ok (CorrectionDirection.credit, pos 6)
unfolding correction_delta sub64 wrap64 ◌-ℤ◌
corrected = refl

rebuild_used_micros-correction_delta_example :
    rebuild_used_micros
      ((charged_fact ∷ []) ++ (correction_fact CorrectionDirection.credit (pos 6) ∷ []))
    ≡ ok (pos 4)
rebuild_used_micros-correction_delta_example =
    rebuild_used_micros-correction_delta (charged_fact ∷ []) (pos 10) (pos 4) rebuilt (omega arith)
      (omega arith) (omega arith) corrected

abbrev row : WindowReconciliation
row = record { window_id = 1; kind = WindowKind.weekly; stored_used = pos 9; rebuilt_used = pos 10 }
