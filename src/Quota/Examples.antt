-- ===== src/Quota/Examples.antt =====
-- internal/inference/quota: the theorems at concrete instants, rows and prices.
use yunhou_users.Common.{
  ℕ, ◌+◌, ◌*◌, ◌≤◌, ◌<◌, ◌≡◌, refl, Bool, true, false, none, some, [], ◌∷◌, pos, ◌≤ℤ◌, arith,
  wrap64, add64, sub64, ◌-ℤ◌, ◌≢◌, ◌↔◌, All, keep, map,
}
use yunhou_users.Domain.Errors.{Time, WindowKind, WindowBlock, quota_exceeded_error, ok, err}
use yunhou_users.Domain.Credit
use yunhou_users.Domain.Rate.{Rate, round, micros_for_units}
use yunhou_users.Domain.Usage.{UsageBuckets, UsageRecord, UsageSource, QuotaWindow, available}
use yunhou_users.Accounting.Pricing.{
  PriceKind, PriceVersion, Charge, rounding_for, add_line, price_buckets, price_extras, total_of,
  validate, quote,
}
use yunhou_users.Accounting.Pricing.Quote.{amount}
use yunhou_users.Quota.Calendar.{civil, date, find_month, month_start, days_of, is_leap}
use yunhou_users.Quota.Window.{
  Interval, WindowView, add_months_clamped, monthly_window_at, consumption_window, find_window,
  five_hour_interval, interval_of, read_window, contains,
}
use yunhou_users.Quota.Window.Monthly.{monthly_window_at-covers}
use yunhou_users.Quota.Window.Views.{consumption_window_holds, consumption_window_reuses}
use yunhou_users.Quota.Policy.{
  Policy, OveragePolicy, enabled_windows, blocks_from, evaluate_admission,
}
use yunhou_users.Quota.Policy.Admission.{
  Carries, falls_short, kind_of, evaluate_admission_iff, evaluate_admission_blocks,
}
use yunhou_users.Quota.Reservation.{
  ReserveBounds, reserve_lines, reserve_total, reserve_amount, effective_output_cap, input_bound,
}
use yunhou_users.Quota.Reservation.Covers.{Within, quote-le-reserve_amount}

-- 31 January and 1 March 2026.
abbrev january_31 : Time
january_31 = 63937036800000000000

abbrev march_1 : Time
march_1 = 63939542400000000000

monthly_window_at-covers_example :
    (k : ℕ) × (monthly_window_at january_31 march_1
      ≡ ok (
        record {
          start = add_months_clamped january_31 k;
          end = add_months_clamped january_31 (k + 1);
        },
        pos k,
      ))
    × (add_months_clamped january_31 k ≤ march_1)
    × (march_1 < add_months_clamped january_31 (k + 1))
monthly_window_at-covers_example = monthly_window_at-covers january_31 march_1 (omega arith)

-- 31 January of year 0, and a day of its second period.
abbrev early : Time
early = 30 * 86400000000000

abbrev later : Time
later = 62 * 86400000000000

starts :
    (add_months_clamped early 1 ≡ 59 * 86400000000000)
    × (add_months_clamped early 2 ≡ 90 * 86400000000000)
unfolding add_months_clamped civil date find_month month_start days_of is_leap
starts = (refl, refl)

in_second_period : (add_months_clamped early 1 ≤ later) × (later < add_months_clamped early 2)
in_second_period = rw (starts.0, starts.1) (omega arith, omega arith)

-- A row of the five hours from the instant 7 on.
abbrev row : QuotaWindow
row = record {
  id = 1;
  entitlement_id = 1;
  kind = WindowKind.five_hour;
  start = 7;
  end = 18000000000007;
  limit = pos 1000;
  used = pos 10;
  reserved_micros = pos 20;
  voided = false;
}

opens : consumption_window WindowKind.five_hour 0 [] 7 ≡ ok (interval_of row, true)
unfolding consumption_window find_window five_hour_interval
opens = refl

consumption_window_holds_example :
    (iv : Interval) × (activate : Bool) × (consumption_window WindowKind.monthly january_31 []
        march_1
      ≡ ok (iv, activate))
    × (iv.start ≤ march_1)
    × (march_1 < iv.end)
consumption_window_holds_example =
    consumption_window_holds WindowKind.monthly january_31 [] march_1 (λ e. ground (arith, e))
      (omega arith) (omega arith)

consumption_window_reuses_example :
    consumption_window WindowKind.five_hour 0 (row ∷ []) 3600000000000 ≡ ok (interval_of row, false)
consumption_window_reuses_example =
    consumption_window_reuses WindowKind.five_hour 0 [] 7 3600000000000 row (omega arith)
      (omega arith) (omega arith) opens refl refl (omega arith) (omega arith)

abbrev awaiting : WindowView
awaiting = record {
  kind = WindowKind.five_hour;
  disabled = false;
  limit = some (pos 1000);
  used = pos 0;
  reserved = pos 0;
  window_start = none;
  resets_at = none;
  awaits_consumption = true;
}

reads : read_window WindowKind.five_hour 0 (some (pos 1000)) [] 7 ≡ ok awaiting
unfolding read_window find_window
reads = refl

capped : effective_output_cap (some (pos 500)) (pos 4096) ≡ ok (pos 500)
unfolding effective_output_cap
capped = refl

bounded : input_bound (pos 9000) (pos 8192) ≡ ok (pos 8192)
unfolding input_bound
bounded = refl

abbrev per_million : ℕ → Rate
per_million n = record { num = pos n; den = pos 1000000 }

abbrev price : PriceVersion
price = record {
  id = 1;
  model_id = 2;
  kind = PriceKind.sale_credit;
  currency = [];
  input = per_million 3;
  cache_read = per_million 1;
  cache_write = per_million 4;
  output = per_million 15;
  extra_rates = [];
  revision = pos 1;
  effective_from = 0;
  effective_to = none;
}

abbrev bounds : ReserveBounds
bounds = record {
  input_bound_tokens = pos 2000000;
  output_cap_tokens = pos 1000000;
  extra_bounds = [];
}

abbrev used_buckets : UsageBuckets
used_buckets = record {
  input_tokens = some (pos 700000);
  cache_read_tokens = some (pos 300000);
  cache_write_tokens = none;
  output_tokens = some (pos 100000);
  reasoning_tokens = none;
}

abbrev usage : UsageRecord
usage = record {
  request_id = 1;
  attempt_id = 2;
  source = UsageSource.reported;
  buckets = used_buckets;
  revision = 1;
}

abbrev cost : Charge
cost = record {
  kind = PriceKind.sale_credit;
  basis = UsageSource.reported;
  credit = pos 6;
  money = none;
  price_version_id = 1;
  revision = pos 1;
  billable = used_buckets;
}

reserved : reserve_amount price bounds ≡ ok (pos 31)
unfolding reserve_amount reserve_total reserve_lines price_extras add_line micros_for_units round
    Credit.add sub64 add64 wrap64
reserved = refl

quoted : quote price usage [] ≡ ok cost
unfolding quote validate total_of rounding_for price_buckets price_extras add_line micros_for_units
    round Credit.add sub64 add64 wrap64
quoted = refl

within : Within used_buckets bounds
within = record {
  input = omega arith;
  cache_read = omega arith;
  cache_write = tt;
  output = omega arith;
}

quote-le-reserve_amount_example : amount cost ≤ℤ pos 31
quote-le-reserve_amount_example = quote-le-reserve_amount price bounds usage reserved quoted within

abbrev policy : Policy
policy = record {
  name = 1;
  revision = pos 1;
  model_ids = 2 ∷ [];
  five_hour_limit = some (pos 1000);
  weekly_limit = none;
  monthly_limit = none;
  rpm_limit = none;
  tpm_limit = none;
  concurrency_limit = none;
  overage = OveragePolicy.reject;
}

evaluate_admission_iff_example :
    (evaluate_admission policy (row ∷ []) (pos 970) 8 ≡ ok tt)
    ↔ All (Carries (row ∷ []) (pos 970) 8) (enabled_windows policy)
evaluate_admission_iff_example = evaluate_admission_iff policy (row ∷ []) (pos 970) 8 (omega arith)

abbrev block : WindowBlock
block = record {
  kind = WindowKind.five_hour;
  limit_micros = pos 1000;
  used_micros = pos 10;
  reserved_micros = pos 20;
  resets_at = some 18000000000007;
}

refused :
    evaluate_admission policy (row ∷ []) (pos 971) 8 ≡ err (quota_exceeded_error (block ∷ []) false)
unfolding evaluate_admission blocks_from enabled_windows find_window contains available sub64 wrap64
    ◌-ℤ◌
refused = refl

evaluate_admission_blocks_example :
    (map kind_of (block ∷ []) ≡ keep (falls_short (row ∷ []) (pos 971) 8) (enabled_windows policy))
    × ((block ∷ []) ≢ [])
    × (false ≡ false)
evaluate_admission_blocks_example =
    evaluate_admission_blocks policy (row ∷ []) (pos 971) 8 (omega arith) refused
