-- ===== src/Accounting/Settlement.antt =====
-- internal/inference/accounting/settlement.go: the decision of one settlement, and its correction.
pub mod Laws
use yunhou_users.Common.{
  ℕ, ◌-◌, Bool, Option, none, some, List, [], ℤ, pos, leb_ℤ, ltb_ℤ, ltb, sub64, if◌then◌else◌,
}
use yunhou_users.Domain.Errors.{
  Time, Code, Sentinel, sentinel, new_error, wrap_error, Result, ok, err, ◌>>=◌,
}
use yunhou_users.Domain.Usage.{UsageSource, UsageBuckets, UsageRecord}
use yunhou_users.Accounting.Pricing.{PriceVersion, Charge, Inclusion, billable_buckets, quote}

pub record Decision : Type 0 where
  pub record_used : UsageRecord
  pub charge : Option Charge
  pub reserved_micros : ℤ

-- The charged amount: credit, or money where there is money.
abbrev charged : Charge → ℤ
charged c = elim (c.money) [ none ↦ c.credit | some m ↦ m.micros ]

abbrev pub beyond : ℤ → ℤ → ℤ
beyond reserved amount = if leb_ℤ amount reserved then pos 0 else sub64 amount reserved

abbrev overage_of : Option Charge → ℤ → ℤ
overage_of none reserved = pos 0
overage_of (some c) reserved = beyond reserved (charged c)

unfoldable pub overage_micros : Decision → ℤ
overage_micros d = overage_of d.charge d.reserved_micros

unfoldable pub decide_settlement : UsageRecord → PriceVersion → Inclusion → ℤ → Result Decision
unfolding billable_buckets quote
decide_settlement usage price inc reserved = billable_buckets usage.buckets inc >>= λ billable.
    quote price (record usage { buckets = billable }) [] >>= λ c. ok (record {
      record_used = record usage { buckets = billable };
      charge = some c;
      reserved_micros = reserved;
    })

-- The columns of a request that recovery reads.
pub record RequestBounds : Type 0 where
  pub request_reserved : Option ℤ
  pub request_input_bound : Option ℤ
  pub request_output_cap : Option ℤ
  pub request_extra_bounds : List (ℕ × ℤ)

pub record Bounds : Type 0 where
  pub input_bound : ℤ
  pub output_cap : ℤ
  pub extras : List (ℕ × ℤ)

abbrev both : Option ℤ → Option ℤ → List (ℕ × ℤ) → Option Bounds
both none output extras = none
both (some input) none extras = none
both (some input) (some output) extras =
    some (record { input_bound = input; output_cap = output; extras = extras })

unfoldable pub bounds_of : RequestBounds → Option Bounds
bounds_of r = both r.request_input_bound r.request_output_cap r.request_extra_bounds

abbrev buckets_of : Option Bounds → UsageBuckets
buckets_of none = record {
  input_tokens = none;
  cache_read_tokens = none;
  cache_write_tokens = none;
  output_tokens = none;
  reasoning_tokens = none;
}
buckets_of (some b) = record {
  input_tokens = some b.input_bound;
  cache_read_tokens = none;
  cache_write_tokens = none;
  output_tokens = some b.output_cap;
  reasoning_tokens = none;
}

-- `ConservativeRecord`, without the raw payload that says why.
unfoldable pub conservative_record : ℕ → ℕ → RequestBounds → ℕ → UsageRecord
unfolding bounds_of
conservative_record request_id attempt_id req revision = record {
  request_id = request_id;
  attempt_id = attempt_id;
  source = UsageSource.estimated;
  buckets = buckets_of (bounds_of req);
  revision = revision;
}

pub data CorrectionDirection : Type 0 where
  debit credit : CorrectionDirection

unfoldable pub correction_delta : ℤ → ℤ → Result (CorrectionDirection × ℤ)
correction_delta original corrected =
    if ltb_ℤ corrected (pos 0)
    then err (wrap_error Code.invalid_input (sentinel Sentinel.negative_value))
    else if ltb_ℤ original corrected
    then ok (CorrectionDirection.debit, sub64 corrected original)
    else if ltb_ℤ corrected original
    then ok (CorrectionDirection.credit, sub64 original corrected)
    else err (new_error Code.invalid_input)

abbrev lag_since : Time → Option Time → ℕ
lag_since now none = 0
lag_since now (some oldest) = if ltb now oldest then 0 else now - oldest

-- `SettlementLag`, for instants within a duration of each other.
unfoldable pub settlement_lag : Time → Option Time → ℕ
settlement_lag now oldest = lag_since now oldest
