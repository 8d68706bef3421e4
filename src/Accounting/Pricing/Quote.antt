-- ===== src/Accounting/Pricing/Quote.antt =====
-- internal/inference/accounting/pricing.go: what `Quote` charges.
use yunhou_users.Common.{
  ℕ, ◌+◌, ◌≡◌, ◌∙◌, false, none, some, List, ◌++◌, map, ℤ, pos, max_int64, arith, ap, ◌≤◌,
}
use yunhou_users.Domain.Errors.{
  ok, ◌>>=◌, >>=-eq-ok, fail_if, >>-eq-ok, fail_if-eq-ok, new_error, Code,
}
use yunhou_users.Domain.Money.{new_money}
use yunhou_users.Domain.Usage.{UsageRecord}
use yunhou_users.Accounting.Pricing.{
  PriceVersion, Charge, rounding_for, price_buckets, price_extras, lines_of, validate, chargeable,
  quote, carries_nothing, charge_of, total_of,
}
use yunhou_users.Accounting.Pricing.Lines.{
  IsSum, IsSum-append, extra_line, price_buckets_ok, price_extras_ok,
}

-- The charged amount: the money of a money list, else the credit.
abbrev pub amount : Charge → ℤ
amount c = elim (c.money) [ none ↦ c.credit | some m ↦ m.micros ]

-- A charge for a usage record: its amount is the exact sum of the rounded lines of the known
-- buckets and of the extra items, and it names the source of the usage and the price version.
abbrev pub IsQuote : PriceVersion → UsageRecord → List (ℕ × ℤ) → Charge → Type 0
IsQuote p usage extras c =
    ((n : ℕ) × IsSum (rounding_for p.kind)
        (lines_of p usage.buckets ++ map (extra_line p.extra_rates) extras) n
      × (amount c ≡ pos n)
      × (n ≤ max_int64))
    × (c.basis ≡ usage.source)
    × (c.price_version_id ≡ p.id)
    × (c.revision ≡ p.revision)
    × (c.billable ≡ usage.buckets)

charge_of_ok :
    (p : PriceVersion) (usage : UsageRecord) (n : ℕ) {c : Charge}
    → charge_of p usage (pos n) ≡ ok c
    → (amount c ≡ pos n)
      × (c.basis ≡ usage.source)
      × (c.price_version_id ≡ p.id)
      × (c.revision ≡ p.revision)
      × (c.billable ≡ usage.buckets)
unfolding new_money
charge_of_ok p usage n h = ground arith

total_of_ok :
    (p : PriceVersion) (usage : UsageRecord) (extras : List (ℕ × ℤ)) {z : ℤ}
    → total_of p usage extras ≡ ok z
    → (n : ℕ) × IsSum
        (rounding_for p.kind)
        (lines_of p usage.buckets ++ map (extra_line p.extra_rates) extras)
        n
      × (z ≡ pos n)
      × (n ≤ max_int64)
unfolding total_of
total_of_ok p usage extras h =
    let mode = rounding_for p.kind in
    let lines = lines_of p usage.buckets in
    let (x, e, h') =
      >>=-eq-ok (price_buckets mode (pos 0) lines)
        (λ sum. price_extras mode p.extra_rates sum extras) h in
    let (n, sum, q, fits) = price_buckets_ok mode 0 lines (omega arith) e in
    let (k, more, r, fits') = price_extras_ok mode p.extra_rates (0 + n) extras fits (rw q at h') in
    let zero_left : 0 + n + k ≡ n + k = omega arith in
    (n + k, IsSum-append mode lines _ n k sum more, r ∙ ap pos zero_left, omega arith)

quote_stages :
    (p : PriceVersion) (usage : UsageRecord) (extras : List (ℕ × ℤ)) {c : Charge}
    → quote p usage extras ≡ ok c
    → ((total_of p usage extras >>= charge_of p usage) ≡ ok c)
      × (chargeable usage.source ≡ ok tt)
      × (validate p ≡ ok tt)
      × (carries_nothing usage.buckets extras ≡ false)
unfolding quote
quote_stages p usage extras h =
    let (valid, h1) = >>-eq-ok (validate p) _ h in
    let (source, h2) = >>-eq-ok (chargeable usage.source) _ h1 in
    let (carries, h3) =
      >>-eq-ok (fail_if (carries_nothing usage.buckets extras) (new_error Code.invalid_input)) _
        h2 in
    (h3, source, valid, fail_if-eq-ok (carries_nothing usage.buckets extras) _ carries)

-- Whatever charge `Quote` returns, its amount is the exact sum of the rounded lines of the known
-- buckets and of the extra items, each rounded in the direction of the price kind, and fits an
-- int64; and it carries the source and the buckets of the usage and the identifier and revision of
-- the price version.
pub quote-IsQuote :
    (p : PriceVersion) (usage : UsageRecord) (extras : List (ℕ × ℤ)) {c : Charge}
    → quote p usage extras ≡ ok c
    → IsQuote p usage extras c
quote-IsQuote p usage extras h =
    let (z, e, h') =
      >>=-eq-ok (total_of p usage extras) (charge_of p usage) (quote_stages p usage extras h).0 in
    let (n, sum, q, fits) = total_of_ok p usage extras e in
    let (a, basis, id, revision, billable) = charge_of_ok p usage n (rw q at h') in
    ((n, sum, a, fits), basis, id, revision, billable)
