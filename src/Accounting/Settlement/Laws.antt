-- ===== src/Accounting/Settlement/Laws.antt =====
-- internal/inference/accounting/settlement.go: the decision bills the normalized buckets, its overage is
-- what exceeds the hold, and a correction is the distance to the corrected amount.
use mathlib.Core.Path.{subst}
use yunhou_users.Common.{
  sym, ◌≡◌, ◌⊎◌, refl, some, [], ℤ, pos, ◌+ℤ◌, ◌-ℤ◌, ◌≤ℤ◌, ◌<ℤ◌, IsInt64, sub64, sub64_exact,
  -ℤ_parts, +ℤ_parts, int_laws, max_int64, ◌≤◌, ℕ, arith,
}
use yunhou_users.Domain.Errors.{Result, ok, err, >>=-eq-ok, ok_injective}
use yunhou_users.Domain.Usage.{UsageRecord, UsageBuckets}
use yunhou_users.Accounting.Pricing.{PriceVersion, Charge, Inclusion, billable_buckets, quote}
use yunhou_users.Accounting.Pricing.Buckets.{
  IsCount, known, IsNormalized, billable_buckets-IsNormalized,
}
use yunhou_users.Accounting.Pricing.Quote.{amount, IsQuote, quote-IsQuote}
use yunhou_users.Quota.Reservation.{ReserveBounds, reserve_amount}
use yunhou_users.Quota.Reservation.Covers.{Within, quote-le-reserve_amount}
use yunhou_users.Accounting.Settlement.{
  Decision, overage_micros, beyond, decide_settlement, CorrectionDirection, correction_delta,
}

-- The part of a charge beyond the hold.
abbrev pub IsOverage : ℤ → ℤ → ℤ → Type 0
IsOverage charged held over =
    (pos 0 ≤ℤ over) × (charged ≤ℤ held → over ≡ pos 0) × (held <ℤ charged → held +ℤ over ≡ charged)

beyond-IsOverage :
    (held : ℤ) (n : ℕ)
    → pos 0 ≤ℤ held
    → n ≤ max_int64
    → IsOverage (pos n) held (beyond held (pos n))
beyond-IsOverage held n h top =
    let e : pos 0 <ℤ pos n -ℤ held → sub64 (pos n) held ≡ pos n -ℤ held =
      λ p. sub64_exact (pos n) held (omega int_laws) in
    (
      ground (arith, e, -ℤ_parts (pos n) held),
      λ le. ground arith,
      λ lt. ground (arith, e, -ℤ_parts (pos n) held, +ℤ_parts held (pos n -ℤ held)),
    )

decided :
    (usage : UsageRecord) (price : PriceVersion) (inc : Inclusion) (held : ℤ) {d : Decision}
    → decide_settlement usage price inc held ≡ ok d
    → (b : UsageBuckets) × (c : Charge) × (billable_buckets usage.buckets inc ≡ ok b)
      × (quote price (record usage { buckets = b }) [] ≡ ok c)
      × (record {
        record_used = record usage { buckets = b };
        charge = some c;
        reserved_micros = held;
      }
          ≡ d)
unfolding decide_settlement
decided usage price inc held h =
    let (b, e, h1) = >>=-eq-ok (billable_buckets usage.buckets inc) _ h in
    let (c, q, h2) = >>=-eq-ok (quote price (record usage { buckets = b }) []) _ h1 in
    (b, c, e, q, ok_injective h2)

-- What a settlement decides: the record bills the normalized buckets and is otherwise the reported
-- one, the charge is a charge for that record, and the overage is its part beyond the hold.
abbrev pub IsDecision : UsageRecord → PriceVersion → Inclusion → ℤ → Decision → Type 0
IsDecision usage price inc held d =
    IsNormalized usage.buckets inc d.record_used.buckets
    × (d.record_used ≡ record usage { buckets = d.record_used.buckets })
    × (d.reserved_micros ≡ held)
    × ((c : Charge) × (d.charge ≡ some c)
        × IsQuote price d.record_used [] c
        × IsOverage (amount c) held (overage_micros d))

quote-IsOverage :
    (price : PriceVersion) (usage : UsageRecord) (held : ℤ) (c : Charge)
    → pos 0 ≤ℤ held
    → IsQuote price usage [] c
    → IsOverage (amount c) held (beyond held (amount c))
quote-IsOverage price usage held c h ((n, _, q, fits), _, _, _, _) =
    rw q (beyond-IsOverage held n h fits)

-- Where the hold and the reported counts are not negative, and the output and the reasoning tokens
-- fit an int64 together, a decision bills the normalized buckets in a record that is otherwise the
-- reported one, its charge is the exact quote of that record, and its overage is zero up to the
-- hold and exactly the part of the charge beyond it otherwise.
pub decide_settlement-IsDecision :
    (usage : UsageRecord) (price : PriceVersion) (inc : Inclusion) (held : ℤ) {d : Decision}
    → pos 0 ≤ℤ held
    → IsCount usage.buckets.input_tokens
    → IsCount usage.buckets.cache_read_tokens
    → IsCount usage.buckets.cache_write_tokens
    → IsInt64 (known usage.buckets.output_tokens +ℤ known usage.buckets.reasoning_tokens)
    → decide_settlement usage price inc held ≡ ok d
    → IsDecision usage price inc held d
unfolding overage_micros
decide_settlement-IsDecision usage price inc held hh hi hr hw ho h =
    let (b, c, e, q, same) = decided usage price inc held h in
    let charge = quote-IsQuote price (record usage { buckets = b }) [] q in
    subst (IsDecision usage price inc held) same (
      billable_buckets-IsNormalized usage.buckets inc hi hr hw ho e,
      refl,
      refl,
      (c, refl, charge, quote-IsOverage price (record usage { buckets = b }) held c hh charge),
    )

-- A request whose billable usage stays within the bounds it reserved has no overage, when it is
-- settled under the price version of its reservation.
pub decide_settlement-Within :
    (usage : UsageRecord) (price : PriceVersion) (inc : Inclusion) (b : ReserveBounds) {held : ℤ}
    {d : Decision}
    → reserve_amount price b ≡ ok held
    → decide_settlement usage price inc held ≡ ok d
    → Within d.record_used.buckets b
    → overage_micros d ≡ pos 0
unfolding overage_micros
decide_settlement-Within usage price inc b {held} r h w =
    let (raw, c, e, q, same) = decided usage price inc held h in
    let within = subst (λ x. Within x.record_used.buckets b) (sym same) w in
    let le = quote-le-reserve_amount price b (record usage { buckets = raw }) r q within in
    subst (λ x. overage_micros x ≡ pos 0) same (ground (arith, le))

-- A correction is refused at a negative amount and at the amount that stands already; otherwise it
-- is a positive delta, which brings the original amount to the corrected one: up by a debit, down by
-- a credit.
abbrev pub IsCorrection : ℤ → ℤ → Result (CorrectionDirection × ℤ) → Type 0
IsCorrection original corrected (ok (CorrectionDirection.debit, delta)) =
    (pos 0 ≤ℤ corrected) × (pos 0 <ℤ delta) × (original +ℤ delta ≡ corrected)
IsCorrection original corrected (ok (CorrectionDirection.credit, delta)) =
    (pos 0 ≤ℤ corrected) × (pos 0 <ℤ delta) × (original -ℤ delta ≡ corrected)
IsCorrection original corrected (err e) = (corrected <ℤ pos 0) ⊎ (original ≡ corrected)

-- At an original amount that is not negative, a correction is refused only at a negative corrected
-- amount or at the amount that stands already; otherwise its delta is positive and brings the
-- original amount exactly to the corrected one, up by a debit or down by a credit.
pub correction_delta-IsCorrection :
    (original corrected : ℤ)
    → pos 0 ≤ℤ original
    → original ≤ℤ pos max_int64
    → corrected ≤ℤ pos max_int64
    → IsCorrection original corrected (correction_delta original corrected)
unfolding correction_delta
correction_delta-IsCorrection original corrected h1 h2 h3 =
    let e : pos 0 ≤ℤ corrected → sub64 corrected original ≡ corrected -ℤ original =
      λ p. sub64_exact corrected original (omega int_laws) in
    let f : pos 0 ≤ℤ corrected → sub64 original corrected ≡ original -ℤ corrected =
      λ p. sub64_exact original corrected (omega int_laws) in
    ground (
      arith,
      e,
      f,
      -ℤ_parts corrected original,
      -ℤ_parts original corrected,
      +ℤ_parts original (corrected -ℤ original),
      -ℤ_parts original (original -ℤ corrected),
    )
