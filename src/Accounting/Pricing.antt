-- ===== src/Accounting/Pricing.antt =====
-- internal/inference/accounting/pricing.go: price versions, the normalization of overlapping usage
-- buckets, and the quote of one usage record. A Go map is the list of its entries in the order of
-- the iteration; names and identifiers are only compared, so they are numbers.
pub mod Resolve
pub mod Buckets
pub mod Lines
pub mod Quote
use yunhou_users.Common.{
  ℕ, ◌+◌, Bool, true, false, not, ◌&&◌, ◌||◌, Option, none, some, List, [], ◌∷◌, ℤ, pos, leb_ℤ, eqb,
  eqb_ℤ, ltb_ℤ, ltb, ◌==◌, add64, sub64, if◌then◌else◌,
}
use yunhou_users.Domain.Errors.{
  Time, Code, Sentinel, Error, sentinel, new_error, wrap_error, Result, ok, err, ◌>>=◌, ◌>>◌,
  fail_if,
}
use yunhou_users.Domain.Credit
use yunhou_users.Domain.Money.{Money, new_money}
use yunhou_users.Domain.Rate.{Rate, RoundingMode, round_down, round_up, micros_for_units, new_rate}
use yunhou_users.Domain.Usage.{UsageSource, UsageBuckets, UsageRecord}

pub data PriceKind : Type 0 where
  sale_credit sale_money upstream_cost : PriceKind
  -- any other text
  unknown_price : List ℕ → PriceKind

unfoldable pub rounding_for : PriceKind → RoundingMode
rounding_for PriceKind.upstream_cost = round_down
rounding_for _ = round_up

pub record PriceVersion : Type 0 where
  pub id : ℕ
  pub model_id : ℕ
  pub kind : PriceKind
  pub currency : List ℕ
  pub input : Rate
  pub cache_read : Rate
  pub cache_write : Rate
  pub output : Rate
  pub extra_rates : List (ℕ × Rate)
  pub revision : ℤ
  pub effective_from : Time
  pub effective_to : Option Time

abbrev is_empty : List ℕ → Bool
is_empty [] = true
is_empty (_ ∷ _) = false

-- The error of a wrapped call, under the code.
abbrev wrap_result {ℓ} : {A : Type ℓ} → Code → Result A → Result (Unit {0})
wrap_result c (ok _) = ok tt
wrap_result c (err e) = err (wrap_error c e)

abbrev validate_currency : PriceKind → List ℕ → Result (Unit {0})
validate_currency PriceKind.sale_credit c =
    fail_if (not (is_empty c)) (new_error Code.invalid_input)
validate_currency PriceKind.sale_money c = wrap_result Code.invalid_input (new_money (pos 0) c)
validate_currency PriceKind.upstream_cost c = wrap_result Code.invalid_input (new_money (pos 0) c)
validate_currency (PriceKind.unknown_price text) c = err (new_error Code.invalid_input)

abbrev not_after : Option Time → Time → Bool
not_after none from = false
not_after (some to) from = not (ltb from to)

unfoldable pub validate : PriceVersion → Result (Unit {0})
unfolding new_money
validate p = do
  validate_currency p.kind p.currency
  fail_if (leb_ℤ p.revision (pos 0)) (new_error Code.invalid_input)
  fail_if (not_after p.effective_to p.effective_from) (new_error Code.invalid_input)

abbrev before_end : Time → Option Time → Bool
before_end t none = true
before_end t (some to) = ltb t to

unfoldable pub effective_at : PriceVersion → Time → Bool
effective_at p t = if ltb t p.effective_from then false else before_end t p.effective_to

abbrev pub price_kind_eqb : PriceKind → PriceKind → Bool
price_kind_eqb PriceKind.sale_credit PriceKind.sale_credit = true
price_kind_eqb PriceKind.sale_money PriceKind.sale_money = true
price_kind_eqb PriceKind.upstream_cost PriceKind.upstream_cost = true
price_kind_eqb (PriceKind.unknown_price a) (PriceKind.unknown_price b) = eqb a b
price_kind_eqb _ _ = false

abbrev replaces : PriceVersion → Option PriceVersion → Bool
replaces v none = true
replaces v (some best) = ltb_ℤ best.revision v.revision

-- The loop of `ResolvePrice`, by the best version so far.
unfoldable pub best_from :
    Option PriceVersion → List PriceVersion → PriceKind → Time → Option PriceVersion
unfolding effective_at
best_from best [] kind t = best
best_from best (v ∷ vs) kind t =
    best_from
      (if not (price_kind_eqb v.kind kind) || not (effective_at v t)
        then best
        else if replaces v best
        then some v
        else best)
      vs kind t

abbrev or_unpriced : Option PriceVersion → Result PriceVersion
or_unpriced none = err (sentinel Sentinel.unpriced)
or_unpriced (some v) = ok v

unfoldable pub resolve_price : List PriceVersion → PriceKind → Time → Result PriceVersion
unfolding best_from
resolve_price versions kind t = or_unpriced (best_from none versions kind t)

pub record Inclusion : Type 0 where
  pub reasoning_in_output : Bool
  pub cache_read_in_input : Bool
  pub cache_write_in_input : Bool

unfoldable pub sub_bucket : Option ℤ → Option ℤ → Result (Option ℤ)
sub_bucket none part = ok none
sub_bucket (some base) none = ok (some base)
sub_bucket (some base) (some part) =
    if ltb_ℤ base part
    then err (wrap_error Code.invalid_input (sentinel Sentinel.negative_value))
    else ok (some (sub64 base part))

unfoldable pub add_bucket : Option ℤ → Option ℤ → Option ℤ
add_bucket none none = none
add_bucket none (some b) = some b
add_bucket (some a) none = some a
add_bucket (some a) (some b) = some (add64 a b)

abbrev is_known : Option ℤ → Bool
is_known none = false
is_known (some _) = true

abbrev billed_output : Bool → Option ℤ → Option ℤ → Option ℤ
billed_output in_output output reasoning =
    if not in_output && is_known reasoning then add_bucket output reasoning else output

unfoldable pub billable_buckets : UsageBuckets → Inclusion → Result UsageBuckets
unfolding sub_bucket add_bucket
billable_buckets raw inc = do
  input ←
      if inc.cache_read_in_input
      then sub_bucket raw.input_tokens raw.cache_read_tokens
      else ok raw.input_tokens
  input' ← if inc.cache_write_in_input then sub_bucket input raw.cache_write_tokens else ok input
  ok (record raw {
    input_tokens = input';
    output_tokens = billed_output inc.reasoning_in_output raw.output_tokens raw.reasoning_tokens;
  })

-- The amount is `credit` for a sale_credit list and `money` for the others.
pub record Charge : Type 0 where
  pub kind : PriceKind
  pub basis : UsageSource
  pub credit : ℤ
  pub money : Option Money
  pub price_version_id : ℕ
  pub revision : ℤ
  pub billable : UsageBuckets

-- `addLine`: the rounding of one line, and the checked sum.
unfoldable pub add_line : RoundingMode → ℤ → ℤ → Rate → Result ℤ
add_line mode total units rate = micros_for_units rate units mode >>= λ m. Credit.add total m

-- The loop over the token lines; a bucket that is not known is passed over.
unfoldable pub price_buckets : RoundingMode → ℤ → List (Option ℤ × Rate) → Result ℤ
unfolding add_line
price_buckets mode total [] = ok total
price_buckets mode total ((none, rate) ∷ lines) = price_buckets mode total lines
price_buckets mode total ((some units, rate) ∷ lines) =
    add_line mode total units rate >>= λ sum. price_buckets mode sum lines

unfoldable pub rate_of : List (ℕ × Rate) → ℕ → Option Rate
rate_of [] name = none
rate_of ((n, r) ∷ rates) name = let rest = rate_of rates name in if n == name then some r else rest

-- One extra item, by its rate.
abbrev price_extra : RoundingMode → ℤ → ℤ → Option Rate → Result ℤ
price_extra mode total units none =
    if ltb_ℤ (pos 0) units then err (new_error Code.unpriced_capability) else ok total
price_extra mode total units (some rate) = add_line mode total units rate

unfoldable pub price_extras : RoundingMode → List (ℕ × Rate) → ℤ → List (ℕ × ℤ) → Result ℤ
unfolding add_line rate_of
price_extras mode rates total [] = ok total
price_extras mode rates total ((name, units) ∷ extras) =
    if ltb_ℤ units (pos 0)
    then err (wrap_error Code.invalid_input (sentinel Sentinel.negative_value))
    else (price_extra mode total units (rate_of rates name) >>= λ sum.
        price_extras mode rates sum extras)

abbrev chargeable : UsageSource → Result (Unit {0})
chargeable UsageSource.reported = ok tt
chargeable UsageSource.estimated = ok tt
chargeable UsageSource.unknown = err (sentinel Sentinel.unknown_usage)
chargeable UsageSource.pending = err (new_error Code.invalid_input)

abbrev no_extras : List (ℕ × ℤ) → Bool
no_extras [] = true
no_extras (_ ∷ _) = false

abbrev carries_nothing : UsageBuckets → List (ℕ × ℤ) → Bool
carries_nothing b extras =
    not (is_known b.input_tokens)
    && not (is_known b.cache_read_tokens)
    && not (is_known b.cache_write_tokens)
    && not (is_known b.output_tokens)
    && not (is_known b.reasoning_tokens)
    && no_extras extras

abbrev pub lines_of : PriceVersion → UsageBuckets → List (Option ℤ × Rate)
lines_of p b =
    (b.input_tokens, p.input)
    ∷ (b.cache_read_tokens, p.cache_read)
    ∷ (b.cache_write_tokens, p.cache_write)
    ∷ (b.output_tokens, p.output)
    ∷ []

abbrev charge_in : PriceVersion → UsageRecord → ℤ → Option Money → Charge
charge_in p usage credit money = record {
  kind = p.kind;
  basis = usage.source;
  credit = credit;
  money = money;
  price_version_id = p.id;
  revision = p.revision;
  billable = usage.buckets;
}

-- The two loops of `Quote`, over the token lines and over the extra items.
unfoldable pub total_of : PriceVersion → UsageRecord → List (ℕ × ℤ) → Result ℤ
unfolding price_buckets price_extras
total_of p usage extras =
    price_buckets (rounding_for p.kind) (pos 0) (lines_of p usage.buckets) >>= λ sum.
    price_extras (rounding_for p.kind) p.extra_rates sum extras

abbrev charge_of : PriceVersion → UsageRecord → ℤ → Result Charge
charge_of p usage total =
    if price_kind_eqb p.kind PriceKind.sale_credit
    then ok (charge_in p usage total none)
    else (new_money total p.currency >>= λ m. ok (charge_in p usage (pos 0) (some m)))

unfoldable pub quote : PriceVersion → UsageRecord → List (ℕ × ℤ) → Result Charge
unfolding validate total_of
quote p usage extras = do
  validate p
  chargeable usage.source
  fail_if (carries_nothing usage.buckets extras) (new_error Code.invalid_input)
  total ← total_of p usage extras
  charge_of p usage total

-- The decoded document of `DecodeExtraRates`: its schema version and its entries.
pub record ExtraRatesDoc : Type 0 where
  pub schema_version : ℤ
  pub rates : List (ℕ × ℤ)

-- `domain.NewRate(micros, 1)` for every entry.
unfoldable pub unit_rates : List (ℕ × ℤ) → Result (List (ℕ × Rate))
unfolding new_rate
unit_rates [] = ok []
unit_rates ((name, micros) ∷ rest) = elim (new_rate micros (pos 1)) [
  | ok r ↦ unit_rates rest >>= λ rs. ok ((name, r) ∷ rs)
  | err e ↦ err (wrap_error Code.invalid_input e)
]

-- `DecodeExtraRates`, over the JSON decoder `unmarshal`, which the package encoding/json provides.
unfoldable pub decode_extra_rates :
    (List ℕ → Option ExtraRatesDoc) → List ℕ → Result (List (ℕ × Rate))
unfolding unit_rates
decode_extra_rates unmarshal raw = if is_empty raw then ok [] else elim (unmarshal raw) [
  | none ↦ err (wrap_error Code.invalid_input (sentinel Sentinel.foreign))
  | some doc ↦
      if eqb_ℤ doc.schema_version (pos 1)
      then unit_rates doc.rates
      else err (new_error Code.invalid_input)
]
