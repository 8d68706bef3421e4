-- ===== src/Quota/Reservation/Covers.antt =====
-- internal/inference/quota/reservation.go against accounting/pricing.go: what is reserved at admission
-- is enough for what is charged at settlement.
use mathlib.Core.Path.{subst}
use native.Mathlib.Nat.{mul-le-mul_left}
use yunhou_users.Common.{
  ℕ, ◌+◌, ◌≤◌, ◌≡◌, refl, ◌∙◌, ap, Option, none, some, List, [], ◌∷◌, ◌++◌, map, ℤ, pos, pos_part,
  ◌≤ℤ◌, max_int64, arith, ltb_ℤ, leb_ℤ, ◌||◌, not, false,
}
use yunhou_users.Domain.Errors.{
  Code, Sentinel, sentinel, new_error, wrap_error, ok, >>=-eq-ok, >>-eq-ok, fail_if, fail_if-eq-ok,
}
use yunhou_users.Domain.Rate.{Rate, round_up}
use yunhou_users.Domain.Rate.Rounding.{cancel_right}
use yunhou_users.Domain.Usage.{UsageBuckets, UsageRecord}
use yunhou_users.Accounting.Pricing.{
  PriceKind, PriceVersion, Charge, rounding_for, price_kind_eqb, add_line, price_extras, lines_of,
  quote,
}
use yunhou_users.Accounting.Pricing.Lines.{
  IsLine, IsSum, IsSum-append, add_line_ok, extra_line, price_extras_ok,
}
use yunhou_users.Accounting.Pricing.Quote.{amount, quote-IsQuote}
use yunhou_users.Quota.Reservation.{
  ReserveBounds, reserve_lines, bound_lines, reserve_total, refuse_negative, reserve_amount,
}

abbrev known_line : ℤ × Rate → Option ℤ × Rate
known_line (units, rate) = (some units, rate)

reserve_lines_ok :
    (t : ℕ) (lines : List (ℤ × Rate)) {z : ℤ}
    → t ≤ max_int64
    → reserve_lines (pos t) lines ≡ ok z
    → (n : ℕ) × IsSum round_up (map known_line lines) n × (z ≡ pos (t + n)) × (t + n ≤ max_int64)
unfolding reserve_lines
reserve_lines_ok t [] ht h = (0, refl, ground arith, omega arith)
reserve_lines_ok t ((units, rate) ∷ lines) {z = z} ht h =
    let (x, e, h') =
      >>=-eq-ok (add_line round_up (pos t) units rate) (λ sum. reserve_lines sum lines) h in
    let (m, line, q, fits) = add_line_ok round_up t units rate ht e in
    let (n, sum, qz, fits') = reserve_lines_ok (t + m) lines {z = z} fits (rw q at h') in
    let assoc : t + m + n ≡ t + (m + n) = omega arith in
    (m + n, (m, n, line, sum, refl), qz ∙ ap pos assoc, omega arith)

-- The reserved amount is the exact sum of the lines of the bounds, each rounded up, and of the
-- extra items that have a rate.
abbrev pub IsReserve : PriceVersion → ReserveBounds → ℤ → Type 0
IsReserve price b z =
    (n : ℕ) × IsSum round_up
      (map known_line (bound_lines price b) ++ map (extra_line price.extra_rates) b.extra_bounds) n
    × (z ≡ pos n)

reserve_total_ok :
    (price : PriceVersion) (b : ReserveBounds) {z : ℤ}
    → reserve_total price b ≡ ok z
    → IsReserve price b z
unfolding reserve_total
reserve_total_ok price b h =
    let (x, e, h') =
      >>=-eq-ok (reserve_lines (pos 0) (bound_lines price b))
        (λ sum. price_extras round_up price.extra_rates sum b.extra_bounds) h in
    let (n, sum, q, fits) = reserve_lines_ok 0 (bound_lines price b) (omega arith) e in
    let (k, more, r, fits') =
      price_extras_ok round_up price.extra_rates (0 + n) b.extra_bounds fits (rw q at h') in
    let zero_left : 0 + n + k ≡ n + k = omega arith in
    (
      n + k,
      IsSum-append round_up (map known_line (bound_lines price b))
          (map (extra_line price.extra_rates) b.extra_bounds) n k sum more,
      r ∙ ap pos zero_left,
    )

refused_or_same : (x : ℤ) {z : ℤ} → refuse_negative x ≡ ok z → x ≡ z
refused_or_same x h = ground arith

credit_kind :
    (k : PriceKind)
    → not (price_kind_eqb k PriceKind.sale_credit) ≡ false
    → k ≡ PriceKind.sale_credit
credit_kind k h = ground arith

-- A reservation is priced from a credit list.
pub reserve_amount-IsReserve :
    (price : PriceVersion) (b : ReserveBounds) {z : ℤ}
    → reserve_amount price b ≡ ok z
    → IsReserve price b z × (price.kind ≡ PriceKind.sale_credit)
unfolding reserve_amount
reserve_amount-IsReserve price b h =
    let (kind, h1) =
      >>-eq-ok
        (fail_if (not (price_kind_eqb price.kind PriceKind.sale_credit))
          (new_error Code.invalid_input))
        _ h in
    let (bounds, h2) =
      >>-eq-ok
        (fail_if (ltb_ℤ b.input_bound_tokens (pos 0) || leb_ℤ b.output_cap_tokens (pos 0))
          (wrap_error Code.invalid_input (sentinel Sentinel.negative_value)))
        _ h1 in
    let (x, e, h3) = >>=-eq-ok (reserve_total price b) refuse_negative h2 in
    (
      reserve_total_ok price b (e ∙ ap ok (refused_or_same x h3)),
      credit_kind price.kind
          (fail_if-eq-ok (not (price_kind_eqb price.kind PriceKind.sale_credit)) _ kind),
    )

-- No more than the bound, if it is known.
abbrev pub AtMost : Option ℤ → ℤ → Type 0
AtMost none bound = Unit
AtMost (some n) bound = n ≤ℤ bound

-- The lines of a usage lie below the lines of the bounds, one by one.
abbrev IsBelow : List (Option ℤ × Rate) → List (Option ℤ × Rate) → Type 0
IsBelow [] ys = Unit
IsBelow ((o, r) ∷ xs) [] = ⊥
IsBelow ((none, r) ∷ xs) (y ∷ ys) = IsBelow xs ys
IsBelow ((some u, r) ∷ xs) ((none, s) ∷ ys) = ⊥
IsBelow ((some u, r) ∷ xs) ((some v, s) ∷ ys) = (u ≤ℤ v) × (r ≡ s) × IsBelow xs ys

line_mono :
    (u v : ℤ) (r : Rate) (m k : ℕ) → u ≤ℤ v → IsLine round_up u r m → IsLine round_up v r k → m ≤ k
line_mono u v r m k h (u_pos, low) (v_pos, high) =
    let units : pos_part u ≤ pos_part v = ground arith in
    cancel_right m k (pos_part r.den) (omega (arith, mul-le-mul_left (pos_part r.num) units))

sum_mono :
    (xs ys : List (Option ℤ × Rate)) (m n : ℕ)
    → IsBelow xs ys
    → IsSum round_up xs m
    → IsSum round_up ys n
    → m ≤ n
sum_mono [] ys m n h f g = omega arith
sum_mono ((o, r) ∷ xs) [] m n h f g = absurd h
sum_mono ((none, r) ∷ xs) ((none, s) ∷ ys) m n h f g = sum_mono xs ys m n h f g
sum_mono ((none, r) ∷ xs) ((some v, s) ∷ ys) m n h f (a, k, line, rest, total) =
    omega (arith, sum_mono xs ys m k h f rest)
sum_mono ((some u, r) ∷ xs) ((none, s) ∷ ys) m n h f g = absurd h
sum_mono ((some u, r) ∷ xs) ((some v, s) ∷ ys) m n (le, same, h) (a, j, line, rest, total)
      (b, k, line', rest', total') =
    omega (arith, line_mono u v r a b le line (rw same line'), sum_mono xs ys j k h rest rest')

-- The usage stays within the bounds of the reservation, bucket by bucket.
pub record Within (u : UsageBuckets) (b : ReserveBounds) : Type 0 where
  pub input : AtMost u.input_tokens b.input_bound_tokens
  pub cache_read : AtMost u.cache_read_tokens b.input_bound_tokens
  pub cache_write : AtMost u.cache_write_tokens b.input_bound_tokens
  pub output : AtMost u.output_tokens b.output_cap_tokens

IsBelow-cons :
    (o : Option ℤ) (v : ℤ) (r : Rate) (xs ys : List (Option ℤ × Rate))
    → AtMost o v
    → IsBelow xs ys
    → IsBelow ((o, r) ∷ xs) ((some v, r) ∷ ys)
IsBelow-cons none v r xs ys h g = g
IsBelow-cons (some u) v r xs ys h g = (h, refl, g)

lines_le :
    (price : PriceVersion) (b : ReserveBounds) (u : UsageBuckets) (m n : ℕ)
    → Within u b
    → IsSum round_up (lines_of price u ++ []) m
    → IsSum round_up
        (map known_line (bound_lines price b) ++ map (extra_line price.extra_rates) b.extra_bounds)
        n
    → m ≤ n
lines_le price b u m n w lines bounds =
    sum_mono (lines_of price u ++ [])
      (map known_line (bound_lines price b) ++ map (extra_line price.extra_rates) b.extra_bounds) m
      n
      (IsBelow-cons u.input_tokens b.input_bound_tokens price.input _ _ w.input (
        IsBelow-cons u.cache_read_tokens b.input_bound_tokens price.cache_read _ _ w.cache_read (
          IsBelow-cons u.cache_write_tokens b.input_bound_tokens price.cache_write _ _ w.cache_write
            (IsBelow-cons u.output_tokens b.output_cap_tokens price.output [] _ w.output tt))))
      lines bounds

-- A request that stays within the bounds it reserved is never charged more than was reserved, under
-- the price version of its admission: rounding line by line cannot push the charge over the hold.
pub quote-le-reserve_amount :
    (price : PriceVersion) (b : ReserveBounds) (usage : UsageRecord) {c : Charge} {held : ℤ}
    → reserve_amount price b ≡ ok held
    → quote price usage [] ≡ ok c
    → Within usage.buckets b
    → amount c ≤ℤ held
unfolding rounding_for
quote-le-reserve_amount price b usage h e w =
    let ((n, bounds, q), credit) = reserve_amount-IsReserve price b h in
    let ((m, lines, r, _), _, _, _, _) = quote-IsQuote price usage [] e in
    let up : rounding_for price.kind ≡ round_up = ap rounding_for credit in
    let le : m ≤ n =
      lines_le price b usage.buckets m n w
        (subst (λ mode. IsSum mode (lines_of price usage.buckets ++ []) m) up lines) bounds in
    rw (q, r) (omega arith)
