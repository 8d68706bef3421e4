-- ===== src/Accounting/Pricing/Lines.antt =====
-- internal/inference/accounting/pricing.go: a total is the exact sum of the rounded lines.
use mathlib.Core.Path.{subst}
use native.Mathlib.Nat.{add_assoc}
use yunhou_users.Common.{
  ap, ◌∙◌, map, ℕ, ◌+◌, ◌*◌, ◌≤◌, ◌≡◌, refl, Option, none, some, List, [], ◌∷◌, ◌++◌, ℤ, pos,
  pos_part, ◌≤ℤ◌, max_int64, arith, +ℤ_parts, eq_of_parts, ◌+ℤ◌,
}
use yunhou_users.Domain.Errors.{ok, ◌>>=◌, >>=-eq-ok}
use yunhou_users.Domain.Rate.{Rate, RoundingMode, micros_for_units}
use yunhou_users.Domain.Rate.Rounding.{IsRounding, micros_for_units_ok}
use yunhou_users.Domain.Credit
use yunhou_users.Domain.Credit.{add-IsChecked}
use yunhou_users.Accounting.Pricing.{add_line, price_buckets, price_extras, price_extra, rate_of}

-- What one line adds to a total: the rounding of its exact price.
abbrev pub IsLine : RoundingMode → ℤ → Rate → ℕ → Type 0
IsLine mode units rate m =
    (pos 0 ≤ℤ units) × IsRounding mode (pos_part rate.num * pos_part units) (pos_part rate.den) m

-- The number is the sum of the rounded lines; a line whose units are not known adds nothing.
abbrev pub IsSum : RoundingMode → List (Option ℤ × Rate) → ℕ → Type 0
IsSum mode [] n = n ≡ 0
IsSum mode ((none, rate) ∷ lines) n = IsSum mode lines n
IsSum mode ((some units, rate) ∷ lines) n =
    (m : ℕ) × (k : ℕ) × IsLine mode units rate m × IsSum mode lines k × (n ≡ m + k)

credit_add_pos :
    (a b : ℕ) {z : ℤ}
    → a ≤ max_int64
    → b ≤ max_int64
    → Credit.add (pos a) (pos b) ≡ ok z
    → (z ≡ pos (a + b)) × (a + b ≤ max_int64)
credit_add_pos a b ha hb h = ground (
  arith,
  add-IsChecked (pos a) (pos b) (omega arith) (omega arith),
  +ℤ_parts (pos a) (pos b),
  eq_of_parts (pos a +ℤ pos b) (pos (a + b)),
)

pub add_line_ok :
    (mode : RoundingMode) (t : ℕ) (units : ℤ) (rate : Rate) {z : ℤ}
    → t ≤ max_int64
    → add_line mode (pos t) units rate ≡ ok z
    → (m : ℕ) × IsLine mode units rate m × (z ≡ pos (t + m)) × (t + m ≤ max_int64)
unfolding add_line
add_line_ok mode t units rate {z = z} ht h =
    let (x, e, h') = >>=-eq-ok (micros_for_units rate units mode) (Credit.add (pos t)) h in
    let (units_nonneg, valid, (m, q, small, exact)) = micros_for_units_ok rate units mode e in
    let added : Credit.add (pos t) (pos m) ≡ ok z = rw (← q) h' in
    let (sum, fits) = credit_add_pos t m ht small added in (m, (units_nonneg, exact), sum, fits)

-- The loop over the token lines adds up exactly the lines that are known.
pub price_buckets_ok :
    (mode : RoundingMode) (t : ℕ) (lines : List (Option ℤ × Rate)) {z : ℤ}
    → t ≤ max_int64
    → price_buckets mode (pos t) lines ≡ ok z
    → (n : ℕ) × IsSum mode lines n × (z ≡ pos (t + n)) × (t + n ≤ max_int64)
unfolding price_buckets
price_buckets_ok mode t [] ht h = (0, refl, ground arith, omega arith)
price_buckets_ok mode t ((none, rate) ∷ lines) ht h = price_buckets_ok mode t lines ht h
price_buckets_ok mode t ((some units, rate) ∷ lines) ht h =
    let (x, e, h') =
      >>=-eq-ok (add_line mode (pos t) units rate) (λ sum. price_buckets mode sum lines) h in
    let (m, line, q, fits) = add_line_ok mode t units rate ht e in
    let (n, sum, qz, fits') = price_buckets_ok mode (t + m) lines fits (rw q at h') in
    (m + n, (m, n, line, sum, refl), qz ∙ ap pos (add_assoc t m n), omega arith)

-- The extra items as lines: one without a rate adds nothing.
abbrev pub line_at : Option Rate → ℤ → Option ℤ × Rate
line_at none units = (none, record { num = pos 0; den = pos 1 })
line_at (some rate) units = (some units, rate)

abbrev pub extra_line : List (ℕ × Rate) → ℕ × ℤ → Option ℤ × Rate
extra_line rates (name, units) = line_at (rate_of rates name) units

IsSum-cons :
    (mode : RoundingMode) (line : Option ℤ × Rate) (lines : List (Option ℤ × Rate)) (m n : ℕ)
    → IsSum mode (line ∷ []) m
    → IsSum mode lines n
    → IsSum mode (line ∷ lines) (m + n)
IsSum-cons mode (none, rate) lines m n h g =
    let e : n ≡ m + n = omega arith in subst (IsSum mode lines) e g
IsSum-cons mode (some units, rate) lines m n (a, k, line, empty, total) g =
    (a, n, line, g, omega (arith, empty, total))

price_extra_ok :
    (mode : RoundingMode) (t : ℕ) (units : ℤ) (o : Option Rate) {z : ℤ}
    → t ≤ max_int64
    → price_extra mode (pos t) units o ≡ ok z
    → (m : ℕ) × IsSum mode (line_at o units ∷ []) m × (z ≡ pos (t + m)) × (t + m ≤ max_int64)
price_extra_ok mode t units none ht h = (0, refl, ground arith, omega arith)
price_extra_ok mode t units (some rate) ht h =
    let (m, line, q, fits) = add_line_ok mode t units rate ht h in
    (m, (m, 0, line, refl, omega arith), q, fits)

-- The loop over the extra items adds up exactly the lines of the items that have a rate.
pub price_extras_ok :
    (mode : RoundingMode) (rates : List (ℕ × Rate)) (t : ℕ) (extras : List (ℕ × ℤ)) {z : ℤ}
    → t ≤ max_int64
    → price_extras mode rates (pos t) extras ≡ ok z
    → (n : ℕ) × IsSum mode (map (extra_line rates) extras) n
      × (z ≡ pos (t + n))
      × (t + n ≤ max_int64)
unfolding price_extras
price_extras_ok mode rates t [] ht h = (0, refl, ground arith, omega arith)
price_extras_ok mode rates t ((name, units) ∷ extras) {z = z} ht h =
    let go : (price_extra mode (pos t) units (rate_of rates name) >>= λ sum.
    price_extras mode rates sum extras)
        ≡ ok z =
      ground arith in
    let (x, e, h') =
      >>=-eq-ok (price_extra mode (pos t) units (rate_of rates name))
        (λ sum. price_extras mode rates sum extras) go in
    let (m, line, q, fits) = price_extra_ok mode t units (rate_of rates name) ht e in
    let (n, sum, qz, fits') = price_extras_ok mode rates (t + m) extras fits (rw q at h') in
    (
      m + n,
      IsSum-cons mode (extra_line rates (name, units)) (map (extra_line rates) extras) m n line sum,
      qz ∙ ap pos (add_assoc t m n),
      omega arith,
    )

pub IsSum-append :
    (mode : RoundingMode) (xs ys : List (Option ℤ × Rate)) (m n : ℕ)
    → IsSum mode xs m
    → IsSum mode ys n
    → IsSum mode (xs ++ ys) (m + n)
IsSum-append mode [] ys m n h g = let e : n ≡ m + n = omega arith in subst (IsSum mode ys) e g
IsSum-append mode ((none, rate) ∷ xs) ys m n h g = IsSum-append mode xs ys m n h g
IsSum-append mode ((some units, rate) ∷ xs) ys m n (a, k, line, rest, total) g =
    (a, k + n, line, IsSum-append mode xs ys k n rest g, omega arith)
