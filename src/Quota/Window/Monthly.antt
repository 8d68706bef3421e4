-- ===== src/Quota/Window/Monthly.antt =====
-- internal/inference/quota/window.go: the monthly periods partition the time from the anchor on, and
-- each begins on the anchor's own day, clamped to the month.
use yunhou_users.Common.{
  ap, false, ℕ, zero, suc, ◌+◌, ◌-◌, ◌*◌, ◌/◌, ◌%◌, ◌≤◌, ◌<◌, min, ◌≡◌, refl, ℤ, pos, sub_ℕ, ltb,
  arith, Bool-cases, inl, inr, lt→ltb, sym,
}
use mathlib.Core.Path.{subst}
use native.Mathlib.Nat.{add-zero, add-suc}
use native.Mathlib.Decide.{dec_lt}
use native.Mathlib.Numerals.{add-one}
use yunhou_users.Domain.Errors.{Time, Sentinel, sentinel, Result, ok, err}
use yunhou_users.Quota.Calendar.{Civil, day_nanos, month_index, days_of, month_start, civil, date}
use yunhou_users.Quota.Calendar.Laws.{
  IsValid, days_of-pos, month_start_mono, civil-IsValid, date-civil, civil-date,
}
use yunhou_users.Quota.Window.{Interval, add_months_clamped, monthly_window_from, monthly_window_at}

-- The civil fields of the anchor shifted by `k` months.
abbrev pub shifted : Civil → ℕ → Civil
shifted a k =
    let m = month_index a + k in
    record { year = m / 12; month = m % 12 + 1; day = min a.day (days_of m); clock = a.clock }

add_months_clamped_lem : (a : Time) (k : ℕ) → add_months_clamped a k ≡ date (shifted (civil a) k)
unfolding add_months_clamped
add_months_clamped_lem a k =
    let c = civil a in
    let total = c.month - 1 + k in
    let m = month_index c + k in
    let y : c.year + total / 12 ≡ m / 12 = omega arith in
    let mo : total % 12 + 1 ≡ m % 12 + 1 = omega arith in
    let i : (c.year + total / 12) * 12 + (total % 12 + 1 - 1) ≡ m = omega arith in rw (i, y, mo)

shifted-IsValid : (c : Civil) (k : ℕ) → IsValid c → IsValid (shifted c k)
shifted-IsValid c k v =
    let i : month_index (shifted c k) ≡ month_index c + k = omega arith in
    ground (arith, days_of-pos (month_index c + k), ap days_of i)

-- The months are counted from the anchor itself: the result lies `k` calendar months after it, on
-- the anchor's day or on the last day of a shorter month, at the same time of day.
pub civil-add_months_clamped :
    (a : Time) (k : ℕ) → civil (add_months_clamped a k) ≡ shifted (civil a) k
civil-add_months_clamped a k =
    rw add_months_clamped_lem
      (civil-date (shifted (civil a) k) (shifted-IsValid (civil a) k (civil-IsValid a)))

-- A date lies in its month.
date_in_month :
    (c : Civil) (m : ℕ)
    → IsValid c
    → month_index c ≡ m
    → (month_start m * day_nanos ≤ date c) × (date c < month_start (suc m) * day_nanos)
unfolding date month_start
date_in_month c m v e = ground (arith, ap month_start e, ap days_of e)

instant_in_month :
    (t : Time)
    → let m = month_index (civil t) in
      (month_start m * day_nanos ≤ t) × (t < month_start (suc m) * day_nanos)
instant_in_month t =
    rw date-civil at (date_in_month (civil t) (month_index (civil t)) (civil-IsValid t) refl)

-- What is shifted by `k` months lies in the month that is `k` months later.
shifted_in_month :
    (a : Time) (k n : ℕ)
    → n ≡ month_index (civil a) + k
    → (month_start n * day_nanos ≤ add_months_clamped a k)
      × (add_months_clamped a k < month_start (suc n) * day_nanos)
shifted_in_month a k n e =
    let v : IsValid (shifted (civil a) k) = shifted-IsValid (civil a) k (civil-IsValid a) in
    let i : month_index (shifted (civil a) k) ≡ n = omega arith in
    subst (λ t. (month_start n * day_nanos ≤ t) × (t < month_start (suc n) * day_nanos))
      (sym (add_months_clamped_lem a k)) (date_in_month (shifted (civil a) k) n v i)

add_months_clamped-zero : (a : Time) → add_months_clamped a 0 ≡ a
add_months_clamped-zero a =
    let v = civil-IsValid a in
    let i : month_index (civil a) + 0 ≡ month_index (civil a) = omega arith in
    let same : shifted (civil a) 0 ≡ civil a = ground (arith, ap days_of i) in
    rw (add_months_clamped_lem, same) (date-civil a)

-- The periods follow one another without a gap, and each lasts some time.
pub add_months_clamped-lt :
    (a : Time) (k : ℕ) → add_months_clamped a k < add_months_clamped a (suc k)
add_months_clamped-lt a k =
    let m = month_index (civil a) + k in
    omega (arith, shifted_in_month a k m refl, shifted_in_month a (suc k) (suc m) (omega arith))

-- The period that the month number leads to, of an instant in the `k`-th month after the anchor's.
abbrev IsPeriod : Time → Time → Result (Interval × ℤ) → Type 0
IsPeriod a t r =
    (k : ℕ) × (r
      ≡ ok (record { start = add_months_clamped a k; end = add_months_clamped a (k + 1) }, pos k))
    × (add_months_clamped a k ≤ t)
    × (t < add_months_clamped a (k + 1))

monthly_window_from_lem :
    (a t : Time) (k : ℕ)
    → a ≤ t
    → month_index (civil t) ≡ month_index (civil a) + k
    → IsPeriod a t (monthly_window_from a t (pos k))
unfolding monthly_window_from
monthly_window_from_lem a t zero h e = (
  0,
  ground (arith, add_months_clamped-zero a),
  ground (arith, add_months_clamped-zero a),
  omega
      (arith, instant_in_month t, shifted_in_month a 1 (suc (month_index (civil t))) (omega arith)),
)
monthly_window_from_lem a t (suc k) h e =
    let m = month_index (civil t) in
    elim (Bool-cases (ltb t (add_months_clamped a (suc k)))) [
      | inl early ↦ (
        k,
        rw early refl,
        ground (
          arith,
          instant_in_month t,
          shifted_in_month a k (month_index (civil a) + k) refl,
          month_start_mono (suc (month_index (civil a) + k)) 0,
          ap month_start (let q : m ≡ suc (month_index (civil a) + k) = omega arith in q),
        ),
        ground (arith, add-one k),
      )
      | inr late ↦ (
        suc k,
        rw late refl,
        ground arith,
        omega (arith, instant_in_month t, shifted_in_month a (suc k + 1) (suc m) (omega arith)),
      )
    ]

month_start_le : (m n : ℕ) → m ≤ n → month_start m ≤ month_start n
month_start_le m n h =
    let e : m + (n - m) ≡ n = omega arith in
    ground (arith, month_start_mono m (n - m), ap month_start e)

month_index-le : (a t : Time) → a ≤ t → month_index (civil a) ≤ month_index (civil t)
month_index-le a t h = elim (dec_lt (month_index (civil t)) (month_index (civil a))) [
  | yes before ↦ absurd (
      omega (
        arith,
        instant_in_month t,
        instant_in_month a,
        month_start_le (suc (month_index (civil t))) (month_index (civil a)) before,
      ))
  | no after ↦ omega arith
]

-- From the anchor on, every instant lies in exactly the period that `MonthlyWindowAt` returns: the
-- one that begins `k` clamped months after the anchor and ends where the next begins.
pub monthly_window_at-covers :
    (a t : Time)
    → a ≤ t
    → (k : ℕ) × (monthly_window_at a t
        ≡ ok (record { start = add_months_clamped a k; end = add_months_clamped a (k + 1) }, pos k))
      × (add_months_clamped a k ≤ t)
      × (t < add_months_clamped a (k + 1))
unfolding monthly_window_at
monthly_window_at-covers a t h =
    let n = month_index (civil t) - month_index (civil a) in
    let later = month_index-le a t h in
    let va = civil-IsValid a in
    let vt = civil-IsValid t in
    let not_before : ltb t a ≡ false = ground arith in
    let e : sub_ℕ ((civil t).year * 12 + (civil t).month) ((civil a).year * 12 + (civil a).month)
        ≡ pos n =
      ground arith in
    rw (not_before, e) (monthly_window_from_lem a t n h (omega arith))

-- No period exists before the anchor.
pub monthly_window_at_before :
    (a t : Time) → t < a → monthly_window_at a t ≡ err (sentinel Sentinel.before_anchor)
unfolding monthly_window_at
monthly_window_at_before a t h = rw (lt→ltb t a h)

add_months_clamped_mono :
    (a : Time) (k j : ℕ) → add_months_clamped a k ≤ add_months_clamped a (k + j)
add_months_clamped_mono a k zero = rw add-zero (omega arith)
add_months_clamped_mono a k (suc j) =
    rw add-suc (omega (arith, add_months_clamped_mono a k j, add_months_clamped-lt a (k + j)))

period_not_before :
    (a t : Time) (j k : ℕ) → add_months_clamped a k ≤ t → t < add_months_clamped a (j + 1) → k ≤ j
period_not_before a t j k h g = elim (dec_lt j k) [
  | yes l ↦
      let e : j + 1 + (k - (j + 1)) ≡ k = omega arith in
      absurd (
        ground
          (arith, add_months_clamped_mono a (j + 1) (k - (j + 1)), ap (add_months_clamped a) e))
  | no l ↦ omega arith
]

-- No instant lies in two monthly periods of one anchor.
pub monthly_period_unique :
    (a t : Time) (j k : ℕ)
    → add_months_clamped a j ≤ t
    → t < add_months_clamped a (j + 1)
    → add_months_clamped a k ≤ t
    → t < add_months_clamped a (k + 1)
    → j ≡ k
monthly_period_unique a t j k hj gj hk gk =
    omega (arith, period_not_before a t j k hk gj, period_not_before a t k j hj gk)

-- No period begins before the anchor.
pub add_months_clamped_after : (a : Time) (k : ℕ) → a ≤ add_months_clamped a k
add_months_clamped_after a k =
    let e : 0 + k ≡ k = omega arith in
    ground
      (arith, add_months_clamped-zero a, add_months_clamped_mono a 0 k, ap (add_months_clamped a) e)
