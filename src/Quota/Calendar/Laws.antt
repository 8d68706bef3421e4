-- ===== src/Quota/Calendar/Laws.antt =====
-- The civil fields and the instants determine each other.
use yunhou_users.Common.{
  ℕ, zero, suc, ◌+◌, ◌-◌, ◌/◌, ◌%◌, ◌≤◌, ◌<◌, ◌≡◌, ap, arith, ltb, inl, inr, Bool-cases,
}
use native.Mathlib.Nat.{add-zero, add-suc}
use yunhou_users.Domain.Errors.{Time}
use yunhou_users.Quota.Calendar.{
  Civil, day_nanos, month_index, days_of, month_start, find_month, civil, date,
}

pub days_of-pos : (m : ℕ) → 0 < days_of m
unfolding days_of
days_of-pos m = ground arith

-- Fields in their ranges.
pub record IsValid (c : Civil) : Type 0 where
  pub month_pos : 0 < c.month
  pub month_small : c.month ≤ 12
  pub day_pos : 0 < c.day
  pub day_small : c.day ≤ days_of (month_index c)
  pub clock_small : c.clock < day_nanos

pub month_start_mono : (m k : ℕ) → month_start m ≤ month_start (m + k)
unfolding month_start
month_start_mono m zero = rw add-zero (omega arith)
month_start_mono m (suc k) = rw add-suc (omega (arith, month_start_mono m k))

-- The search ends in the month that holds the day.
pub find_month_lem :
    (fuel m d : ℕ)
    → d < fuel
    → let (n, r) = find_month fuel m d in (month_start n + r ≡ month_start m + d) × (r < days_of n)
unfolding find_month month_start
find_month_lem zero m d h = elim h [ ]
find_month_lem (suc fuel) m d h = elim (Bool-cases (ltb d (days_of m))) [
  | inl inside ↦ rw inside (ground arith)
  | inr beyond ↦
      rw beyond (ground (arith, days_of-pos m, find_month_lem fuel (suc m) (d - days_of m)))
]

civil_index :
    (t : Time) → month_index (civil t) ≡ (find_month (suc (t / day_nanos)) 0 (t / day_nanos)).0
unfolding civil
civil_index t = omega arith

pub civil-IsValid : (t : Time) → IsValid (civil t)
unfolding civil
civil-IsValid t =
    ground
      (arith, find_month_lem (suc (t / day_nanos)) 0 (t / day_nanos) (omega arith), civil_index t)

pub date-civil : (t : Time) → date (civil t) ≡ t
unfolding civil date month_start
date-civil t =
    ground
      (arith, find_month_lem (suc (t / day_nanos)) 0 (t / day_nanos) (omega arith), civil_index t)

-- From a month that is `j` before the day's month, the search finds that month.
find_month-at :
    (j fuel m d n r : ℕ)
    → j < fuel
    → n ≡ m + j
    → month_start m + d ≡ month_start n + r
    → r < days_of n
    → find_month fuel m d ≡ (n, r)
unfolding find_month month_start
find_month-at j zero m d n r hf en ed h = elim hf [ ]
find_month-at zero (suc fuel) m d n r hf en ed h =
    let same : n ≡ m = omega arith in ground (arith, ap month_start same, ap days_of same)
find_month-at (suc j) (suc fuel) m d n r hf en ed h =
    let after : n ≡ suc m + j = omega arith in
    let passed : month_start (suc m) ≤ month_start n = rw after (month_start_mono (suc m) j) in
    ground (arith, find_month-at j fuel (suc m) (d - days_of m) n r, passed)

month_start-le : (m : ℕ) → m ≤ month_start m
unfolding month_start
month_start-le zero = omega arith
month_start-le (suc m) = omega (arith, month_start-le m, days_of-pos m)

civil_of_month :
    (t : Time) (n r : ℕ)
    → t / day_nanos ≡ month_start n + r
    → r < days_of n
    → civil t ≡ record { year = n / 12; month = n % 12 + 1; day = r + 1; clock = t % day_nanos }
unfolding civil month_start
civil_of_month t n r e h = rw (
    find_month-at n (suc (t / day_nanos)) 0 (t / day_nanos) n r (omega (arith, month_start-le n))
      (omega arith) (omega arith) h)

pub civil-date : (c : Civil) → IsValid c → civil (date c) ≡ c
unfolding date
civil-date c v =
    rw (civil_of_month (date c) (month_index c) (c.day - 1) (omega arith) (omega arith))
      (ground arith)
