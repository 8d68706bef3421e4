-- ===== src/Quota/Window.antt =====
-- internal/inference/quota/window.go: the five-hour, the weekly and the monthly quota windows, as
-- half-open intervals of instants. Errors carry no value, so the zero results beside them are left
-- out. A duration is an int64 number of nanoseconds.
pub mod Monthly
pub mod Weekly
pub mod Views
use yunhou_users.Common.{
  ℕ, zero, suc, ◌+◌, ◌-◌, ◌*◌, ◌/◌, ◌%◌, min, Bool, true, false, not, ◌&&◌, Option, none, some,
  List, [], ◌∷◌, ℤ, pos, negsuc, pos_part, neg_part, sub_ℕ, ltb, ◌==◌, wrap64, max_int64,
  if◌then◌else◌,
}
use yunhou_users.Domain.Errors.{
  Time, WindowKind, Code, Sentinel, Error, sentinel, new_error, Result, ok, err, ◌>>=◌,
}
use yunhou_users.Domain.Usage.{QuotaWindow}
use yunhou_users.Quota.Calendar.{Civil, days_of, civil, date}

abbrev pub five_hour_duration : ℕ
five_hour_duration = 18000000000000

abbrev pub weekly_duration : ℕ
weekly_duration = 604800000000000

pub record Interval : Type 0 where
  pub start : Time
  pub end : Time

unfoldable pub contains : Interval → Time → Bool
contains iv t = not (ltb t iv.start) && ltb t iv.end

-- `AddMonthsClamped`, at a number of months that is not negative: no caller passes another.
unfoldable pub add_months_clamped : Time → ℕ → Time
add_months_clamped anchor months =
    let a = civil anchor in
    let total = a.month - 1 + months in
    let year = a.year + total / 12 in
    let month = total % 12 + 1 in
    let day = min a.day (days_of (year * 12 + (month - 1))) in
    date (record { year = year; month = month; day = day; clock = a.clock })

unfoldable pub monthly_interval : Time → ℤ → Result Interval
monthly_interval anchor (negsuc _) = err (new_error Code.invalid_input)
monthly_interval anchor (pos k) =
    ok (record { start = add_months_clamped anchor k; end = add_months_clamped anchor (k + 1) })

-- `MonthlyWindowAt` behind its first test, by the month number `k`. A negative one ends in
-- `ErrBeforeAnchor` whether or not it is lowered once more.
unfoldable pub monthly_window_from : Time → Time → ℤ → Result (Interval × ℤ)
unfolding monthly_interval
monthly_window_from a t (negsuc _) = err (sentinel Sentinel.before_anchor)
monthly_window_from a t (pos zero) =
    if ltb t (add_months_clamped a 0)
    then err (sentinel Sentinel.before_anchor)
    else monthly_interval a (pos 0) >>= λ iv. ok (iv, pos 0)
monthly_window_from a t (pos (suc k)) =
    let n = if ltb t (add_months_clamped a (suc k)) then pos k else pos (suc k) in
    monthly_interval a n >>= λ iv. ok (iv, n)

unfoldable pub monthly_window_at : Time → Time → Result (Interval × ℤ)
unfolding monthly_window_from
monthly_window_at a t =
    if ltb t a
    then err (sentinel Sentinel.before_anchor)
    else let tc = civil t in
      let ac = civil a in
      monthly_window_from a t (sub_ℕ (tc.year * 12 + tc.month) (ac.year * 12 + ac.month))

-- `t.Add(d)`
abbrev pub add_duration : Time → ℤ → Time
add_duration t d = t + pos_part d - neg_part d

unfoldable pub weekly_interval : Time → ℤ → Result Interval
weekly_interval anchor (negsuc _) = err (new_error Code.invalid_input)
weekly_interval anchor (pos n) =
    let start = add_duration anchor (wrap64 (pos (n * weekly_duration))) in
    ok (record { start = start; end = start + weekly_duration })

-- `t.Sub(a)` is the largest duration where the true difference is larger.
unfoldable pub weekly_window_at : Time → Time → Result (Interval × ℤ)
unfolding weekly_interval
weekly_window_at a t =
    if ltb t a
    then err (sentinel Sentinel.before_anchor)
    else let n = pos (min (t - a) max_int64 / weekly_duration) in
      weekly_interval a n >>= λ iv. ok (iv, n)

unfoldable pub five_hour_interval : Time → Interval
five_hour_interval t = record { start = t; end = t + five_hour_duration }

abbrev pub kind_eqb : WindowKind → WindowKind → Bool
kind_eqb WindowKind.five_hour WindowKind.five_hour = true
kind_eqb WindowKind.weekly WindowKind.weekly = true
kind_eqb WindowKind.monthly WindowKind.monthly = true
kind_eqb WindowKind.unknown_kind WindowKind.unknown_kind = true
kind_eqb _ _ = false

abbrev pub interval_of : QuotaWindow → Interval
interval_of w = record { start = w.start; end = w.end }

-- The first row of the kind that is not voided and holds the instant.
unfoldable pub find_window : List QuotaWindow → WindowKind → Time → Option QuotaWindow
unfolding contains
find_window [] kind t = none
find_window (w ∷ ws) kind t =
    let rest = find_window ws kind t in
    if kind_eqb w.kind kind && not w.voided && contains (interval_of w) t then some w else rest

-- The first row of the kind that is not voided and begins at the instant.
unfoldable pub find_starting_at : List QuotaWindow → WindowKind → Time → Option QuotaWindow
find_starting_at [] kind start = none
find_starting_at (w ∷ ws) kind start =
    let rest = find_starting_at ws kind start in
    if kind_eqb w.kind kind && not w.voided && w.start == start then some w else rest

abbrev pub is_none {ℓ} : {A : Type ℓ} → Option A → Bool
is_none none = true
is_none (some _) = false

-- `!hasWindowStartingAt` beside the anchored interval.
abbrev anchored : List QuotaWindow → WindowKind → Interval × ℤ → Result (Interval × Bool)
anchored active kind (iv, _) = ok (iv, is_none (find_starting_at active kind iv.start))

abbrev five_hour_binding : Option QuotaWindow → Time → Interval × Bool
five_hour_binding (some w) t = (interval_of w, false)
five_hour_binding none t = (five_hour_interval t, true)

unfoldable pub consumption_window :
    WindowKind → Time → List QuotaWindow → Time → Result (Interval × Bool)
unfolding find_window find_starting_at weekly_window_at monthly_window_at five_hour_interval
consumption_window WindowKind.five_hour anchor active t =
    ok (five_hour_binding (find_window active WindowKind.five_hour t) t)
consumption_window WindowKind.weekly anchor active t =
    weekly_window_at anchor t >>= anchored active WindowKind.weekly
consumption_window WindowKind.monthly anchor active t =
    monthly_window_at anchor t >>= anchored active WindowKind.monthly
consumption_window WindowKind.unknown_kind anchor active t = err (new_error Code.invalid_input)

pub record WindowView : Type 0 where
  pub kind : WindowKind
  pub disabled : Bool
  pub limit : Option ℤ
  pub used : ℤ
  pub reserved : ℤ
  pub window_start : Option Time
  pub resets_at : Option Time
  -- `Activation` is on_first_consumption
  pub awaits_consumption : Bool

abbrev empty_view : WindowKind → Option ℤ → WindowView
empty_view kind limit = record {
  kind = kind;
  disabled = is_none limit;
  limit = limit;
  used = pos 0;
  reserved = pos 0;
  window_start = none;
  resets_at = none;
  awaits_consumption = false;
}

-- The view with an interval, and with the counters of a row, if there is one.
abbrev view_over : WindowView → Interval → Option QuotaWindow → WindowView
view_over v iv none = record v { window_start = some iv.start; resets_at = some iv.end }
view_over v iv (some w) = record v {
  used = w.used;
  reserved = w.reserved_micros;
  window_start = some iv.start;
  resets_at = some iv.end;
}

abbrev five_hour_view : WindowView → Option QuotaWindow → WindowView
five_hour_view v (some w) = view_over v (interval_of w) (some w)
five_hour_view v none = record v { awaits_consumption = true }

abbrev anchored_view : WindowView → List QuotaWindow → WindowKind → Interval × ℤ → Result WindowView
anchored_view v active kind (iv, _) = ok (view_over v iv (find_starting_at active kind iv.start))

abbrev enabled_view : WindowKind → Time → WindowView → List QuotaWindow → Time → Result WindowView
enabled_view WindowKind.five_hour anchor v active t =
    ok (five_hour_view v (find_window active WindowKind.five_hour t))
enabled_view WindowKind.weekly anchor v active t =
    weekly_window_at anchor t >>= anchored_view v active WindowKind.weekly
enabled_view WindowKind.monthly anchor v active t =
    monthly_window_at anchor t >>= anchored_view v active WindowKind.monthly
enabled_view WindowKind.unknown_kind anchor v active t = err (new_error Code.invalid_input)

unfoldable pub read_window :
    WindowKind → Time → Option ℤ → List QuotaWindow → Time → Result WindowView
unfolding find_window find_starting_at weekly_window_at monthly_window_at
read_window kind anchor limit active t =
    let v = empty_view kind limit in
    if v.disabled then ok v else enabled_view kind anchor v active t
