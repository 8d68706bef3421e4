-- ===== src/Quota/Window/Views.antt =====
-- internal/inference/quota/window.go: which interval a consumption binds to, and that the read
-- view shows the same one.
use yunhou_users.Common.{
  ◌⊎◌, ◌*◌, ◌≤◌, ◌<◌, ◌≡◌, ◌≢◌, refl, Bool, true, false, not, ◌&&◌, none, some, List, [], ◌∷◌, ℤ,
  arith, Bool-cases, inl, inr, Option-cases, max_int64, ◌-◌, ◌+◌,
}
use yunhou_users.Domain.Errors.{Time, WindowKind, ok, Result-cases}
use yunhou_users.Domain.Usage.{QuotaWindow}
use yunhou_users.Quota.Window.{
  Interval, WindowView, contains, find_window, find_starting_at, interval_of, kind_eqb,
  weekly_window_at, is_none, weekly_duration, add_months_clamped, monthly_window_at,
  five_hour_interval, consumption_window, read_window,
}
use yunhou_users.Quota.Window.Monthly.{
  monthly_window_at-covers, monthly_period_unique, add_months_clamped_after,
}
use yunhou_users.Quota.Window.Weekly.{weekly_window_at-covers, weekly_period_unique}

kind_eqb→eq : (k j : WindowKind) → kind_eqb k j ≡ true → k ≡ j
kind_eqb→eq k j h = ground arith

-- A row that the search finds is one of its kind, not voided, whose interval holds the instant.
pub find_window_sound :
    (ws : List QuotaWindow) (kind : WindowKind) (t : Time) {w : QuotaWindow}
    → find_window ws kind t ≡ some w
    → (w.kind ≡ kind) × (w.voided ≡ false) × (w.start ≤ t) × (t < w.end)
unfolding find_window
find_window_sound [] kind t h = cc
find_window_sound (x ∷ ws) kind t h =
    elim (Bool-cases (kind_eqb x.kind kind && not x.voided && contains (interval_of x) t)) [
      | inl fits ↦ ground (arith, kind_eqb→eq x.kind kind)
      | inr other ↦ find_window_sound ws kind t (rw other at h)
    ]

-- At or after the anchor, a consumption of any of the three kinds binds to an interval that holds
-- its instant; for a weekly window, where the instant is within the 292 years from the anchor that
-- a duration spans.
pub consumption_window_holds :
    (kind : WindowKind) (anchor : Time) (active : List QuotaWindow) (t : Time)
    → kind ≢ WindowKind.unknown_kind
    → anchor ≤ t
    → (kind ≡ WindowKind.weekly → t - anchor ≤ max_int64)
    → (iv : Interval) × (activate : Bool) × (consumption_window kind anchor active t
        ≡ ok (iv, activate))
      × (iv.start ≤ t)
      × (t < iv.end)
unfolding consumption_window
consumption_window_holds WindowKind.five_hour anchor active t known h s =
    elim (Option-cases (find_window active WindowKind.five_hour t)) [
      | inl absent ↦ (
        five_hour_interval t,
        true,
        rw absent,
        unfold five_hour_interval in omega arith,
        unfold five_hour_interval in omega arith,
      )
      | inr (w, e) ↦
          let (_, _, from, until) = find_window_sound active WindowKind.five_hour t e in
          (interval_of w, false, rw e, from, until)
    ]
consumption_window_holds WindowKind.weekly anchor active t known h s =
    let (n, e, from, until) = weekly_window_at-covers anchor t h (s refl) in
    let start = anchor + n * weekly_duration in
    (
      record { start = start; end = start + weekly_duration },
      is_none (find_starting_at active WindowKind.weekly start),
      rw e refl,
      from,
      until,
    )
consumption_window_holds WindowKind.monthly anchor active t known h s =
    let (k, e, from, until) = monthly_window_at-covers anchor t h in
    let start = add_months_clamped anchor k in
    (
      record { start = start; end = add_months_clamped anchor (k + 1) },
      is_none (find_starting_at active WindowKind.monthly start),
      rw e refl,
      from,
      until,
    )
consumption_window_holds WindowKind.unknown_kind anchor active t known h s = absurd (known refl)

-- A weekly or monthly period is the same at every instant that it holds.
weekly_stable :
    (a t u : Time) {iv : Interval} {n : ℤ}
    → a ≤ t
    → t - a ≤ max_int64
    → u - a ≤ max_int64
    → weekly_window_at a t ≡ ok (iv, n)
    → iv.start ≤ u
    → u < iv.end
    → weekly_window_at a u ≡ ok (iv, n)
weekly_stable a t u h st su e from until =
    let (i, et, lt, gt) = weekly_window_at-covers a t h st in
    let (j, eu, lu, gu) = weekly_window_at-covers a u (ground (arith, et)) su in
    let same : i ≡ j = ground (arith, et, weekly_period_unique a u i j) in ground (arith, et, eu)

monthly_stable :
    (a t u : Time) {iv : Interval} {n : ℤ}
    → a ≤ t
    → monthly_window_at a t ≡ ok (iv, n)
    → iv.start ≤ u
    → u < iv.end
    → monthly_window_at a u ≡ ok (iv, n)
monthly_stable a t u h e from until =
    let (i, et, lt, gt) = monthly_window_at-covers a t h in
    let (j, eu, lu, gu) =
      monthly_window_at-covers a u (ground (arith, et, add_months_clamped_after a i)) in
    let same : i ≡ j = ground (arith, et, monthly_period_unique a u i j) in ground (arith, et, eu)

-- Once the row of a window that a consumption opened, at or after the anchor, is stored in front of
-- the rows, every consumption inside its interval binds to that interval and opens no other, within
-- the 292 years that a duration spans.
pub consumption_window_reuses :
    (kind : WindowKind) (anchor : Time) (active : List QuotaWindow) (t u : Time) (w : QuotaWindow)
    → anchor ≤ t
    → t - anchor ≤ max_int64
    → u - anchor ≤ max_int64
    → consumption_window kind anchor active t ≡ ok (interval_of w, true)
    → w.kind ≡ kind
    → w.voided ≡ false
    → w.start ≤ u
    → u < w.end
    → consumption_window kind anchor (w ∷ active) u ≡ ok (interval_of w, false)
unfolding consumption_window
consumption_window_reuses WindowKind.five_hour anchor active t u w a st su h k v from until =
    ground arith
consumption_window_reuses WindowKind.weekly anchor active t u w a st su h k v from until =
    elim (Result-cases (weekly_window_at anchor t)) [
      | inl ((iv, n), e) ↦
          let same : iv ≡ interval_of w = ground (arith, e) in
          let stable : weekly_window_at anchor u ≡ ok (iv, n) =
            weekly_stable anchor t u a st su e (ground (arith, same)) (ground (arith, same)) in
          rw stable (ground (arith, same))
      | inr (x, e) ↦ ground (arith, e)
    ]
consumption_window_reuses WindowKind.monthly anchor active t u w a st su h k v from until =
    elim (Result-cases (monthly_window_at anchor t)) [
      | inl ((iv, n), e) ↦
          let same : iv ≡ interval_of w = ground (arith, e) in
          let stable : monthly_window_at anchor u ≡ ok (iv, n) =
            monthly_stable anchor t u a e (ground (arith, same)) (ground (arith, same)) in
          rw stable (ground (arith, same))
      | inr (x, e) ↦ ground (arith, e)
    ]
consumption_window_reuses WindowKind.unknown_kind anchor active t u w a st su h k v from until = cc

-- Where both are returned, the view of a window that is not disabled agrees with the window that a
-- consumption would bind to: it shows the same interval and awaits no consumption; or it is a five-
-- hour window that a consumption would have to open, which is shown as awaiting one, without an
-- interval.
pub read_window_agrees :
    (kind : WindowKind) (anchor : Time) (limit : ℤ) (active : List QuotaWindow) (t : Time)
    {iv : Interval} {activate : Bool} {v : WindowView}
    → consumption_window kind anchor active t ≡ ok (iv, activate)
    → read_window kind anchor (some limit) active t ≡ ok v
    → ((v.window_start ≡ some iv.start)
        × (v.resets_at ≡ some iv.end)
        × (v.awaits_consumption ≡ false))
      ⊎ ((kind ≡ WindowKind.five_hour)
          × (activate ≡ true)
          × (v.window_start ≡ none)
          × (v.resets_at ≡ none)
          × (v.awaits_consumption ≡ true))
unfolding consumption_window read_window
read_window_agrees WindowKind.five_hour anchor limit active t h e = ground arith
read_window_agrees WindowKind.weekly anchor limit active t h e = ground arith
read_window_agrees WindowKind.monthly anchor limit active t h e = ground arith
read_window_agrees WindowKind.unknown_kind anchor limit active t h e = cc
