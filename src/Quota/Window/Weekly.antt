-- ===== src/Quota/Window/Weekly.antt =====
-- internal/inference/quota/window.go: the weekly periods, of 7 times 24 hours from the anchor on.
use yunhou_users.Common.{
  ℕ, ◌+◌, ◌-◌, ◌*◌, ◌/◌, ◌≤◌, ◌<◌, min, ◌≡◌, pos, max_int64, arith, wrap64, wrap64_id,
}
use yunhou_users.Domain.Errors.{Time, ok}
use yunhou_users.Quota.Window.{weekly_duration, weekly_window_at}

-- From the anchor on, and as long as the time since the anchor is a duration (292 years), the
-- result is the period that begins a whole number of weeks after the anchor and holds the instant.
pub weekly_window_at-covers :
    (a t : Time)
    → a ≤ t
    → t - a ≤ max_int64
    → (n : ℕ) × (weekly_window_at a t
        ≡ ok (
          record {
            start = a + n * weekly_duration;
            end = a + n * weekly_duration + weekly_duration;
          },
          pos n,
        ))
      × (a + n * weekly_duration ≤ t)
      × (t < a + n * weekly_duration + weekly_duration)
unfolding weekly_window_at
weekly_window_at-covers a t h small =
    let n = (t - a) / weekly_duration in
    let e : min (t - a) max_int64 ≡ t - a = omega arith in
    let w : wrap64 (pos (n * weekly_duration)) ≡ pos (n * weekly_duration) =
      wrap64_id (pos (n * weekly_duration)) (omega arith) in
    (n, ground (arith, e, w), omega arith, omega arith)

-- No instant lies in two weekly periods of one anchor.
pub weekly_period_unique :
    (a t n k : ℕ)
    → a + n * weekly_duration ≤ t
    → t < a + n * weekly_duration + weekly_duration
    → a + k * weekly_duration ≤ t
    → t < a + k * weekly_duration + weekly_duration
    → n ≡ k
weekly_period_unique a t n k hn gn hk gk = omega arith
