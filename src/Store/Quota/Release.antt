-- ===== src/Store/Quota/Release.antt =====
-- internal/inference/postgres/reservation_repo.go: the release of a request's reservations, and the window
-- that is voided behind it.
use yunhou_users.Common.{
  ℕ, Bool, true, false, not, ◌||◌, ◌&&◌, Option, none, some, List, [], ◌∷◌, ℤ, pos, ◌-ℤ◌, leb_ℤ,
  eqb_ℤ, if◌then◌else◌, ◌==◌,
}
use yunhou_users.Domain.Errors.{Code, new_error, Result, ok, ◌>>=◌, ◌>>◌, fail_if}
use yunhou_users.Domain.Usage.{RequestStatus, QuotaWindow, ReservationState, ReservationTargetKind}
use yunhou_users.Store.Table.{
  any, map_where, find_where, update_row, update_where, db_error, or_error,
}
use yunhou_users.Store.Quota.{
  Reservation, JobStatus, Db, lock_account, is_held, names, deref, load_held, move_reservation,
}

-- settled or released
abbrev pub is_final : RequestStatus → Bool
is_final RequestStatus.settled = true
is_final RequestStatus.released = true
is_final _ = false

abbrev pub is_parked : RequestStatus → Bool
is_parked RequestStatus.reconciliation_required = true
is_parked _ = false

abbrev pub no_rows : List Reservation → Bool
no_rows [] = true
no_rows (r ∷ rs) = false

abbrev pub is_open : JobStatus → Bool
is_open JobStatus.pending = true
is_open JobStatus.running = true
is_open _ = false

-- `releaseWalletLocked`
unfoldable pub release_wallet : ℕ → Db → Result Db
release_wallet request_id db = do
  holds ←
      or_error
        (update_where (λ h. h.request_id == request_id && is_held h.state)
          (λ h. record h { state = ReservationState.released_state }) db.wallet_holds)
        (new_error Code.conflict)
  ok (record db { wallet_holds = holds })

unfoldable pub give_back_key : ℕ → ℤ → Db → Result Db
unfolding update_row
give_back_key key amount db = do
  keys ←
      or_error
        (update_row (λ k. k.id == key) (λ k. leb_ℤ amount k.budget_used)
          (λ k. record k { budget_used = k.budget_used -ℤ amount }) db.keys)
        (new_error Code.conflict)
  ok (record db { keys = keys })

abbrev pub put_back : ℤ → QuotaWindow → QuotaWindow
put_back amount w = record w { reserved_micros = w.reserved_micros -ℤ amount }

unfoldable pub give_back_window : ℕ → ℤ → Db → Result Db
unfolding update_row
give_back_window window amount db = do
  windows ←
      or_error
        (update_row (λ w. w.id == window) (λ w. leb_ℤ amount w.reserved_micros) (put_back amount)
          db.windows)
        (new_error Code.conflict)
  ok (record db { windows = windows })

-- The switch over the target.
abbrev pub release_target : ReservationTargetKind → ℕ → Reservation → Db → Result Db
release_target ReservationTargetKind.key_budget request_id r db =
    deref r.api_key_id >>= λ key. give_back_key key r.amount db
release_target ReservationTargetKind.wallet request_id r db = release_wallet request_id db
release_target kind request_id r db =
    deref r.window_id >>= λ window. give_back_window window r.amount db

-- The loop over the held reservations.
unfoldable pub release_all : ℕ → List Reservation → Db → Result Db
unfolding release_wallet give_back_key give_back_window move_reservation
release_all request_id [] db = ok db
release_all request_id (r ∷ rs) db =
    release_target r.target_kind request_id r db
    >>= move_reservation r.id ReservationState.released_state
    >>= release_all request_id rs

-- The five-hour window of the last such reservation.
abbrev pub or_five_hour : ReservationTargetKind → Option ℕ → Option ℕ → Option ℕ
or_five_hour ReservationTargetKind.window_five_hour window none = window
or_five_hour _ window later = later

abbrev pub five_hour_window : List Reservation → Option ℕ
five_hour_window [] = none
five_hour_window (r ∷ rs) = or_five_hour r.target_kind r.window_id (five_hour_window rs)

abbrev pub is_untouched : QuotaWindow → Bool
is_untouched w = not w.voided && eqb_ℤ w.used (pos 0) && eqb_ℤ w.reserved_micros (pos 0)

-- The tests of the row and of the count of held reservations, then the guarded UPDATE.
abbrev pub void_row : ℕ → Db → QuotaWindow → Db
void_row window db w =
    if not (is_untouched w)
      || any (λ r. names r.window_id window && is_held r.state) db.reservations
    then db
    else record db {
      windows =
          map_where (λ v. v.id == window && is_untouched v) (λ v. record v { voided = true })
            db.windows;
    }

-- `voidUnusedFiveHourWindow`
unfoldable pub void_unused : ℕ → Db → Result Db
void_unused window db = do
  w ← or_error (find_where (λ v. v.id == window) db.windows) (db_error Code.not_found)
  ok (void_row window db w)

abbrev pub void_if : Option ℕ → Db → Result Db
void_if none db = ok db
void_if (some window) db = void_unused window db

abbrev pub resolve_job : Bool → ℕ → Db → Db
resolve_job false request_id db = db
resolve_job true request_id db = record db {
  jobs =
      map_where (λ j. j.request_id == request_id && is_open j.status)
        (λ j. record j { status = JobStatus.resolved }) db.jobs;
}

-- `UpdateRequestStatus`: the status of the row, whatever it was. The last error is left out.
unfoldable pub update_request_status : ℕ → RequestStatus → Db → Result Db
unfolding update_row
update_request_status id status db = do
  requests ←
      or_error
        (update_row (λ r. r.id == id) (λ r. true) (λ r. record r { status = status }) db.requests)
        (db_error Code.not_found)
  ok (record db { requests = requests })

-- The tests of the request's status; the flag is `fromReconciliation`.
abbrev pub releasable : Bool → RequestStatus → Result (Unit {0})
releasable from_reconciliation status =
    fail_if (is_final status || (is_parked status && not from_reconciliation))
      (new_error Code.conflict)

-- `releaseLocked`: `Release` with false, `ReleaseFromReconciliation` with true.
unfoldable pub release : Bool → ℕ → Db → Result Db
unfolding lock_account release_all void_unused update_request_status
release from_reconciliation request_id db = do
  req ← or_error (find_where (λ r. r.id == request_id) db.requests) (db_error Code.not_found)
  lock_account req.billing_account_id db
  releasable from_reconciliation req.status
  let rows = load_held request_id db.reservations
  fail_if (no_rows rows) (new_error Code.conflict)
  db1 ← release_all request_id rows db
  db2 ← void_if (five_hour_window rows) db1
  update_request_status request_id RequestStatus.released
      (resolve_job from_reconciliation request_id db2)
