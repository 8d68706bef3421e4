-- ===== src/Store/Quota/Settle.antt =====
-- internal/inference/postgres/ledger_repo.go: `Settle`, of a plan request and of any request.
use yunhou_users.Common.{
  ℕ, Bool, true, not, ◌||◌, ◌&&◌, Option, none, some, List, [], ◌∷◌, ℤ, pos, ◌+ℤ◌, ◌-ℤ◌, leb_ℤ,
  ltb_ℤ, ◌==◌,
}
use yunhou_users.Domain.Errors.{
  Code, Sentinel, sentinel, new_error, wrap_error, Result, ok, ◌>>=◌, ◌>>◌, fail_if,
}
use yunhou_users.Domain.Usage.{QuotaWindow, ReservationState, ReservationTargetKind}
use yunhou_users.Store.Table.{find_where, update_row, db_error, or_error, is_bigint, in_range}
use yunhou_users.Store.Quota.{
  ChargeSource, KeyRow, Reservation, Request, Db, deref, load_held, move_reservation,
}
use yunhou_users.Store.Quota.Release.{is_final, no_rows}
use yunhou_users.Store.Quota.Ledger.{
  SettleCommand, insert_usage_record, append_charge, record_cost, finish,
}
use yunhou_users.Store.Quota.WalletSettle.{settle_wallet}

abbrev corrected_budget : ℤ → ℤ → KeyRow → ℤ
corrected_budget hold charge k = k.budget_used -ℤ hold +ℤ charge

abbrev correction_fits : ℤ → ℤ → Option KeyRow → Bool
correction_fits hold charge none = true
correction_fits hold charge (some k) =
    is_bigint (k.budget_used -ℤ hold) && is_bigint (corrected_budget hold charge k)

unfoldable pub correct_key : ℕ → ℤ → ℤ → Db → Result Db
unfolding update_row
correct_key key hold charge db =
    in_range (correction_fits hold charge (find_where (λ k. k.id == key) db.keys)) (do
      keys ←
          or_error
            (update_row (λ k. k.id == key) (λ k. leb_ℤ (pos 0) (corrected_budget hold charge k))
              (λ k. record k { budget_used = corrected_budget hold charge k }) db.keys)
            (new_error Code.conflict)
      ok (record db { keys = keys }))

abbrev covers : ℤ → QuotaWindow → Bool
covers hold w = not w.voided && leb_ℤ hold w.reserved_micros

abbrev pub convert : ℤ → ℤ → QuotaWindow → QuotaWindow
convert hold charge w = record w {
  reserved_micros = w.reserved_micros -ℤ hold;
  used = w.used +ℤ charge;
}

abbrev conversion_fits : ℤ → ℤ → Option QuotaWindow → Bool
conversion_fits hold charge none = true
conversion_fits hold charge (some w) = not (covers hold w) || is_bigint (w.used +ℤ charge)

unfoldable pub convert_window : ℕ → ℤ → ℤ → Db → Result Db
unfolding update_row
convert_window window hold charge db =
    in_range (conversion_fits hold charge (find_where (λ w. w.id == window) db.windows)) (do
      windows ←
          or_error (update_row (λ w. w.id == window) (covers hold) (convert hold charge) db.windows)
            (new_error Code.conflict)
      ok (record db { windows = windows }))

-- The switch over the target.
abbrev pub settle_target : ReservationTargetKind → ℤ → Reservation → Db → Result Db
settle_target ReservationTargetKind.key_budget charge r db =
    deref r.api_key_id >>= λ key. correct_key key r.amount charge db
settle_target kind charge r db =
    deref r.window_id >>= λ window. convert_window window r.amount charge db

-- The loop over the held reservations.
unfoldable pub settle_all : ℤ → List Reservation → Db → Result Db
unfolding correct_key convert_window move_reservation
settle_all charge [] db = ok db
settle_all charge (r ∷ rs) db =
    settle_target r.target_kind charge r db
    >>= move_reservation r.id ReservationState.settled_state
    >>= settle_all charge rs

-- `Settle` of a plan request, behind the tests.
unfoldable pub settle_plan : SettleCommand → Request → Db → Result Db
unfolding insert_usage_record append_charge settle_all record_cost finish
settle_plan cmd req db = do
  db1 ← insert_usage_record cmd.usage db
  db2 ← append_charge req cmd.charge_micros none db1
  let rows = load_held cmd.request_id db2.reservations
  fail_if (no_rows rows) (new_error Code.conflict)
  db3 ← settle_all cmd.charge_micros rows db2
  db4 ← record_cost cmd db3
  finish cmd cmd.charge_micros db4

abbrev pub by_source : ChargeSource → SettleCommand → Request → Db → Result Db
by_source ChargeSource.wallet cmd req db = settle_wallet cmd req db
by_source ChargeSource.plan cmd req db = settle_plan cmd req db

unfoldable pub settle : SettleCommand → Db → Result Db
unfolding settle_plan settle_wallet
settle cmd db = do
  fail_if (ltb_ℤ cmd.charge_micros (pos 0))
      (wrap_error Code.invalid_input (sentinel Sentinel.negative_value))
  req ← or_error (find_where (λ r. r.id == cmd.request_id) db.requests) (db_error Code.not_found)
  fail_if (is_final req.status) (new_error Code.conflict)
  by_source req.charge_source cmd req db
