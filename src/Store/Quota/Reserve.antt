-- ===== src/Store/Quota/Reserve.antt =====
-- internal/inference/postgres/quota_repo.go: `Reserve`. The holds are taken in the fixed order, and the request
-- and the reservations are inserted if none of them was blocked.
use yunhou_users.Common.{
  ℕ, suc, Bool, true, false, not, ◌&&◌, Option, none, some, List, [], ◌∷◌, ℤ, pos, ltb_ℤ,
  if◌then◌else◌, ◌==◌,
}
use yunhou_users.Domain.Errors.{
  Time, Code, quota_exceeded_error, Result, ok, err, ◌>>=◌, ◌>>◌, fail_if,
}
use yunhou_users.Domain.Usage.{RequestStatus, ReservationState, ReservationTargetKind, HoldSpec}
use yunhou_users.Store.Table.{any, db_error}
use yunhou_users.Store.Quota.{Reservation, Request, Db, lock_account, sort_by, refs_ok}
use yunhou_users.Store.Quota.Hold.{Holding, apply_holds, is_clear}

pub record ReserveCommand : Type 0 where
  pub request : Request
  pub holds : List HoldSpec
  pub admitted_at : Time

abbrev pub bind_window : ReservationTargetKind → Option ℕ → Request → Request
bind_window ReservationTargetKind.window_five_hour w r = record r { window_five_hour_id = w }
bind_window ReservationTargetKind.window_weekly w r = record r { window_weekly_id = w }
bind_window ReservationTargetKind.window_monthly w r = record r { window_monthly_id = w }
bind_window _ w r = r

abbrev pub bind_windows : List HoldSpec → Request → Request
bind_windows [] r = r
bind_windows (h ∷ hs) r = bind_windows hs (bind_window h.target_kind h.window_id r)

-- The row of the request.
abbrev pub request_row : ReserveCommand → List HoldSpec → ℤ → Request
request_row cmd holds amount = bind_windows holds (record cmd.request {
  status = RequestStatus.reserved;
  admitted_at = some cmd.admitted_at;
  reserved_micros = some amount;
})

-- `insertRequest`; the first argument is what the columns outside the model answer: the references to
-- other tables and the encoding of the extra bounds.
unfoldable pub insert_request : Result (Unit {0}) → Request → List Request → Result (List Request)
insert_request others r rs = do
  fail_if (any (λ q. q.id == r.id) rs) (db_error Code.conflict)
  others
  ok (r ∷ rs)

abbrev target_eqb : ReservationTargetKind → ReservationTargetKind → Bool
target_eqb ReservationTargetKind.window_five_hour ReservationTargetKind.window_five_hour = true
target_eqb ReservationTargetKind.window_weekly ReservationTargetKind.window_weekly = true
target_eqb ReservationTargetKind.window_monthly ReservationTargetKind.window_monthly = true
target_eqb ReservationTargetKind.key_budget ReservationTargetKind.key_budget = true
target_eqb ReservationTargetKind.wallet ReservationTargetKind.wallet = true
target_eqb ReservationTargetKind.unknown_target ReservationTargetKind.unknown_target = true
target_eqb _ _ = false

abbrev pub reservation_of : ℕ → ℕ → HoldSpec → Reservation
reservation_of id request_id h = record {
  id = id;
  request_id = request_id;
  target_kind = h.target_kind;
  window_id = h.window_id;
  api_key_id = h.api_key_id;
  amount = h.amount;
  state = ReservationState.held;
}

-- INSERT INTO inference_reservations: the CHECK on the references, the primary key and UNIQUE
-- (request_id, target_kind). The amount is not negative, and the referenced rows have just been updated.
unfoldable pub insert_reservation : Reservation → List Reservation → Result (List Reservation)
insert_reservation r rs = do
  fail_if (not (refs_ok r.target_kind r.window_id r.api_key_id)) (db_error Code.invalid_input)
  fail_if (any (λ q. q.id == r.id) rs) (db_error Code.conflict)
  fail_if (any (λ q. q.request_id == r.request_id && target_eqb q.target_kind r.target_kind) rs)
      (db_error Code.conflict)
  ok (r ∷ rs)

-- The second loop; `uuid` numbers the texts of `uuid.NewString`.
unfoldable pub insert_reservations :
    (ℕ → ℕ) → ℕ → ℕ → List HoldSpec → List Reservation → Result (List Reservation)
unfolding insert_reservation
insert_reservations uuid n request_id [] rs = ok rs
insert_reservations uuid n request_id (h ∷ hs) rs =
    insert_reservation (reservation_of (uuid n) request_id h) rs
    >>= insert_reservations uuid (suc n) request_id hs

abbrev pub starting : Db → Holding
starting db = record {
  windows = db.windows;
  keys = db.keys;
  blocked = [];
  key_blocked = false;
  deficit = pos 0;
  reserved_amount = pos 0;
}

-- What follows the first loop.
unfoldable pub persist :
    (ℕ → ℕ) → Result (Unit {0}) → ReserveCommand → List HoldSpec → Db → Holding → Result Db
unfolding insert_request insert_reservations
persist uuid others cmd holds db s = do
  fail_if (not (is_clear s)) (quota_exceeded_error s.blocked s.key_blocked)
  requests ← insert_request others (request_row cmd holds s.reserved_amount) db.requests
  rs ← insert_reservations uuid 0 cmd.request.id holds db.reservations
  ok (record db { windows = s.windows; keys = s.keys; requests = requests; reservations = rs })

unfoldable pub reserve : (ℕ → ℕ) → Result (Unit {0}) → ReserveCommand → Db → Result Db
unfolding lock_account sort_by apply_holds persist
reserve uuid others cmd db = do
  lock_account cmd.request.billing_account_id db
  let holds = sort_by (λ h. h.target_kind) cmd.holds
  s ← apply_holds holds (starting db)
  persist uuid others cmd holds db s

-- `DeficitMicros` of the refusal: none unless it is positive.
unfoldable pub deficit_of : ReserveCommand → Db → Option ℤ
unfolding sort_by apply_holds
deficit_of cmd db = elim (apply_holds (sort_by (λ h. h.target_kind) cmd.holds) (starting db)) [
  | err e ↦ none
  | ok s ↦ if ltb_ℤ (pos 0) s.deficit then some s.deficit else none
]
