-- ===== src/Store/Quota/Examples.antt =====
-- internal/inference/postgres: the theorems on the quota transactions at a concrete database.
use yunhou_users.Common.{
  ℕ, ◌+◌, ◌≡◌, ◌≢◌, refl, true, false, Option, none, some, [], ◌∷◌, pos, ◌+ℤ◌, ◌-ℤ◌, All, arith,
}
use yunhou_users.Domain.Errors.{WindowKind, Result, ok, err}
use yunhou_users.Domain.Usage.{RequestStatus, UsageSource, ReservationTargetKind}
use yunhou_users.Store.Table.{update_row}
use yunhou_users.Store.Quota.{
  ChargeSource, Request, JobReason, Db, lock_account, sort_by, held_on, move_reservation,
}
use yunhou_users.Store.Quota.Hold.{hold_window, apply_hold, apply_holds}
use yunhou_users.Store.Quota.Reserve.{
  ReserveCommand, insert_request, insert_reservation, insert_reservations, persist, reserve,
}
use yunhou_users.Store.Quota.Release.{update_request_status, release}
use yunhou_users.Store.Quota.Ledger.{
  SettleCommand, insert_usage_record, append_charge, record_cost, finish,
}
use yunhou_users.Store.Quota.Settle.{convert_window, settle_all, settle_plan, settle}
use yunhou_users.Store.Quota.Mark.{mark_reconciliation_required}
use yunhou_users.Store.Quota.Loops.{IsConsistent}
use yunhou_users.Store.Quota.Admission.{reserve-IsWithin}
use yunhou_users.Store.Quota.Admitted.{IsWithin}
use yunhou_users.Store.Quota.Steps.{
  reserves, settles, Reach, here, then_step, marks_status, request_with, Reach-IsConsistent,
}
use yunhou_users.Store.Quota.Final.{final_once}
use yunhou_users.Store.Quota.Phases.{Lives, phase, Reach-refines}

-- Account 1 with the five-hour window 1, and the attempt 9.
abbrev initial : Db
initial = record {
  accounts = record { id = 1; active = true } ∷ [];
  windows =
      record {
        id = 1;
        entitlement_id = 1;
        kind = WindowKind.five_hour;
        start = 0;
        end = 100;
        limit = pos 1000;
        used = pos 100;
        reserved_micros = pos 0;
        voided = false;
      }
      ∷ [];
  keys = [];
  requests = [];
  reservations = [];
  usage_records = [];
  ledger = [];
  jobs = [];
  attempts = record { id = 9; cost = none } ∷ [];
  wallets = [];
  wallet_holds = [];
  wallet_entries = [];
  adjustments = [];
  wallet_audits = [];
}

abbrev get : Result Db → Db
get (ok db) = db
get (err e) = initial

abbrev admission_command : ReserveCommand
admission_command = record {
  request = record {
    id = 7;
    billing_account_id = 1;
    status = RequestStatus.authenticated;
    admitted_at = none;
    price_version_id = none;
    window_five_hour_id = none;
    window_weekly_id = none;
    window_monthly_id = none;
    reserved_micros = none;
    settled_micros = none;
    charge_source = ChargeSource.plan;
    usage_status = UsageSource.pending;
    completed_at = none;
  };
  holds =
      record {
        target_kind = ReservationTargetKind.window_five_hour;
        window_id = some 1;
        api_key_id = none;
        amount = pos 300;
      }
      ∷ [];
  admitted_at = 5;
}

abbrev settlement : SettleCommand
settlement = record {
  request_id = 7;
  usage = record {
    request_id = 7;
    attempt_id = 9;
    source = UsageSource.reported;
    buckets = record {
      input_tokens = some (pos 10);
      cache_read_tokens = none;
      cache_write_tokens = none;
      output_tokens = some (pos 4);
      reasoning_tokens = none;
    };
    revision = 0;
  };
  charge_micros = pos 200;
  wallet_charge = none;
  attempt_id = none;
  attempt_cost = none;
  cost_basis = none;
  settled_at = 8;
  now = 8;
}

abbrev uuids : ℕ → ℕ
uuids n = 40 + n

abbrev held_db : Db
held_db = get (reserve uuids (ok tt) admission_command initial)

-- The request is marked as dispatched before it is settled.
abbrev dispatched_db : Db
dispatched_db = get (update_request_status 7 RequestStatus.dispatching held_db)

abbrev settled_db : Db
settled_db = get (settle settlement dispatched_db)

-- Another request is admitted and marked after that.
abbrev later_command : ReserveCommand
later_command = record admission_command { request = record admission_command.request { id = 8 } }

abbrev later_uuids : ℕ → ℕ
later_uuids n = 60 + n

abbrev later_db : Db
later_db = get (reserve later_uuids (ok tt) later_command settled_db)

abbrev last_db : Db
last_db = get (update_request_status 8 RequestStatus.streaming later_db)

admits_it : reserve uuids (ok tt) admission_command initial ≡ ok held_db
unfolding reserve lock_account sort_by apply_holds apply_hold hold_window update_row persist
    insert_request insert_reservations insert_reservation ◌+ℤ◌
admits_it = refl

settles_it : settle settlement dispatched_db ≡ ok settled_db
unfolding settle settle_plan insert_usage_record append_charge settle_all convert_window
    move_reservation record_cost finish update_row update_request_status sort_by reserve
    lock_account apply_holds apply_hold hold_window persist insert_request insert_reservations
    insert_reservation ◌+ℤ◌ ◌-ℤ◌
settles_it = refl

marks_it : update_request_status 7 RequestStatus.dispatching held_db ≡ ok dispatched_db
unfolding settle settle_plan insert_usage_record append_charge settle_all convert_window
    move_reservation record_cost finish update_row update_request_status sort_by reserve
    lock_account apply_holds apply_hold hold_window persist insert_request insert_reservations
    insert_reservation ◌+ℤ◌ ◌-ℤ◌
marks_it = refl

admits_later : reserve later_uuids (ok tt) later_command settled_db ≡ ok later_db
unfolding settle settle_plan insert_usage_record append_charge settle_all convert_window
    move_reservation record_cost finish update_row update_request_status sort_by reserve
    lock_account apply_holds apply_hold hold_window persist insert_request insert_reservations
    insert_reservation ◌+ℤ◌ ◌-ℤ◌
admits_later = refl

marks_later : update_request_status 8 RequestStatus.streaming later_db ≡ ok last_db
unfolding settle settle_plan insert_usage_record append_charge settle_all convert_window
    move_reservation record_cost finish update_row update_request_status sort_by reserve
    lock_account apply_holds apply_hold hold_window persist insert_request insert_reservations
    insert_reservation ◌+ℤ◌ ◌-ℤ◌
marks_later = refl

initial-IsConsistent : IsConsistent initial
unfolding held_on
initial-IsConsistent = record { balanced = (refl, tt, tt); distinct = tt; sound = tt }

abbrev all_steps : Reach initial settled_db
all_steps =
    then_step
      (then_step (then_step here (reserves uuids (ok tt) admission_command admits_it))
        (marks_status 7 RequestStatus.dispatching marks_it))
      (settles settlement settles_it)

abbrev later_steps : Reach settled_db last_db
later_steps =
    then_step (then_step here (reserves later_uuids (ok tt) later_command admits_later))
      (marks_status 8 RequestStatus.streaming marks_later)

reserve-IsWithin_example : All IsWithin held_db.windows
unfolding ◌+ℤ◌
reserve-IsWithin_example =
    reserve-IsWithin uuids (ok tt) admission_command initial admits_it (ground arith, tt)

Reach-IsConsistent_example : IsConsistent settled_db
Reach-IsConsistent_example = Reach-IsConsistent initial all_steps initial-IsConsistent

Reach-refines_example : Lives (phase 7 initial) (phase 7 settled_db)
unfolding settle settle_plan insert_usage_record append_charge settle_all convert_window
    move_reservation record_cost finish update_row update_request_status sort_by reserve
    lock_account apply_holds apply_hold hold_window persist insert_request insert_reservations
    insert_reservation ◌+ℤ◌ ◌-ℤ◌
Reach-refines_example =
    Reach-refines 7 initial all_steps (((tt, tt), (refl, refl)), tt) initial-IsConsistent

abbrev row_of : Option Request → Request
row_of none = admission_command.request
row_of (some r) = r

final_once_example :
    (request_with 7 last_db ≡ some (row_of (request_with 7 settled_db)))
    × (settle settlement last_db ≢ ok initial)
    × (release false 7 last_db ≢ ok initial)
    × (mark_reconciliation_required 7 JobReason.manual 50 last_db ≡ ok last_db)
unfolding settle settle_plan insert_usage_record append_charge settle_all convert_window
    move_reservation record_cost finish update_row update_request_status sort_by reserve
    lock_account apply_holds apply_hold hold_window persist insert_request insert_reservations
    insert_reservation ◌+ℤ◌ ◌-ℤ◌
final_once_example =
    final_once 7 settlement false JobReason.manual 50 settled_db
      (row_of (request_with 7 settled_db)) later_steps ((tt, tt), (refl, refl))
      Reach-IsConsistent_example refl refl refl
