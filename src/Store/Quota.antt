-- ===== src/Store/Quota.antt =====
-- internal/inference/postgres: the tables of the quota transactions, quota_repo.go, reservation_repo.go and
-- ledger_repo.go. Every operation is one transaction: its result is the new database, or an error after
-- which the caller rolls back. The row locks, taken in a fixed order, make the transactions steps.
pub mod Hold
pub mod Reserve
pub mod Release
pub mod Ledger
pub mod WalletSettle
pub mod Settle
pub mod Mark
pub mod Activate
pub mod Balance
pub mod Loops
pub mod Converted
pub mod Admitted
pub mod Admission
pub mod Activated
pub mod Consistency
pub mod Frames
pub mod Outcomes
pub mod Settled
pub mod Steps
pub mod Final
pub mod Phases
mod Examples
use yunhou_users.Common.{
  ℕ, Bool, true, false, Option, none, some, List, ℤ, pos, ◌+ℤ◌, if◌then◌else◌, ◌==◌, [], ◌∷◌, ◌&&◌,
  leb, keep,
}
use yunhou_users.Domain.Errors.{Time, Code, Sentinel, sentinel, new_error, Result, ok, err, ◌>>=◌}
use yunhou_users.Domain.Money.{Money}
use yunhou_users.Domain.Usage.{
  RequestStatus, UsageSource, UsageRecord, QuotaWindow, ReservationState, ReservationTargetKind,
  LedgerEntryType,
}
use yunhou_users.Store.Wallet.{WalletRow, WalletHold, WalletEntry, Adjustment, WalletAudit}
use yunhou_users.Store.Table.{find_where, update_row, db_error, or_error}

pub data ChargeSource : Type 0 where
  plan wallet : ChargeSource

pub record KeyRow : Type 0 where
  pub id : ℕ
  pub budget_limit : Option ℤ
  pub budget_used : ℤ

pub record AccountRow : Type 0 where
  pub id : ℕ
  pub active : Bool

pub record Reservation : Type 0 where
  pub id : ℕ
  pub request_id : ℕ
  pub target_kind : ReservationTargetKind
  pub window_id : Option ℕ
  pub api_key_id : Option ℕ
  pub amount : ℤ
  pub state : ReservationState

-- The columns of a request that the transactions read or write.
pub record Request : Type 0 where
  pub id : ℕ
  pub billing_account_id : ℕ
  pub status : RequestStatus
  pub admitted_at : Option Time
  pub price_version_id : Option ℕ
  pub window_five_hour_id : Option ℕ
  pub window_weekly_id : Option ℕ
  pub window_monthly_id : Option ℕ
  pub reserved_micros : Option ℤ
  pub settled_micros : Option ℤ
  pub charge_source : ChargeSource
  pub usage_status : UsageSource
  pub completed_at : Option Time

-- A currency for an amount of money, none for microcredits.
pub record LedgerEntry : Type 0 where
  pub billing_account_id : ℕ
  pub request_id : ℕ
  pub entry_type : LedgerEntryType
  pub amount_micros : ℤ
  pub currency : Option (List ℕ)
  pub price_version_id : Option ℕ

pub data CostBasis : Type 0 where
  reported estimated allocated : CostBasis

pub record AttemptRow : Type 0 where
  pub id : ℕ
  pub cost : Option (Money × CostBasis)

pub data JobStatus : Type 0 where
  pending running resolved escalated : JobStatus

pub data JobReason : Type 0 where
  unknown_usage crash_recovery ledger_mismatch manual settlement_overage : JobReason
  -- any other text
  other_reason : JobReason

-- A request's reconciliation job.
pub record ReconciliationJob : Type 0 where
  pub request_id : ℕ
  pub reason : JobReason
  pub status : JobStatus
  pub deadline_at : Time

pub record Db : Type 0 where
  pub accounts : List AccountRow
  pub windows : List QuotaWindow
  pub keys : List KeyRow
  pub requests : List Request
  pub reservations : List Reservation
  pub usage_records : List UsageRecord
  pub ledger : List LedgerEntry
  pub jobs : List ReconciliationJob
  pub attempts : List AttemptRow
  pub wallets : List WalletRow
  pub wallet_holds : List WalletHold
  pub wallet_entries : List WalletEntry
  pub adjustments : List Adjustment
  pub wallet_audits : List WalletAudit

abbrev account_active : Option AccountRow → Result (Unit {0})
account_active none = err (db_error Code.not_found)
account_active (some a) = if a.active then ok tt else err (new_error Code.invalid_key)

-- `lockAccountTx`
unfoldable pub lock_account : ℕ → Db → Result (Unit {0})
lock_account id db = account_active (find_where (λ a. a.id == id) db.accounts)

-- `windowOrderKey`
abbrev pub window_order_key : ReservationTargetKind → ℕ
window_order_key ReservationTargetKind.window_five_hour = 0
window_order_key ReservationTargetKind.window_weekly = 1
window_order_key ReservationTargetKind.window_monthly = 2
window_order_key ReservationTargetKind.key_budget = 3
window_order_key ReservationTargetKind.wallet = 4
window_order_key ReservationTargetKind.unknown_target = 9

-- The rows of a query in the fixed lock order, `sort.SliceStable` by `windowOrderKey`.
abbrev pub insert_by {ℓ} : {A : Type ℓ} → (A → ReservationTargetKind) → A → List A → List A
insert_by kind x [] = x ∷ []
insert_by kind x (y ∷ ys) =
    let rest = insert_by kind x ys in
    if leb (window_order_key (kind x)) (window_order_key (kind y)) then x ∷ y ∷ ys else y ∷ rest

unfoldable pub sort_by {ℓ} : {A : Type ℓ} → (A → ReservationTargetKind) → List A → List A
sort_by kind [] = []
sort_by kind (x ∷ xs) = insert_by kind x (sort_by kind xs)

abbrev pub is_held : ReservationState → Bool
is_held ReservationState.held = true
is_held _ = false

abbrev pub names : Option ℕ → ℕ → Bool
names none id = false
names (some i) id = i == id

-- What a reservation holds of the window.
abbrev pub share : ℕ → Reservation → ℤ
share wid r = if is_held r.state && names r.window_id wid then r.amount else pos 0

-- The sum of the amounts that are held of a window.
unfoldable pub held_on : List Reservation → ℕ → ℤ
held_on [] wid = pos 0
held_on (r ∷ rs) wid = share wid r +ℤ held_on rs wid

-- The references of a reservation, CHECK inference_reservations_target_refs_check.
abbrev pub refs_ok : ReservationTargetKind → Option ℕ → Option ℕ → Bool
refs_ok ReservationTargetKind.key_budget none (some key) = true
refs_ok ReservationTargetKind.wallet none none = true
refs_ok ReservationTargetKind.window_five_hour (some window) none = true
refs_ok ReservationTargetKind.window_weekly (some window) none = true
refs_ok ReservationTargetKind.window_monthly (some window) none = true
refs_ok _ _ _ = false

-- A pointer that is read without a test; that of a row is never nil there, by the CHECK on the references.
abbrev pub deref : Option ℕ → Result ℕ
deref o = or_error o (sentinel Sentinel.foreign)

-- `loadHeldReservations`
abbrev pub load_held : ℕ → List Reservation → List Reservation
load_held request_id rs =
    sort_by (λ r. r.target_kind) (keep (λ r. r.request_id == request_id && is_held r.state) rs)

-- The transition of a reservation, guarded by state = 'held'.
unfoldable pub move_reservation : ℕ → ReservationState → Db → Result Db
unfolding update_row
move_reservation id state db = do
  rs ←
      or_error
        (update_row (λ r. r.id == id) (λ r. is_held r.state) (λ r. record r { state = state })
          db.reservations)
        (new_error Code.conflict)
  ok (record db { reservations = rs })
