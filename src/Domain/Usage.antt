-- ===== src/Domain/Usage.antt =====
-- internal/inference/domain/usage.go: metering facts, quota windows and requests. Identifiers are
-- only compared, so they are numbers; a nil pointer is `none`.
use yunhou_users.Common.{
  ℕ, Option, none, some, List, [], ◌∷◌, Bool, ℤ, pos, add64, sub64, ltb_ℤ, if◌then◌else◌,
}
use yunhou_users.Domain.Errors.{Time, WindowKind}

pub data UsageSource : Type 0 where
  pending reported estimated unknown : UsageSource

pub record UsageBuckets : Type 0 where
  pub input_tokens : Option ℤ
  pub cache_read_tokens : Option ℤ
  pub cache_write_tokens : Option ℤ
  pub output_tokens : Option ℤ
  pub reasoning_tokens : Option ℤ

abbrev add_known : ℤ → Option ℤ → ℤ
add_known total none = total
add_known total (some n) = add64 total n

-- `UsageBuckets.TotalTokens`: the known buckets, added up in order.
unfoldable pub total_tokens : UsageBuckets → ℤ
total_tokens u =
    add_known
      (add_known
        (add_known (add_known (add_known (pos 0) u.input_tokens) u.cache_read_tokens)
          u.cache_write_tokens)
        u.output_tokens)
      u.reasoning_tokens

-- The normalized fact of one attempt; the raw payload and the identifiers carry no rule.
pub record UsageRecord : Type 0 where
  pub request_id : ℕ
  pub attempt_id : ℕ
  pub source : UsageSource
  pub buckets : UsageBuckets
  pub revision : ℕ

pub data RequestStatus : Type 0 where
  authenticated reserved dispatching streaming non_streaming : RequestStatus
  settling settled released reconciliation_required failed : RequestStatus

pub data ReservationState : Type 0 where
  held settled_state released_state : ReservationState

pub data ReservationTargetKind : Type 0 where
  window_five_hour window_weekly window_monthly key_budget wallet : ReservationTargetKind
  -- any other text
  unknown_target : ReservationTargetKind

pub record HoldSpec : Type 0 where
  pub target_kind : ReservationTargetKind
  pub window_id : Option ℕ
  pub api_key_id : Option ℕ
  pub amount : ℤ

-- The fixed lock order.
abbrev pub window_order : List WindowKind
window_order = WindowKind.five_hour ∷ WindowKind.weekly ∷ WindowKind.monthly ∷ []

pub record QuotaWindow : Type 0 where
  pub id : ℕ
  pub entitlement_id : ℕ
  pub kind : WindowKind
  pub start : Time
  pub end : Time
  pub limit : ℤ
  pub used : ℤ
  pub reserved_micros : ℤ
  pub voided : Bool

-- `QuotaWindow.Available`
unfoldable pub available : QuotaWindow → ℤ
available w =
    let avail = sub64 (sub64 w.limit w.used) w.reserved_micros in
    if ltb_ℤ avail (pos 0) then pos 0 else avail

pub data LedgerEntryType : Type 0 where
  charge reversal adjustment : LedgerEntryType
  unknown_type : LedgerEntryType
