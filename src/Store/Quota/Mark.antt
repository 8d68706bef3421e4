-- ===== src/Store/Quota/Mark.antt =====
-- internal/inference/postgres/ledger_repo.go and reconciliation_repo.go: `MarkReconciliationRequired`.
use yunhou_users.Common.{
  ℕ, Bool, true, false, not, Option, none, some, List, ◌∷◌, ltb, if◌then◌else◌, ◌==◌,
}
use yunhou_users.Domain.Errors.{Time, Code, Result, ok, err, ◌>>◌, fail_if}
use yunhou_users.Domain.Usage.{RequestStatus, UsageSource}
use yunhou_users.Store.Table.{any, update_row, update_where, db_error}
use yunhou_users.Store.Quota.{Request, JobReason, JobStatus, ReconciliationJob, Db}
use yunhou_users.Store.Quota.Release.{is_final}

-- resolved or escalated, for a new reason
abbrev reopens : JobStatus → Bool → Bool
reopens JobStatus.resolved same = not same
reopens JobStatus.escalated same = not same
reopens _ same = false

abbrev later_of : Time → Time → Time
later_of a b = if ltb a b then b else a

-- ON CONFLICT (request_id) DO UPDATE
abbrev reason_eqb : JobReason → JobReason → Bool
reason_eqb JobReason.unknown_usage JobReason.unknown_usage = true
reason_eqb JobReason.crash_recovery JobReason.crash_recovery = true
reason_eqb JobReason.ledger_mismatch JobReason.ledger_mismatch = true
reason_eqb JobReason.manual JobReason.manual = true
reason_eqb JobReason.settlement_overage JobReason.settlement_overage = true
reason_eqb _ _ = false

-- The CHECK on the column.
abbrev pub is_reason : JobReason → Bool
is_reason JobReason.other_reason = false
is_reason _ = true

-- ON CONFLICT (request_id) DO UPDATE
abbrev merge_job : JobReason → Time → ReconciliationJob → ReconciliationJob
merge_job reason deadline j =
    if reopens j.status (reason_eqb j.reason reason)
    then record j {
      reason = reason;
      status = JobStatus.pending;
      deadline_at = later_of j.deadline_at deadline;
    }
    else record j { deadline_at = later_of j.deadline_at deadline }

abbrev new_job : ℕ → JobReason → Time → ReconciliationJob
new_job request_id reason deadline = record {
  request_id = request_id;
  reason = reason;
  status = JobStatus.pending;
  deadline_at = deadline;
}

abbrev upsert_job : ℕ → JobReason → Time → List ReconciliationJob → List ReconciliationJob
upsert_job request_id reason deadline jobs =
    elim (update_where (λ j. j.request_id == request_id) (merge_job reason deadline) jobs) [
      | none ↦ new_job request_id reason deadline ∷ jobs
      | some merged ↦ merged
    ]

-- `EnqueueReconciliationJobTx` of a request's job.
unfoldable pub enqueue_job : ℕ → JobReason → Time → Db → Result Db
enqueue_job request_id reason deadline db = do
  fail_if (not (is_reason reason)) (db_error Code.invalid_input)
  ok (record db { jobs = upsert_job request_id reason deadline db.jobs })

abbrev pub parked_row : Request → Request
parked_row r = record r {
  status = RequestStatus.reconciliation_required;
  usage_status = UsageSource.unknown;
}

abbrev pub after_mark : ℕ → JobReason → Time → Db → Option (List Request) → Result Db
after_mark request_id reason deadline db none =
    if any (λ r. r.id == request_id) db.requests then ok db else err (db_error Code.not_found)
after_mark request_id reason deadline db (some requests) =
    enqueue_job request_id reason deadline (record db { requests = requests })

-- `MarkReconciliationRequired`
unfoldable pub mark_reconciliation_required : ℕ → JobReason → Time → Db → Result Db
unfolding update_row enqueue_job
mark_reconciliation_required request_id reason deadline db =
    after_mark request_id reason deadline db
      (update_row (λ r. r.id == request_id) (λ r. not (is_final r.status)) parked_row db.requests)
