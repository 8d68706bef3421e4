-- ===== src/Store/Quota/Ledger.antt =====
-- internal/inference/postgres/ledger_repo.go and request_repo.go: the statements that both settlements run: the
-- usage record, the charge, the attempt's cost and the request's terminal state.
use yunhou_users.Common.{
  ℕ, Bool, true, false, not, ◌&&◌, Option, none, some, List, ◌∷◌, ℤ, pos, leb_ℤ, ltb, if◌then◌else◌,
  ◌==◌,
}
use yunhou_users.Domain.Errors.{
  Time, Code, Sentinel, sentinel, Result, ok, err, ◌>>=◌, ◌>>◌, fail_if,
}
use yunhou_users.Domain.Money.{Money, valid_currency}
use yunhou_users.Domain.Usage.{
  RequestStatus, UsageSource, UsageBuckets, UsageRecord, LedgerEntryType,
}
use yunhou_users.Store.Table.{any, update_row, update_where, db_error, or_error}
use yunhou_users.Store.Quota.{Request, LedgerEntry, CostBasis, Db}

-- The attempt's cost is given as three pointers; `now` is that of the transaction.
pub record SettleCommand : Type 0 where
  pub request_id : ℕ
  pub usage : UsageRecord
  pub charge_micros : ℤ
  pub wallet_charge : Option Money
  pub attempt_id : Option ℕ
  pub attempt_cost : Option Money
  pub cost_basis : Option CostBasis
  pub settled_at : Time
  pub now : Time

abbrev none_or_nonneg : Option ℤ → Bool
none_or_nonneg none = true
none_or_nonneg (some n) = leb_ℤ (pos 0) n

abbrev buckets_ok : UsageBuckets → Bool
buckets_ok u =
    none_or_nonneg u.input_tokens
    && none_or_nonneg u.cache_read_tokens
    && none_or_nonneg u.cache_write_tokens
    && none_or_nonneg u.output_tokens
    && none_or_nonneg u.reasoning_tokens

abbrev source_ok : UsageSource → Option ℤ → Bool
source_ok UsageSource.pending input = false
source_ok UsageSource.unknown (some n) = false
source_ok _ input = true

-- The record that is inserted: revision 0 stands for 1.
abbrev pub usage_row : UsageRecord → UsageRecord
usage_row u = if u.revision == 0 then record u { revision = 1 } else u

-- The column is an INT; then the CHECKs, UNIQUE (attempt_id, revision) and the references.
abbrev pub insert_usage_row : UsageRecord → Db → Result Db
insert_usage_row u db = do
  fail_if (ltb 2147483647 u.revision) (sentinel Sentinel.foreign)
  fail_if (not (buckets_ok u.buckets && source_ok u.source u.buckets.input_tokens))
      (db_error Code.invalid_input)
  fail_if (any (λ v. v.attempt_id == u.attempt_id && v.revision == u.revision) db.usage_records)
      (db_error Code.conflict)
  fail_if
      (not (
        any (λ r. r.id == u.request_id) db.requests && any (λ a. a.id == u.attempt_id) db.attempts))
      (db_error Code.invalid_input)
  ok (record db { usage_records = u ∷ db.usage_records })

unfoldable pub insert_usage_record : UsageRecord → Db → Result Db
insert_usage_record u db = insert_usage_row (usage_row u) db

abbrev is_charge : LedgerEntryType → Bool
is_charge LedgerEntryType.charge = true
is_charge _ = false

abbrev pub charge_entry : Request → ℤ → Option (List ℕ) → LedgerEntry
charge_entry req amount currency = record {
  billing_account_id = req.billing_account_id;
  request_id = req.id;
  entry_type = LedgerEntryType.charge;
  amount_micros = amount;
  currency = currency;
  price_version_id = req.price_version_id;
}

abbrev currency_ok : Option (List ℕ) → Bool
currency_ok none = true
currency_ok (some c) = valid_currency c

-- INSERT INTO inference_ledger_entries; a request has one charge at most.
unfoldable pub append_charge : Request → ℤ → Option (List ℕ) → Db → Result Db
append_charge req amount currency db = do
  fail_if (not (currency_ok currency)) (db_error Code.invalid_input)
  fail_if (any (λ e. is_charge e.entry_type && e.request_id == req.id) db.ledger)
      (db_error Code.conflict)
  ok (record db { ledger = charge_entry req amount currency ∷ db.ledger })

abbrev pub cost_ok : Money → Bool
cost_ok m = leb_ℤ (pos 0) m.micros && valid_currency m.currency

-- UPDATE inference_attempts, which may hit no row.
abbrev pub set_cost : ℕ → Money → CostBasis → Db → Result Db
set_cost attempt cost basis db =
    elim (update_where (λ a. a.id == attempt) (λ a. record a { cost = some (cost, basis) })
      db.attempts) [
        | none ↦ ok db
        | some attempts ↦
            if cost_ok cost
            then ok (record db { attempts = attempts })
            else err (db_error Code.invalid_input)
      ]

abbrev pub set_attempt_cost : Option ℕ → Option Money → Option CostBasis → Db → Result Db
set_attempt_cost (some attempt) (some cost) (some basis) db = set_cost attempt cost basis db
set_attempt_cost _ _ _ db = ok db

unfoldable pub record_cost : SettleCommand → Db → Result Db
record_cost cmd db = set_attempt_cost cmd.attempt_id cmd.attempt_cost cmd.cost_basis db

abbrev pub settled_row : SettleCommand → ℤ → Request → Request
settled_row cmd amount r = record r {
  status = RequestStatus.settled;
  settled_micros = some amount;
  usage_status = cmd.usage.source;
  completed_at = some cmd.settled_at;
}

-- The terminal state of the request, whose row is locked.
unfoldable pub finish : SettleCommand → ℤ → Db → Result Db
unfolding update_row
finish cmd amount db = do
  requests ←
      or_error
        (update_row (λ r. r.id == cmd.request_id) (λ r. true) (settled_row cmd amount) db.requests)
        (sentinel Sentinel.foreign)
  ok (record db { requests = requests })
