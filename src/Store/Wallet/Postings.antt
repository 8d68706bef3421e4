-- ===== src/Store/Wallet/Postings.antt =====
-- internal/inference/postgres/wallet_repo.go: top-ups, refunds, adjustments and reversals.
-- Identifiers and texts are numbers, 0 for the empty text; `now` is that of the transaction and
-- `uuid` numbers the identifiers that are generated.
use yunhou_users.Common.{ℕ, ◌||◌, Option, none, some, List, ◌∷◌, ℤ, pos, leb_ℤ, ◌==◌, not}
use yunhou_users.Domain.Errors.{
  Time, Code, Sentinel, sentinel, new_error, wrap_error, Result, ok, ◌>>=◌, ◌>>◌, fail_if,
}
use yunhou_users.Domain.Money.{Money, new_money}
use yunhou_users.Accounting.Wallet.{
  WalletSource, WalletEntryType, WalletDirection, WalletEntrySpec, validate_wallet_entry,
  reversal_of,
}
use yunhou_users.Store.Table.{any, find_where, db_error, or_error}
use yunhou_users.Store.Wallet.{
  WalletEntry, BusinessKey, Adjustment, next_entry_id, insert_wallet_entry,
}
use yunhou_users.Store.Wallet.Settings.{get_or_create_wallet, lock_wallet}
use yunhou_users.Store.Wallet.Sums.{get_wallet_by_account}
use yunhou_users.Store.Quota.{Db, lock_account}

-- The columns that only some kinds of entries have are none.
abbrev pub posting :
    ℕ
    → WalletEntryType
    → WalletDirection
    → WalletSource
    → Money
    → Option ℕ
    → BusinessKey
    → Time
    → List WalletEntry
    → WalletEntry
posting wallet type direction source amount reverses key now entries = record {
  id = next_entry_id entries;
  wallet_id = wallet;
  type = type;
  direction = direction;
  source = source;
  amount = amount;
  request_id = none;
  hold_id = none;
  reverses_entry_id = reverses;
  business_key = key;
  created_at = now;
}

abbrev pub post : WalletEntry → Db → Result Db
post e db = do
  entries ← insert_wallet_entry e db.wallet_entries
  ok (record db { wallet_entries = entries })

-- The amount of a command, as the three commands check it.
abbrev pub checked_money :
    ℤ → List ℕ → WalletEntryType → WalletDirection → WalletSource → Result Money
checked_money micros currency type direction source = do
  m ← new_money micros currency
  fail_if (leb_ℤ m.micros (pos 0))
      (wrap_error Code.invalid_input (sentinel Sentinel.negative_value))
  validate_wallet_entry (record { type = type; direction = direction; source = source; amount = m })
  ok m

pub record WalletTopupCommand : Type 0 where
  pub account_id : ℕ
  pub currency : List ℕ
  pub amount_micros : ℤ
  pub payment_id : ℕ

-- `CreditTopupTx`
unfoldable pub credit_topup : ℕ → Time → WalletTopupCommand → Db → Result Db
unfolding new_money validate_wallet_entry lock_account get_or_create_wallet lock_wallet
    insert_wallet_entry next_entry_id
credit_topup uuid now cmd db = do
  m ←
      checked_money cmd.amount_micros cmd.currency WalletEntryType.topup WalletDirection.credit
        WalletSource.cash
  lock_account cmd.account_id db
  (db1, wallet, created) ← get_or_create_wallet uuid cmd.account_id cmd.currency cmd.payment_id db
  _ ← lock_wallet wallet.id db1
  post
      (posting wallet.id WalletEntryType.topup WalletDirection.credit WalletSource.cash m none
        (BusinessKey.wallet_topup_key cmd.payment_id) now db1.wallet_entries)
      db1

pub record WalletRefundCommand : Type 0 where
  pub account_id : ℕ
  pub currency : List ℕ
  pub amount_micros : ℤ
  pub refund_id : ℕ
  pub payment_id : ℕ

-- `RefundWalletTx`
unfoldable pub refund_wallet : Time → WalletRefundCommand → Db → Result Db
unfolding new_money validate_wallet_entry lock_account get_wallet_by_account insert_wallet_entry
    next_entry_id
refund_wallet now cmd db = do
  m ←
      checked_money cmd.amount_micros cmd.currency WalletEntryType.refund WalletDirection.debit
        WalletSource.cash
  lock_account cmd.account_id db
  row ← get_wallet_by_account cmd.account_id cmd.currency db
  post
      (posting row.id WalletEntryType.refund WalletDirection.debit WalletSource.cash m none
        (BusinessKey.wallet_refund_key cmd.refund_id) now db.wallet_entries)
      db

pub record WalletAdjustmentCommand : Type 0 where
  pub account_id : ℕ
  pub currency : List ℕ
  pub source : WalletSource
  pub direction : WalletDirection
  pub amount_micros : ℤ
  pub reason : ℕ
  pub operator_subject : ℕ
  pub service_subject : ℕ
  pub idempotency_key : ℕ

abbrev pub adjustment_row : ℕ → Money → WalletAdjustmentCommand → Adjustment
adjustment_row id m cmd = record {
  id = id;
  billing_account_id = cmd.account_id;
  reason = cmd.reason;
  amount = m;
  direction = cmd.direction;
  source = cmd.source;
  operator_subject = cmd.operator_subject;
  service_subject = cmd.service_subject;
  idempotency_key = cmd.idempotency_key;
}

-- INSERT INTO inference_adjustments: the primary key and UNIQUE (idempotency_key).
unfoldable pub insert_adjustment : Adjustment → Db → Result Db
insert_adjustment a db = do
  fail_if (any (λ b. b.id == a.id || b.idempotency_key == a.idempotency_key) db.adjustments)
      (db_error Code.conflict)
  ok (record db { adjustments = a ∷ db.adjustments })

-- `ApplyWalletAdjustmentTx`, with the identifiers of a new wallet and of the adjustment.
unfoldable pub apply_wallet_adjustment :
    ℕ → ℕ → Time → WalletAdjustmentCommand → Db → Result (Db × Adjustment)
unfolding new_money validate_wallet_entry lock_account get_or_create_wallet lock_wallet
    insert_adjustment insert_wallet_entry next_entry_id
apply_wallet_adjustment uuid id now cmd db = do
  fail_if (cmd.reason == 0 || cmd.operator_subject == 0 || cmd.idempotency_key == 0)
      (new_error Code.invalid_input)
  m ←
      checked_money cmd.amount_micros cmd.currency WalletEntryType.adjustment_entry cmd.direction
        cmd.source
  lock_account cmd.account_id db
  (db1, wallet, created) ←
      get_or_create_wallet uuid cmd.account_id cmd.currency cmd.operator_subject db
  _ ← lock_wallet wallet.id db1
  db2 ← insert_adjustment (adjustment_row id m cmd) db1
  db3 ←
      post
        (posting wallet.id WalletEntryType.adjustment_entry cmd.direction cmd.source m none
          (BusinessKey.wallet_adjustment_key cmd.idempotency_key) now db2.wallet_entries)
        db2
  ok (db3, adjustment_row id m cmd)

abbrev pub spec_of : WalletEntry → Money → WalletEntrySpec
spec_of e m = record { type = e.type; direction = e.direction; source = e.source; amount = m }

-- `ReverseWalletEntryTx`
unfoldable pub reverse_wallet_entry : Time → ℕ → ℕ → Db → Result Db
unfolding lock_account lock_wallet new_money reversal_of insert_wallet_entry next_entry_id
reverse_wallet_entry now account entry_id db = do
  lock_account account db
  orig ← or_error (find_where (λ e. e.id == entry_id) db.wallet_entries) (db_error Code.not_found)
  w ← lock_wallet orig.wallet_id db
  fail_if (not (w.billing_account_id == account)) (new_error Code.invalid_input)
  m ← new_money orig.amount.micros orig.amount.currency
  rev ← reversal_of (spec_of orig m)
  _ ← lock_wallet orig.wallet_id db
  post
      (posting orig.wallet_id WalletEntryType.reversal_entry rev.direction rev.source m
        (some entry_id) (BusinessKey.wallet_reversal_key entry_id) now db.wallet_entries)
      db
