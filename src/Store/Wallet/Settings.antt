-- ===== src/Store/Wallet/Settings.antt =====
-- internal/inference/postgres/wallet_repo.go: the creation, the lock and the settings of a wallet, with their audit.
-- Names of persons are numbers.
use yunhou_users.Common.{ℕ, Bool, true, false, none, some, List, [], ◌∷◌, if◌then◌else◌, ◌==◌, not}
use yunhou_users.Domain.Errors.{Code, Result, ok, err, ◌>>=◌, ◌>>◌, fail_if}
use yunhou_users.Domain.Money.{valid_currency}
use yunhou_users.Accounting.Overage.{
  OverageSettings, validate_settings, AuditAction, OverageAuditSpec, audit_for_change,
}
use yunhou_users.Store.Table.{any, find_where, update_row, db_error, or_error}
use yunhou_users.Store.Wallet.{WalletRow, WalletAudit}
use yunhou_users.Store.Wallet.Sums.{get_wallet_by_account}
use yunhou_users.Store.Quota.{Db, lock_account}

abbrev pub new_wallet : ℕ → ℕ → List ℕ → WalletRow
new_wallet id account currency = record {
  id = id;
  billing_account_id = account;
  currency = currency;
  overage_enabled = false;
  monthly_spend_limit_micros = none;
}

abbrev pub create_audit : ℕ → ℕ → WalletAudit
create_audit wallet changed_by = record {
  wallet_id = wallet;
  spec = record {
    action = AuditAction.create;
    changed_by = changed_by;
    old_enabled = none;
    new_enabled = some false;
    old_limit_micros = none;
    new_limit_micros = none;
  };
}

abbrev pub create_wallet : ℕ → ℕ → List ℕ → ℕ → Db → Result (Db × WalletRow × Bool)
create_wallet id account currency changed_by db = do
  fail_if (not (valid_currency currency)) (db_error Code.invalid_input)
  fail_if (any (λ w. w.id == id) db.wallets) (db_error Code.conflict)
  ok (
    record db {
      wallets = new_wallet id account currency ∷ db.wallets;
      wallet_audits = create_audit id changed_by ∷ db.wallet_audits;
    },
    new_wallet id account currency,
    true,
  )

-- `getOrCreateWalletLocked`: the row, and whether it is new.
unfoldable pub get_or_create_wallet : ℕ → ℕ → List ℕ → ℕ → Db → Result (Db × WalletRow × Bool)
unfolding get_wallet_by_account valid_currency
get_or_create_wallet id account currency changed_by db =
    elim (get_wallet_by_account account currency db) [
      | ok w ↦ ok (db, w, false)
      | err e ↦ create_wallet id account currency changed_by db
    ]

-- `lockWalletTx`
unfoldable pub lock_wallet : ℕ → Db → Result WalletRow
lock_wallet id db = or_error (find_where (λ w. w.id == id) db.wallets) (db_error Code.not_found)

abbrev pub settings : WalletRow → OverageSettings
settings w = record {
  enabled = w.overage_enabled;
  monthly_spend_limit_micros = w.monthly_spend_limit_micros;
}

abbrev is_create : AuditAction → Bool
is_create AuditAction.create = true
is_create _ = false

-- The audit rows, the newest first; that of a new wallet is there already.
abbrev pub audit_rows : ℕ → List OverageAuditSpec → List WalletAudit → List WalletAudit
audit_rows wallet [] rows = rows
audit_rows wallet (s ∷ ss) rows =
    audit_rows wallet ss
      (if is_create s.action then rows else record { wallet_id = wallet; spec = s } ∷ rows)

abbrev pub with_settings : OverageSettings → WalletRow → WalletRow
with_settings next w = record w {
  overage_enabled = next.enabled;
  monthly_spend_limit_micros = next.monthly_spend_limit_micros;
}

-- `SetOverageTx`
unfoldable pub set_overage : ℕ → ℕ → List ℕ → OverageSettings → ℕ → Db → Result (Db × WalletRow)
unfolding validate_settings lock_account get_or_create_wallet lock_wallet audit_for_change
    update_row
set_overage uuid account currency next changed_by db = do
  validate_settings next
  lock_account account db
  (db1, wallet, created) ← get_or_create_wallet uuid account currency changed_by db
  _ ← lock_wallet wallet.id db1
  let specs = audit_for_change created (settings wallet) next changed_by
  rows ←
      or_error (update_row (λ w. w.id == wallet.id) (λ w. true) (with_settings next) db1.wallets)
        (db_error Code.not_found)
  ok (
    record db1 { wallets = rows; wallet_audits = audit_rows wallet.id specs db1.wallet_audits },
    with_settings next wallet,
  )
