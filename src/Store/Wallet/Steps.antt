-- ===== src/Store/Wallet/Steps.antt =====
-- internal/inference/postgres/wallet_repo.go: the interleavings of the transactions on wallets. The locks on the
-- account and on the wallet make a transaction that commits one step. Of a settlement and of a release the
-- part on the wallet is a step here.
use yunhou_users.Common.{ℕ, ◌≡◌, List}
use yunhou_users.Domain.Errors.{Time, Result, ok}
use yunhou_users.Domain.Money.{Money}
use yunhou_users.Accounting.Overage.{OverageSettings}
use yunhou_users.Store.Wallet.{WalletRow, BusinessKey, Adjustment}
use yunhou_users.Store.Wallet.Postings.{
  WalletTopupCommand, credit_topup, WalletRefundCommand, refund_wallet, WalletAdjustmentCommand,
  apply_wallet_adjustment, reverse_wallet_entry,
}
use yunhou_users.Store.Wallet.Settings.{set_overage}
use yunhou_users.Store.Wallet.Freeze.{ReserveWalletCommand, reserve_wallet}
use yunhou_users.Store.Quota.{Db}
use yunhou_users.Store.Quota.Release.{release_wallet}
use yunhou_users.Store.Quota.WalletSettle.{settle_wallet_locked}

-- The transactions that append one entry, by the key of the entry.
pub data Applies (db next : Db) : BusinessKey → Type 0 where
  topups :
      (uuid : ℕ) (now : Time) (cmd : WalletTopupCommand)
      → credit_topup uuid now cmd db ≡ ok next
      → Applies db next (BusinessKey.wallet_topup_key cmd.payment_id)
  refunds :
      (now : Time) (cmd : WalletRefundCommand)
      → refund_wallet now cmd db ≡ ok next
      → Applies db next (BusinessKey.wallet_refund_key cmd.refund_id)
  adjusts :
      (uuid id : ℕ) (now : Time) (cmd : WalletAdjustmentCommand) (row : Adjustment)
      → apply_wallet_adjustment uuid id now cmd db ≡ ok (next, row)
      → Applies db next (BusinessKey.wallet_adjustment_key cmd.idempotency_key)
  reverses :
      (now : Time) (account id : ℕ)
      → reverse_wallet_entry now account id db ≡ ok next
      → Applies db next (BusinessKey.wallet_reversal_key id)

pub data Step (db next : Db) : Type 0 where
  applies : (key : BusinessKey) → Applies db next key → Step db next
  sets_overage :
      (uuid account : ℕ) (currency : List ℕ) (new : OverageSettings) (by : ℕ) (row : WalletRow)
      → set_overage uuid account currency new by db ≡ ok (next, row)
      → Step db next
  freezes :
      (uuid : ℕ → ℕ) (others : Result (Unit {0})) (cmd : ReserveWalletCommand)
      → reserve_wallet uuid others cmd db ≡ ok next
      → Step db next
  consumes :
      (request_id : ℕ) (now : Time) (charge : Money)
      → settle_wallet_locked request_id now charge db ≡ ok next
      → Step db next
  lets_go : (request_id : ℕ) → release_wallet request_id db ≡ ok next → Step db next

pub data Reach (db : Db) : Db → Type 0 where
  here : Reach db db
  then_step : {mid last : Db} → Reach db mid → Step mid last → Reach db last
