-- ===== src/Store/Wallet.antt =====
-- internal/inference/postgres/wallet_repo.go: the rows of the wallets, their holds, their ledger and the
-- operators' adjustments. Names of persons are only stored, and left out of the entries.
pub mod Sums
pub mod Settings
pub mod Postings
pub mod Freeze
pub mod Posted
pub mod Outcomes
pub mod Froze
pub mod Steps
pub mod Once
pub mod Admission
pub mod Funded
pub mod Covered
mod Examples
use yunhou_users.Common.{
  ℕ, suc, Bool, true, false, ◌||◌, Option, some, List, [], ◌∷◌, ℤ, pos, leb_ℤ, ltb, if◌then◌else◌,
  ◌==◌,
}
use yunhou_users.Domain.Errors.{Time, Code, Result, ok, ◌>>◌, fail_if}
use yunhou_users.Domain.Money.{Money}
use yunhou_users.Domain.Usage.{ReservationState}
use yunhou_users.Accounting.Wallet.{WalletSource, WalletEntryType, WalletDirection}
use yunhou_users.Accounting.Overage.{OverageAuditSpec}
use yunhou_users.Store.Table.{any, db_error}

pub record WalletRow : Type 0 where
  pub id : ℕ
  pub billing_account_id : ℕ
  pub currency : List ℕ
  pub overage_enabled : Bool
  pub monthly_spend_limit_micros : Option ℤ

pub record WalletHold : Type 0 where
  pub id : ℕ
  pub request_id : ℕ
  pub wallet_id : ℕ
  pub amount : ℤ
  pub cash : ℤ
  pub bonus : ℤ
  pub price_version_id : ℕ
  pub state : ReservationState

-- The keys, which differ in their prefixes: wallet:topup:, wallet:refund: and so on.
pub data BusinessKey : Type 0 where
  wallet_topup_key : ℕ → BusinessKey
  wallet_refund_key : ℕ → BusinessKey
  wallet_consume_key : ℕ → WalletSource → BusinessKey
  wallet_adjustment_key : ℕ → BusinessKey
  wallet_reversal_key : ℕ → BusinessKey

pub record WalletEntry : Type 0 where
  pub id : ℕ
  pub wallet_id : ℕ
  pub type : WalletEntryType
  pub direction : WalletDirection
  pub source : WalletSource
  pub amount : Money
  pub request_id : Option ℕ
  pub hold_id : Option ℕ
  pub reverses_entry_id : Option ℕ
  pub business_key : BusinessKey
  pub created_at : Time

-- A row of inference_adjustments that adjusts a wallet.
pub record Adjustment : Type 0 where
  pub id : ℕ
  pub billing_account_id : ℕ
  pub reason : ℕ
  pub amount : Money
  pub direction : WalletDirection
  pub source : WalletSource
  pub operator_subject : ℕ
  pub service_subject : ℕ
  pub idempotency_key : ℕ

pub record WalletAudit : Type 0 where
  pub wallet_id : ℕ
  pub spec : OverageAuditSpec

abbrev pub source_eqb : WalletSource → WalletSource → Bool
source_eqb WalletSource.cash WalletSource.cash = true
source_eqb WalletSource.bonus WalletSource.bonus = true
source_eqb WalletSource.unknown_source WalletSource.unknown_source = true
source_eqb _ _ = false

abbrev pub key_eqb : BusinessKey → BusinessKey → Bool
key_eqb (BusinessKey.wallet_topup_key p) (BusinessKey.wallet_topup_key q) = p == q
key_eqb (BusinessKey.wallet_refund_key p) (BusinessKey.wallet_refund_key q) = p == q
key_eqb (BusinessKey.wallet_consume_key p s) (BusinessKey.wallet_consume_key q t) =
    if p == q then source_eqb s t else false
key_eqb (BusinessKey.wallet_adjustment_key p) (BusinessKey.wallet_adjustment_key q) = p == q
key_eqb (BusinessKey.wallet_reversal_key p) (BusinessKey.wallet_reversal_key q) = p == q
key_eqb _ _ = false

-- The next number of the BIGSERIAL, above those of all rows; the gaps of rolled back transactions are left
-- out.
unfoldable pub next_entry_id : List WalletEntry → ℕ
next_entry_id [] = 1
next_entry_id (e ∷ es) = let rest = next_entry_id es in if ltb e.id rest then rest else suc e.id

abbrev same_reversal : Option ℕ → Option ℕ → Bool
same_reversal (some a) (some b) = a == b
same_reversal _ _ = false

-- INSERT INTO inference_wallet_entries: CHECK (amount_micros > 0), the unique business key and the unique
-- reversal of an entry.
unfoldable pub insert_wallet_entry : WalletEntry → List WalletEntry → Result (List WalletEntry)
insert_wallet_entry e es = do
  fail_if (leb_ℤ e.amount.micros (pos 0)) (db_error Code.invalid_input)
  fail_if
      (any
        (λ f.
          key_eqb f.business_key e.business_key
          || same_reversal f.reverses_entry_id e.reverses_entry_id)
        es)
      (db_error Code.conflict)
  ok (e ∷ es)
