-- ===== src/Accounting/Wallet/Entries.antt =====
-- internal/inference/accounting/wallet.go: a reversal undoes its entry, and refunds are cash only.
use yunhou_users.Common.{◌≡◌, ℤ, pos, ◌+ℤ◌, ◌-ℤ◌, ◌<ℤ◌, int_laws, arith}
use yunhou_users.Domain.Errors.{ok, err, Code, new_error}
use yunhou_users.Accounting.Wallet.{
  WalletSource, WalletEntryType, WalletDirection, WalletEntrySpec, validate_wallet_entry,
  reversal_of, opposite,
}

-- What an entry adds to the balance of its source.
abbrev pub signed : WalletDirection → ℤ → ℤ
signed WalletDirection.credit n = n
signed WalletDirection.debit n = pos 0 -ℤ n

signed_sum : (d : WalletDirection) (n : ℤ) → signed d n +ℤ signed (opposite d) n ≡ pos 0
signed_sum WalletDirection.credit n = omega int_laws
signed_sum WalletDirection.debit n = omega int_laws

-- The reversal of an accepted entry is itself accepted, is drawn on the same source, and takes its
-- amount back exactly; it cannot be reversed again.
pub reversal_of-validate :
    (e : WalletEntrySpec) {r : WalletEntrySpec}
    → validate_wallet_entry e ≡ ok tt
    → reversal_of e ≡ ok r
    → (validate_wallet_entry r ≡ ok tt)
      × (r.source ≡ e.source)
      × (signed e.direction e.amount.micros +ℤ signed r.direction r.amount.micros ≡ pos 0)
      × (reversal_of r ≡ err (new_error Code.invalid_input))
unfolding validate_wallet_entry reversal_of
reversal_of-validate e h g = ground (arith, signed_sum e.direction e.amount.micros)

-- An accepted entry has a positive amount; if it is a top-up it credits cash, if a gift it credits
-- bonus, if a consumption it debits, and if a refund it debits cash, never bonus.
pub validate_wallet_entry_rules :
    (e : WalletEntrySpec)
    → validate_wallet_entry e ≡ ok tt
    → (pos 0 <ℤ e.amount.micros)
      × (e.type ≡ WalletEntryType.topup
          → (e.direction ≡ WalletDirection.credit) × (e.source ≡ WalletSource.cash))
      × (e.type ≡ WalletEntryType.bonus_entry
          → (e.direction ≡ WalletDirection.credit) × (e.source ≡ WalletSource.bonus))
      × (e.type ≡ WalletEntryType.consume → e.direction ≡ WalletDirection.debit)
      × (e.type ≡ WalletEntryType.refund
          → (e.direction ≡ WalletDirection.debit) × (e.source ≡ WalletSource.cash))
unfolding validate_wallet_entry
validate_wallet_entry_rules e h =
    (ground arith, λ t. ground arith, λ t. ground arith, λ t. ground arith, λ t. ground arith)
