-- ===== src/Store/Wallet/Sums.antt =====
-- internal/inference/postgres/wallet_repo.go: what is derived from the ledger and the holds of a wallet. SUM is a
-- NUMERIC; one beyond an int64 is refused when it is read.
use yunhou_users.Common.{
  ℕ, Bool, true, false, ◌&&◌, Option, none, some, List, [], ◌∷◌, ℤ, pos, ◌+ℤ◌, ◌-ℤ◌, leb, ltb, eqb,
  if◌then◌else◌, ◌==◌,
}
use yunhou_users.Domain.Errors.{Time, Code, Result, ok, ◌>>=◌}
use yunhou_users.Accounting.Wallet.{
  WalletSource, WalletEntryType, WalletDirection, WalletSums, WalletBalance, derive_wallet_balance,
}
use yunhou_users.Store.Table.{find_where, is_bigint, in_range, db_error, or_error}
use yunhou_users.Store.Wallet.{WalletRow, WalletHold, WalletEntry, source_eqb}
use yunhou_users.Store.Quota.{Db, is_held}

abbrev pub direction_eqb : WalletDirection → WalletDirection → Bool
direction_eqb WalletDirection.credit WalletDirection.credit = true
direction_eqb WalletDirection.debit WalletDirection.debit = true
direction_eqb _ _ = false

abbrev pub amount_if : Bool → ℤ → ℤ
amount_if c z = if c then z else pos 0

-- WHERE wallet_id = $1, of one group of source and direction.
abbrev pub in_group : ℕ → WalletSource → WalletDirection → WalletEntry → Bool
in_group wallet source direction e =
    e.wallet_id == wallet && source_eqb e.source source && direction_eqb e.direction direction

unfoldable pub sum_entries : ℕ → WalletSource → WalletDirection → List WalletEntry → ℤ
sum_entries wallet source direction [] = pos 0
sum_entries wallet source direction (e ∷ es) =
    amount_if (in_group wallet source direction e) e.amount.micros
    +ℤ sum_entries wallet source direction es

abbrev pub holds_of : ℕ → WalletHold → Bool
holds_of wallet h = h.wallet_id == wallet && is_held h.state

unfoldable pub sum_held : ℕ → (WalletHold → ℤ) → List WalletHold → ℤ
sum_held wallet part [] = pos 0
sum_held wallet part (h ∷ hs) = amount_if (holds_of wallet h) (part h) +ℤ sum_held wallet part hs

abbrev pub scan : ℤ → Result ℤ
scan z = in_range (is_bigint z) (ok z)

-- `walletSumsLocked` and `walletSums`
unfoldable pub wallet_sums : ℕ → Db → Result WalletSums
unfolding sum_entries sum_held
wallet_sums wallet db = do
  cash_credit ← scan (sum_entries wallet WalletSource.cash WalletDirection.credit db.wallet_entries)
  cash_debit ← scan (sum_entries wallet WalletSource.cash WalletDirection.debit db.wallet_entries)
  bonus_credit ←
      scan (sum_entries wallet WalletSource.bonus WalletDirection.credit db.wallet_entries)
  bonus_debit ← scan (sum_entries wallet WalletSource.bonus WalletDirection.debit db.wallet_entries)
  held_cash ← scan (sum_held wallet (λ h. h.cash) db.wallet_holds)
  held_bonus ← scan (sum_held wallet (λ h. h.bonus) db.wallet_holds)
  ok (record {
    cash_credit = cash_credit;
    cash_debit = cash_debit;
    bonus_credit = bonus_credit;
    bonus_debit = bonus_debit;
    held_cash = held_cash;
    held_bonus = held_bonus;
  })

abbrev is_consume : WalletEntryType → Bool
is_consume WalletEntryType.consume = true
is_consume _ = false

-- LEFT JOIN on the reversed entry: whether it is a consumption.
abbrev reverses_consume : Option ℕ → List WalletEntry → Bool
reverses_consume none es = false
reverses_consume (some id) es = elim (find_where (λ e. e.id == id) es) [
  | none ↦ false
  | some o ↦ is_consume o.type
]

abbrev spend_of : List WalletEntry → WalletEntryType → WalletDirection → WalletEntry → ℤ
spend_of es WalletEntryType.consume WalletDirection.debit e = e.amount.micros
spend_of es WalletEntryType.reversal_entry WalletDirection.credit e =
    if reverses_consume e.reverses_entry_id es then pos 0 -ℤ e.amount.micros else pos 0
spend_of es _ _ e = pos 0

unfoldable pub sum_spend : ℕ → Time → Time → List WalletEntry → List WalletEntry → ℤ
sum_spend wallet start end all [] = pos 0
sum_spend wallet start end all (e ∷ es) =
    amount_if (e.wallet_id == wallet && leb start e.created_at && ltb e.created_at end)
      (spend_of all e.type e.direction e)
    +ℤ sum_spend wallet start end all es

-- `monthSpendLocked` and `monthSpend`
unfoldable pub month_spend : ℕ → Time → Time → Db → Result ℤ
unfolding sum_spend
month_spend wallet start end db =
    scan (sum_spend wallet start end db.wallet_entries db.wallet_entries)

unfoldable pub get_wallet_by_account : ℕ → List ℕ → Db → Result WalletRow
get_wallet_by_account account currency db =
    or_error
      (find_where (λ w. w.billing_account_id == account && eqb w.currency currency) db.wallets)
      (db_error Code.not_found)

-- `WalletBalance` with the bounds of the month.
unfoldable pub wallet_balance : ℕ → List ℕ → Time → Time → Db → Result (WalletBalance × ℤ)
unfolding get_wallet_by_account wallet_sums derive_wallet_balance month_spend
wallet_balance account currency start end db = do
  w ← get_wallet_by_account account currency db
  sums ← wallet_sums w.id db
  balance ← derive_wallet_balance w.currency sums
  spent ← month_spend w.id start end db
  ok (balance, spent)
