-- ===== src/Store/Quota/WalletSettle.antt =====
-- internal/inference/postgres/ledger_repo.go and wallet_repo.go: the settlement of a wallet request.
use yunhou_users.Common.{
  ℕ, Bool, true, false, not, ◌&&◌, Option, none, some, List, ℤ, pos, add64, eqb_ℤ, eqb,
  if◌then◌else◌, ◌==◌,
}
use yunhou_users.Domain.Errors.{
  Time, Code, Sentinel, sentinel, new_error, wrap_error, Result, ok, ◌>>=◌, ◌>>◌, fail_if,
}
use yunhou_users.Domain.Money.{Money, new_money}
use yunhou_users.Domain.Usage.{ReservationState, ReservationTargetKind}
use yunhou_users.Accounting.Wallet.{
  WalletSource, WalletEntryType, WalletDirection, WalletEntrySpec, validate_wallet_entry,
  split_consume,
}
use yunhou_users.Store.Table.{find_where, update_where, db_error, or_error}
use yunhou_users.Store.Quota.{Request, Db, is_held}
use yunhou_users.Store.Wallet.{
  WalletHold, WalletEntry, BusinessKey, insert_wallet_entry, next_entry_id,
}
use yunhou_users.Store.Quota.Ledger.{
  SettleCommand, insert_usage_record, append_charge, record_cost, finish,
}

-- The hold of the request and the currency of its wallet.
abbrev pub find_hold : ℕ → Db → Result (WalletHold × List ℕ)
find_hold request_id db = do
  hold ←
      or_error (find_where (λ h. h.request_id == request_id) db.wallet_holds)
        (db_error Code.not_found)
  wallet ← or_error (find_where (λ w. w.id == hold.wallet_id) db.wallets) (db_error Code.not_found)
  ok (hold, wallet.currency)

abbrev pub entry_spec : WalletSource → Money → WalletEntrySpec
entry_spec source amount = record {
  type = WalletEntryType.consume;
  direction = WalletDirection.debit;
  source = source;
  amount = amount;
}

abbrev pub consume_entry : WalletHold → ℕ → Time → WalletSource → Money → Db → WalletEntry
consume_entry hold request_id now source amount db = record {
  id = next_entry_id db.wallet_entries;
  wallet_id = hold.wallet_id;
  type = WalletEntryType.consume;
  direction = WalletDirection.debit;
  source = source;
  amount = amount;
  request_id = some request_id;
  hold_id = some hold.id;
  reverses_entry_id = none;
  business_key = BusinessKey.wallet_consume_key request_id source;
  created_at = now;
}

abbrev pub write_positive : WalletHold → List ℕ → ℕ → Time → WalletSource → ℤ → Db → Result Db
write_positive hold currency request_id now source micros db = do
  m ← new_money micros currency
  validate_wallet_entry (entry_spec source m)
  entries ← insert_wallet_entry (consume_entry hold request_id now source m db) db.wallet_entries
  ok (record db { wallet_entries = entries })

-- The function `write`: nothing for the amount 0.
unfoldable pub write_consume : WalletHold → List ℕ → ℕ → Time → WalletSource → ℤ → Db → Result Db
unfolding new_money validate_wallet_entry insert_wallet_entry next_entry_id
write_consume hold currency request_id now source micros db =
    if eqb_ℤ micros (pos 0)
    then ok db
    else write_positive hold currency request_id now source micros db

-- `settleWalletLocked` behind the read of the hold.
abbrev pub consume_hold : WalletHold → List ℕ → ℕ → Time → Money → Db → Result Db
consume_hold hold currency request_id now charge db = do
  fail_if (not (eqb charge.currency currency))
      (wrap_error Code.invalid_input (sentinel Sentinel.currency_mismatch))
  (consume_cash, consume_bonus, extra_cash) ← split_consume hold.cash hold.bonus charge.micros
  db1 ← write_consume hold currency request_id now WalletSource.bonus consume_bonus db
  db2 ←
      write_consume hold currency request_id now WalletSource.cash (add64 consume_cash extra_cash)
        db1
  holds ←
      or_error
        (update_where (λ h. h.id == hold.id && is_held h.state)
          (λ h. record h { state = ReservationState.settled_state }) db2.wallet_holds)
        (new_error Code.conflict)
  ok (record db2 { wallet_holds = holds })

-- `settleWalletLocked`
unfoldable pub settle_wallet_locked : ℕ → Time → Money → Db → Result Db
unfolding split_consume write_consume
settle_wallet_locked request_id now charge db = do
  (hold, currency) ← find_hold request_id db
  consume_hold hold currency request_id now charge db

-- The charge, of the command or of the wallet's currency.
abbrev pub charge_money : Option Money → SettleCommand → Db → Result Money
charge_money (some m) cmd db = ok m
charge_money none cmd db = do
  (hold, currency) ← find_hold cmd.request_id db
  new_money cmd.charge_micros currency

abbrev pub is_wallet : ReservationTargetKind → Bool
is_wallet ReservationTargetKind.wallet = true
is_wallet _ = false

-- The transition of the mirrored reservation.
unfoldable pub move_wallet_reservation : ℕ → Db → Result Db
move_wallet_reservation request_id db = do
  rs ←
      or_error
        (update_where
          (λ r. r.request_id == request_id && is_wallet r.target_kind && is_held r.state)
          (λ r. record r { state = ReservationState.settled_state }) db.reservations)
        (new_error Code.conflict)
  ok (record db { reservations = rs })

-- `settleWallet`
unfoldable pub settle_wallet : SettleCommand → Request → Db → Result Db
unfolding insert_usage_record append_charge settle_wallet_locked move_wallet_reservation record_cost
    finish
settle_wallet cmd req db = do
  db1 ← insert_usage_record cmd.usage db
  charge ← charge_money cmd.wallet_charge cmd db1
  fail_if (not (eqb_ℤ charge.micros cmd.charge_micros)) (new_error Code.invalid_input)
  db2 ← append_charge req charge.micros (some charge.currency) db1
  db3 ← settle_wallet_locked cmd.request_id cmd.now charge db2
  db4 ← move_wallet_reservation cmd.request_id db3
  db5 ← record_cost cmd db4
  finish cmd charge.micros db5
