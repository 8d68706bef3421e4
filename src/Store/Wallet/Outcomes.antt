-- ===== src/Store/Wallet/Outcomes.antt =====
-- internal/inference/postgres/wallet_repo.go: what each wallet transaction did to the tables.
use mathlib.Core.Path.{subst}
use yunhou_users.Common.{
  ℕ, ◌≡◌, refl, sym, ap, true, Option, none, some, List, ℤ, ◌==◌, arith, Bool-cases, inl, inr, not,
}
use yunhou_users.Domain.Errors.{
  Time, Code, ok, >>=-eq-ok, >>-eq-ok, ok_injective, fail_if, new_error,
}
use yunhou_users.Domain.Money.{Money, new_money}
use yunhou_users.Accounting.Wallet.{
  WalletSource, WalletEntryType, WalletDirection, reversal_of, WalletEntrySpec, opposite,
  is_reversal,
}
use yunhou_users.Accounting.Overage.{OverageSettings, validate_settings}
use yunhou_users.Store.Table.{or_error-eq-ok, find_where, update_row, db_error, or_error}
use yunhou_users.Store.Wallet.{WalletRow, WalletEntry, BusinessKey, Adjustment}
use yunhou_users.Store.Wallet.Sums.{get_wallet_by_account}
use yunhou_users.Store.Wallet.Postings.{
  posting, post, checked_money, WalletTopupCommand, credit_topup, WalletRefundCommand,
  refund_wallet, insert_adjustment, WalletAdjustmentCommand, apply_wallet_adjustment,
  adjustment_row, reverse_wallet_entry, spec_of,
}
use yunhou_users.Store.Wallet.Settings.{
  get_or_create_wallet, lock_wallet, set_overage, with_settings,
}
use yunhou_users.Store.Quota.{Db, lock_account}
use yunhou_users.Store.Wallet.Posted.{
  Idle, Posted, Idle-trans, post-Posted, after-Posted, get_or_create_wallet-Idle,
  insert_adjustment-Idle,
}

-- What posts a given kind of entry with a key.
abbrev pub Posts : WalletEntryType → WalletDirection → WalletSource → BusinessKey → Db → Db → Type 0
Posts type direction source key db next =
    (wallet : ℕ) × (m : Money) × (reverses : Option ℕ) × (now : Time) × Posted
      (posting wallet type direction source m reverses key now db.wallet_entries) db next

pub credit_topup-Posts :
    (uuid : ℕ) (now : Time) (cmd : WalletTopupCommand) (db : Db) {next : Db}
    → credit_topup uuid now cmd db ≡ ok next
    → Posts WalletEntryType.topup WalletDirection.credit WalletSource.cash
        (BusinessKey.wallet_topup_key cmd.payment_id)
        db
        next
unfolding credit_topup
credit_topup-Posts uuid now cmd db h =
    let (m, _, h1) =
      >>=-eq-ok
        (checked_money cmd.amount_micros cmd.currency WalletEntryType.topup WalletDirection.credit
          WalletSource.cash)
        _ h in
    let (_, h2) = >>-eq-ok (lock_account cmd.account_id db) _ h1 in
    let (out, h3, h4) =
      >>=-eq-ok (get_or_create_wallet uuid cmd.account_id cmd.currency cmd.payment_id db) _ h2 in
    let (db1, wallet, created) = out in
    let (_, _, h5) = >>=-eq-ok (lock_wallet wallet.id db1) _ h4 in
    (
      wallet.id,
      m,
      none,
      now,
      after-Posted wallet.id WalletEntryType.topup WalletDirection.credit WalletSource.cash m none
          (BusinessKey.wallet_topup_key cmd.payment_id) now db db1
          (get_or_create_wallet-Idle uuid cmd.account_id cmd.currency cmd.payment_id db h3)
          (post-Posted _ db1 h5),
    )

pub refund_wallet-Posts :
    (now : Time) (cmd : WalletRefundCommand) (db : Db) {next : Db}
    → refund_wallet now cmd db ≡ ok next
    → Posts WalletEntryType.refund WalletDirection.debit WalletSource.cash
        (BusinessKey.wallet_refund_key cmd.refund_id)
        db
        next
unfolding refund_wallet
refund_wallet-Posts now cmd db h =
    let (m, _, h1) =
      >>=-eq-ok
        (checked_money cmd.amount_micros cmd.currency WalletEntryType.refund WalletDirection.debit
          WalletSource.cash)
        _ h in
    let (_, h2) = >>-eq-ok (lock_account cmd.account_id db) _ h1 in
    let (row, _, h3) = >>=-eq-ok (get_wallet_by_account cmd.account_id cmd.currency db) _ h2 in
    (row.id, m, none, now, post-Posted _ db h3)

pub apply_wallet_adjustment-Posts :
    (uuid id : ℕ) (now : Time) (cmd : WalletAdjustmentCommand) (db : Db) {out : Db × Adjustment}
    → apply_wallet_adjustment uuid id now cmd db ≡ ok out
    → Posts WalletEntryType.adjustment_entry cmd.direction cmd.source
        (BusinessKey.wallet_adjustment_key cmd.idempotency_key)
        db
        out.0
unfolding apply_wallet_adjustment
apply_wallet_adjustment-Posts uuid id now cmd db h =
    let (_, h0) = >>-eq-ok (fail_if _ (new_error Code.invalid_input)) _ h in
    let (m, _, h1) =
      >>=-eq-ok
        (checked_money cmd.amount_micros cmd.currency WalletEntryType.adjustment_entry cmd.direction
          cmd.source)
        _ h0 in
    let (_, h2) = >>-eq-ok (lock_account cmd.account_id db) _ h1 in
    let (opened, h3, h4) =
      >>=-eq-ok (get_or_create_wallet uuid cmd.account_id cmd.currency cmd.operator_subject db) _
        h2 in
    let (db1, wallet, created) = opened in
    let (_, _, h5) = >>=-eq-ok (lock_wallet wallet.id db1) _ h4 in
    let (db2, h6, h7) = >>=-eq-ok (insert_adjustment (adjustment_row id m cmd) db1) _ h5 in
    let entry =
      posting wallet.id WalletEntryType.adjustment_entry cmd.direction cmd.source m none
        (BusinessKey.wallet_adjustment_key cmd.idempotency_key) now db2.wallet_entries in
    let (db3, h8, h9) = >>=-eq-ok (post entry db2) _ h7 in
    (
      wallet.id,
      m,
      none,
      now,
      subst
          (Posted
            (posting wallet.id WalletEntryType.adjustment_entry cmd.direction cmd.source m none
              (BusinessKey.wallet_adjustment_key cmd.idempotency_key) now db.wallet_entries)
            db)
          (ap (λ o. o.0) (ok_injective h9))
          (after-Posted wallet.id WalletEntryType.adjustment_entry cmd.direction cmd.source m none
            (BusinessKey.wallet_adjustment_key cmd.idempotency_key) now db db2
            (Idle-trans db db1 db2
              (get_or_create_wallet-Idle uuid cmd.account_id cmd.currency cmd.operator_subject db
                h3)
              (insert_adjustment-Idle (adjustment_row id m cmd) db1 h6))
            (post-Posted entry db2 h8)),
    )

opposite_of :
    (e : WalletEntry) (m : Money) {rev : WalletEntrySpec}
    → reversal_of (spec_of e m) ≡ ok rev
    → (rev.direction ≡ opposite e.direction) × (rev.source ≡ e.source)
unfolding reversal_of
opposite_of e m h = elim (Bool-cases (is_reversal e.type)) [
  | inl q ↦ let h' = rw q at h in cc
  | inr q ↦
      let h' = ok_injective (rw q at h) in
      (sym (ap (λ r. r.direction) h'), sym (ap (λ r. r.source) h'))
]

same_money :
    (z : ℤ) (c : List ℕ) {m : Money}
    → new_money z c ≡ ok m
    → record { micros = z; currency = c } ≡ m
unfolding new_money
same_money z c h = ground arith

-- A reversal appends the opposite of the entry.
abbrev pub Reverses : ℕ → ℕ → Db → Db → Type 0
Reverses account id db next =
    (orig : WalletEntry) × (now : Time) × (find_where (λ e. e.id == id) db.wallet_entries
      ≡ some orig)
    × Posted
        (posting orig.wallet_id WalletEntryType.reversal_entry (opposite orig.direction) orig.source
          orig.amount (some id) (BusinessKey.wallet_reversal_key id) now db.wallet_entries)
        db next

pub reverse_wallet_entry-Reverses :
    (now : Time) (account id : ℕ) (db : Db) {next : Db}
    → reverse_wallet_entry now account id db ≡ ok next
    → Reverses account id db next
unfolding reverse_wallet_entry
reverse_wallet_entry-Reverses now account id db {next} h =
    let (_, h1) = >>-eq-ok (lock_account account db) _ h in
    let (orig, found, h2) =
      >>=-eq-ok
        (or_error (find_where (λ e. e.id == id) db.wallet_entries) (db_error Code.not_found)) _
        h1 in
    let (w, _, h3) = >>=-eq-ok (lock_wallet orig.wallet_id db) _ h2 in
    let (_, h4) =
      >>-eq-ok (fail_if (not (w.billing_account_id == account)) (new_error Code.invalid_input)) _
        h3 in
    let (m, money, h5) = >>=-eq-ok (new_money orig.amount.micros orig.amount.currency) _ h4 in
    let (rev, reversed, h6) = >>=-eq-ok (reversal_of (spec_of orig m)) _ h5 in
    let (_, _, h7) = >>=-eq-ok (lock_wallet orig.wallet_id db) _ h6 in
    let (d, s) = opposite_of orig m reversed in
    let make = λ (x : WalletDirection) (y : WalletSource) (z : Money).
      posting orig.wallet_id WalletEntryType.reversal_entry x y z (some id)
        (BusinessKey.wallet_reversal_key id) now db.wallet_entries in
    (
      orig,
      now,
      or_error-eq-ok _ _ found,
      subst (λ z. Posted (make (opposite orig.direction) orig.source z) db next)
          (sym (same_money orig.amount.micros orig.amount.currency money))
          (subst (λ y. Posted (make (opposite orig.direction) y m) db next) s
            (subst (λ x. Posted (make x rev.source m) db next) d (post-Posted _ db h7))),
    )

pub set_overage-Idle :
    (uuid account : ℕ) (currency : List ℕ) (new : OverageSettings) (by : ℕ) (db : Db)
    {out : Db × WalletRow}
    → set_overage uuid account currency new by db ≡ ok out
    → Idle db out.0
unfolding set_overage
set_overage-Idle uuid account currency new by db h =
    let (_, h1) = >>-eq-ok (validate_settings new) _ h in
    let (_, h2) = >>-eq-ok (lock_account account db) _ h1 in
    let (opened, h3, h4) = >>=-eq-ok (get_or_create_wallet uuid account currency by db) _ h2 in
    let (db1, wallet, created) = opened in
    let (_, _, h5) = >>=-eq-ok (lock_wallet wallet.id db1) _ h4 in
    let (rows, _, h6) =
      >>=-eq-ok
        (or_error (update_row (λ w. w.id == wallet.id) (λ w. true) (with_settings new) db1.wallets)
          (db_error Code.not_found))
        _ h5 in
    subst (λ o. Idle db o.0) (ok_injective h6)
      (Idle-trans db db1 _ (get_or_create_wallet-Idle uuid account currency by db h3) (record {
        entries = refl;
        holds = refl;
        quiet = record { windows = refl; reservations = refl; requests = refl };
      }))
