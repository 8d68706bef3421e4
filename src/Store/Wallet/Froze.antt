-- ===== src/Store/Wallet/Froze.antt =====
-- internal/inference/postgres/wallet_repo.go: what `ReserveWallet` did to the tables.
use mathlib.Core.Path.{subst}
use yunhou_users.Common.{
  ℕ, ◌≡◌, ◌≢◌, refl, sym, Bool, not, ◌||◌, List, ◌∷◌, ℤ, pos, ltb_ℤ, ◌==◌, All,
}
use yunhou_users.Domain.Errors.{
  Code, Result, ok, >>=-eq-ok, >>-eq-ok, ok_injective, fail_if, fail_if-eq-ok, new_error,
}
use yunhou_users.Accounting.Wallet.{WalletSums, WalletBalance, derive_wallet_balance}
use yunhou_users.Accounting.Overage.{check_wallet_spend}
use yunhou_users.Store.Table.{any, db_error}
use yunhou_users.Store.Wallet.{WalletRow, WalletHold}
use yunhou_users.Store.Wallet.Sums.{wallet_sums, month_spend}
use yunhou_users.Store.Wallet.Settings.{lock_wallet, settings}
use yunhou_users.Store.Wallet.Freeze.{
  ReserveWalletCommand, wallet_request, hold_row, insert_wallet_hold, wallet_reservation,
  split_hold, persist_hold, in_flight, reserve_wallet,
}
use yunhou_users.Store.Quota.{Request, Db, lock_account}
use yunhou_users.Store.Quota.Reserve.{insert_request, insert_reservation}
use yunhou_users.Store.Quota.Admission.{any-All}

-- The rows that were inserted.
pub record Froze (uuid : ℕ → ℕ) (cmd : ReserveWalletCommand) (cash bonus : ℤ) (db next : Db)
    : Type 0 where
  pub fresh : All (λ r. r.id ≢ cmd.request.id) db.requests
  pub requests : next.requests ≡ wallet_request cmd ∷ db.requests
  pub holds : next.wallet_holds ≡ hold_row (uuid 0) cash bonus cmd ∷ db.wallet_holds
  pub reserved :
      insert_reservation (wallet_reservation (uuid 1) cmd) db.reservations ≡ ok next.reservations
  pub entries : next.wallet_entries ≡ db.wallet_entries
  pub windows : next.windows ≡ db.windows

insert_request_ok :
    (others : Result (Unit {0})) (r : Request) (rs : List Request) {next : List Request}
    → insert_request others r rs ≡ ok next
    → All (λ q. q.id ≢ r.id) rs × (next ≡ r ∷ rs)
unfolding insert_request
insert_request_ok others r rs h =
    let (p, h1) = >>-eq-ok (fail_if (any (λ q. q.id == r.id) rs) _) _ h in
    let (_, h2) = >>-eq-ok others _ h1 in
    (any-All (λ q. q.id) r.id rs (fail_if-eq-ok _ _ p), sym (ok_injective h2))

insert_wallet_hold_ok :
    (h : WalletHold) (hs : List WalletHold) {next : List WalletHold}
    → insert_wallet_hold h hs ≡ ok next
    → next ≡ h ∷ hs
unfolding insert_wallet_hold
insert_wallet_hold_ok h hs e =
    let (_, e1) = >>-eq-ok (fail_if (h.price_version_id == 0) _) _ e in
    let (_, e2) = >>-eq-ok (fail_if _ (db_error Code.invalid_input)) _ e1 in
    let (_, e3) =
      >>-eq-ok (fail_if (any (λ g. g.id == h.id || g.request_id == h.request_id) hs) _) _ e2 in
    sym (ok_injective e3)

persist_hold-Froze :
    (uuid : ℕ → ℕ) (others : Result (Unit {0})) (cmd : ReserveWalletCommand) (cash bonus : ℤ)
    (db : Db) {next : Db}
    → persist_hold uuid others cmd cash bonus db ≡ ok next
    → Froze uuid cmd cash bonus db next
unfolding persist_hold
persist_hold-Froze uuid others cmd cash bonus db h =
    let (requests, h1, h2) =
      >>=-eq-ok (insert_request others (wallet_request cmd) db.requests) _ h in
    let (holds, h3, h4) =
      >>=-eq-ok (insert_wallet_hold (hold_row (uuid 0) cash bonus cmd) db.wallet_holds) _ h2 in
    let (rs, h5, h6) =
      >>=-eq-ok (insert_reservation (wallet_reservation (uuid 1) cmd) db.reservations) _ h4 in
    let (fresh, t) = insert_request_ok others (wallet_request cmd) db.requests h1 in
    subst (Froze uuid cmd cash bonus db) (ok_injective h6) (record {
      fresh = fresh;
      requests = t;
      holds = insert_wallet_hold_ok (hold_row (uuid 0) cash bonus cmd) db.wallet_holds h3;
      reserved = h5;
      entries = refl;
      windows = refl;
    })

-- The readings on which the admission was decided.
pub record Admits (uuid : ℕ → ℕ) (cmd : ReserveWalletCommand) (db next : Db) : Type 0 where
  pub wallet : WalletRow
  pub sums : WalletSums
  pub spent : ℤ
  pub balance : WalletBalance
  pub cash : ℤ
  pub bonus : ℤ
  pub nonneg : ltb_ℤ cmd.hold_micros (pos 0) ≡ Bool.false
  pub found : lock_wallet cmd.wallet_id db ≡ ok wallet
  pub summed : wallet_sums wallet.id db ≡ ok sums
  pub spending : month_spend wallet.id cmd.month_start cmd.month_end db ≡ ok spent
  pub allowed : check_wallet_spend (settings wallet) (in_flight spent sums) cmd.hold_micros ≡ ok tt
  pub derived : derive_wallet_balance wallet.currency sums ≡ ok balance
  pub parts :
      split_hold balance.bonus_available balance.cash_available cmd.hold_micros ≡ ok (cash, bonus)
  pub froze : Froze uuid cmd cash bonus db next

pub reserve_wallet-Admits :
    (uuid : ℕ → ℕ) (others : Result (Unit {0})) (cmd : ReserveWalletCommand) (db : Db) {next : Db}
    → reserve_wallet uuid others cmd db ≡ ok next
    → Admits uuid cmd db next
unfolding reserve_wallet
reserve_wallet-Admits uuid others cmd db h =
    let (p, h1) = >>-eq-ok (fail_if (ltb_ℤ cmd.hold_micros (pos 0)) _) _ h in
    let (_, h2) = >>-eq-ok (lock_account cmd.request.billing_account_id db) _ h1 in
    let (wallet, found, h3) = >>=-eq-ok (lock_wallet cmd.wallet_id db) _ h2 in
    let (_, h4) =
      >>-eq-ok
        (fail_if (not (wallet.billing_account_id == cmd.request.billing_account_id))
          (new_error Code.invalid_input))
        _ h3 in
    let (sums, summed, h5) = >>=-eq-ok (wallet_sums wallet.id db) _ h4 in
    let (spent, spending, h6) =
      >>=-eq-ok (month_spend wallet.id cmd.month_start cmd.month_end db) _ h5 in
    let (allowed, h7) =
      >>-eq-ok (check_wallet_spend (settings wallet) (in_flight spent sums) cmd.hold_micros) _ h6 in
    let (balance, derived, h8) = >>=-eq-ok (derive_wallet_balance wallet.currency sums) _ h7 in
    let (both, parts, h9) =
      >>=-eq-ok (split_hold balance.bonus_available balance.cash_available cmd.hold_micros) _ h8 in
    let (cash, bonus) = both in
    record {
      wallet = wallet;
      sums = sums;
      spent = spent;
      balance = balance;
      cash = cash;
      bonus = bonus;
      nonneg = fail_if-eq-ok _ _ p;
      found = found;
      summed = summed;
      spending = spending;
      allowed = allowed;
      derived = derived;
      parts = parts;
      froze = persist_hold-Froze uuid others cmd cash bonus db h9;
    }
