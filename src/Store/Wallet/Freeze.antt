-- ===== src/Store/Wallet/Freeze.antt =====
-- internal/inference/postgres/wallet_repo.go: `ReserveWallet`, the admission of a request that a wallet pays.
use yunhou_users.Common.{
  ℕ, Bool, not, ◌||◌, ◌&&◌, Option, none, some, List, ◌∷◌, ℤ, pos, ltb_ℤ, leb_ℤ, add64, eqb_ℤ, ◌+ℤ◌,
  if◌then◌else◌, ◌==◌,
}
use yunhou_users.Domain.Errors.{
  Time, Code, Sentinel, sentinel, new_error, wrap_error, Result, ok, ◌>>=◌, ◌>>◌, fail_if,
}
use yunhou_users.Domain.Usage.{RequestStatus, ReservationState, ReservationTargetKind}
use yunhou_users.Accounting.Wallet.{WalletSums, derive_wallet_balance, split_freeze}
use yunhou_users.Accounting.Overage.{check_wallet_spend}
use yunhou_users.Store.Table.{any, db_error}
use yunhou_users.Store.Wallet.{WalletHold}
use yunhou_users.Store.Wallet.Sums.{wallet_sums, month_spend}
use yunhou_users.Store.Wallet.Settings.{lock_wallet, settings}
use yunhou_users.Store.Quota.{ChargeSource, Reservation, Request, Db, lock_account}
use yunhou_users.Store.Quota.Reserve.{insert_request, insert_reservation}

-- An empty price version is 0.
pub record ReserveWalletCommand : Type 0 where
  pub request : Request
  pub wallet_id : ℕ
  pub hold_micros : ℤ
  pub price_version_id : ℕ
  pub admitted_at : Time
  pub month_start : Time
  pub month_end : Time

abbrev pub pinned_version : ℕ → Option ℕ → Option ℕ
pinned_version version old = if version == 0 then old else some version

abbrev pub wallet_request : ReserveWalletCommand → Request
wallet_request cmd = record cmd.request {
  status = RequestStatus.reserved;
  admitted_at = some cmd.admitted_at;
  charge_source = ChargeSource.wallet;
  price_version_id = pinned_version cmd.price_version_id cmd.request.price_version_id;
  reserved_micros = some cmd.hold_micros;
}

abbrev pub hold_row : ℕ → ℤ → ℤ → ReserveWalletCommand → WalletHold
hold_row id cash bonus cmd = record {
  id = id;
  request_id = cmd.request.id;
  wallet_id = cmd.wallet_id;
  amount = cmd.hold_micros;
  cash = cash;
  bonus = bonus;
  price_version_id = cmd.price_version_id;
  state = ReservationState.held;
}

-- The CHECKs on the amounts.
abbrev amounts_ok : WalletHold → Bool
amounts_ok h =
    leb_ℤ (pos 0) h.amount
    && leb_ℤ (pos 0) h.cash
    && leb_ℤ (pos 0) h.bonus
    && eqb_ℤ (h.cash +ℤ h.bonus) h.amount

-- INSERT INTO inference_wallet_holds; an empty price version is no UUID.
unfoldable pub insert_wallet_hold : WalletHold → List WalletHold → Result (List WalletHold)
unfolding ◌+ℤ◌
insert_wallet_hold h hs = do
  fail_if (h.price_version_id == 0) (db_error Code.invalid_input)
  fail_if (not (amounts_ok h)) (db_error Code.invalid_input)
  fail_if (any (λ g. g.id == h.id || g.request_id == h.request_id) hs) (db_error Code.conflict)
  ok (h ∷ hs)

abbrev pub wallet_reservation : ℕ → ReserveWalletCommand → Reservation
wallet_reservation id cmd = record {
  id = id;
  request_id = cmd.request.id;
  target_kind = ReservationTargetKind.wallet;
  window_id = none;
  api_key_id = none;
  amount = cmd.hold_micros;
  state = ReservationState.held;
}

-- The cash and the bonus of a hold; a hold of nothing does not look at the balance.
abbrev pub split_hold : ℤ → ℤ → ℤ → Result (ℤ × ℤ)
split_hold bonus_available cash_available hold =
    if ltb_ℤ (pos 0) hold
    then split_freeze bonus_available cash_available hold
    else ok (pos 0, pos 0)

-- The fourth step.
unfoldable pub persist_hold :
    (ℕ → ℕ) → Result (Unit {0}) → ReserveWalletCommand → ℤ → ℤ → Db → Result Db
unfolding insert_request insert_wallet_hold insert_reservation
persist_hold uuid others cmd cash bonus db = do
  requests ← insert_request others (wallet_request cmd) db.requests
  holds ← insert_wallet_hold (hold_row (uuid 0) cash bonus cmd) db.wallet_holds
  rs ← insert_reservation (wallet_reservation (uuid 1) cmd) db.reservations
  ok (record db { requests = requests; wallet_holds = holds; reservations = rs })

-- The gate on the settings, the month and what is in flight.
abbrev pub in_flight : ℤ → WalletSums → ℤ
in_flight spent sums = add64 (add64 spent sums.held_cash) sums.held_bonus

unfoldable pub reserve_wallet : (ℕ → ℕ) → Result (Unit {0}) → ReserveWalletCommand → Db → Result Db
unfolding lock_account lock_wallet wallet_sums month_spend check_wallet_spend derive_wallet_balance
    split_freeze persist_hold
reserve_wallet uuid others cmd db = do
  fail_if (ltb_ℤ cmd.hold_micros (pos 0))
      (wrap_error Code.invalid_input (sentinel Sentinel.negative_value))
  lock_account cmd.request.billing_account_id db
  wallet ← lock_wallet cmd.wallet_id db
  fail_if (not (wallet.billing_account_id == cmd.request.billing_account_id))
      (new_error Code.invalid_input)
  sums ← wallet_sums wallet.id db
  spent ← month_spend wallet.id cmd.month_start cmd.month_end db
  check_wallet_spend (settings wallet) (in_flight spent sums) cmd.hold_micros
  balance ← derive_wallet_balance wallet.currency sums
  (cash, bonus) ← split_hold balance.bonus_available balance.cash_available cmd.hold_micros
  persist_hold uuid others cmd cash bonus db
