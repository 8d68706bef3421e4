-- ===== src/Store/Wallet/Examples.antt =====
-- internal/inference/postgres/wallet_repo.go: the theorems at a concrete wallet.
use yunhou_users.Common.{
  ℕ, ◌+◌, ◌≡◌, refl, true, none, some, List, [], ◌∷◌, pos, ◌+ℤ◌, ◌-ℤ◌, arith, add64, sub64, eqb,
}
use yunhou_users.Domain.Errors.{Result, ok, err}
use yunhou_users.Domain.Usage.{RequestStatus, UsageSource}
use yunhou_users.Accounting.Wallet.{min_ℤ, clamp}
use yunhou_users.Store.Wallet.{BusinessKey}
use yunhou_users.Store.Wallet.Sums.{sum_entries, sum_held, sum_spend}
use yunhou_users.Store.Wallet.Postings.{WalletTopupCommand, credit_topup}
use yunhou_users.Store.Wallet.Freeze.{ReserveWalletCommand, reserve_wallet}
use yunhou_users.Store.Wallet.Steps.{Applies, topups, freezes, here, then_step}
use yunhou_users.Store.Wallet.Once.{applied_once}
use yunhou_users.Store.Wallet.Funded.{IsBounded}
use yunhou_users.Store.Wallet.Covered.{IsFunded, reserve_wallet-IsFunded}
use yunhou_users.Store.Quota.{ChargeSource, Db}

abbrev yuan : List ℕ
yuan = b'C' ∷ b'N' ∷ b'Y' ∷ []

-- Account 1 with the wallet 3, whose owner allows 500 a month.
abbrev initial : Db
initial = record {
  accounts = record { id = 1; active = true } ∷ [];
  windows = [];
  keys = [];
  requests = [];
  reservations = [];
  usage_records = [];
  ledger = [];
  jobs = [];
  attempts = [];
  wallets =
      record {
        id = 3;
        billing_account_id = 1;
        currency = yuan;
        overage_enabled = true;
        monthly_spend_limit_micros = some (pos 500);
      }
      ∷ [];
  wallet_holds = [];
  wallet_entries = [];
  adjustments = [];
  wallet_audits = [];
}

abbrev get : Result Db → Db
get (ok db) = db
get (err e) = initial

abbrev payment : WalletTopupCommand
payment = record { account_id = 1; currency = yuan; amount_micros = pos 300; payment_id = 21 }

abbrev paid : Db
paid = get (credit_topup 4 50 payment initial)

pays_it : credit_topup 4 50 payment initial ≡ ok paid
unfolding credit_topup eqb
pays_it = refl

abbrev call : ReserveWalletCommand
call = record {
  request = record {
    id = 7;
    billing_account_id = 1;
    status = RequestStatus.authenticated;
    admitted_at = none;
    price_version_id = none;
    window_five_hour_id = none;
    window_weekly_id = none;
    window_monthly_id = none;
    reserved_micros = none;
    settled_micros = none;
    charge_source = ChargeSource.plan;
    usage_status = UsageSource.pending;
    completed_at = none;
  };
  wallet_id = 3;
  hold_micros = pos 200;
  price_version_id = 5;
  admitted_at = 60;
  month_start = 0;
  month_end = 100;
}

abbrev uuids : ℕ → ℕ
uuids n = 40 + n

abbrev held : Db
held = get (reserve_wallet uuids (ok tt) call paid)

holds_it : reserve_wallet uuids (ok tt) call paid ≡ ok held
unfolding credit_topup reserve_wallet eqb add64 sub64 min_ℤ clamp
holds_it = refl

applied_once_example : ¬ Applies held paid (BusinessKey.wallet_topup_key 21)
applied_once_example =
    applied_once (BusinessKey.wallet_topup_key 21) initial paid held paid
      (topups 4 50 payment pays_it) (then_step here (freezes uuids (ok tt) call holds_it))

paid-IsBounded : IsBounded 3 0 100 (pos 200) paid
unfolding credit_topup eqb sum_entries sum_held sum_spend ◌+ℤ◌ ◌-ℤ◌
paid-IsBounded = record {
  held = omega arith;
  net_cash = omega arith;
  net_bonus = omega arith;
  cash = omega arith;
  bonus = omega arith;
  both = omega arith;
  with_cash = omega arith;
  spent = omega arith;
  with_hold = omega arith;
}

reserve_wallet-IsFunded_example : IsFunded call paid held
reserve_wallet-IsFunded_example =
    reserve_wallet-IsFunded uuids (ok tt) call paid holds_it paid-IsBounded
