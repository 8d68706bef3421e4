-- ===== src/Accounting/Wallet.antt =====
-- internal/inference/accounting/wallet.go: the entries of the prepaid wallet, the split of a hold into
-- cash and bonus, and the balance derived from the ledger.
pub mod Entries
pub mod Split
pub mod Major
use yunhou_users.Common.{
  ℕ, ◌+◌, Bool, true, false, not, ◌&&◌, ◌||◌, List, ℤ, pos, leb_ℤ, ltb_ℤ, eqb_ℤ, add64, sub64,
  if◌then◌else◌,
}
use yunhou_users.Domain.Errors.{
  Code, Sentinel, Error, sentinel, new_error, wrap_error, Result, ok, err, ◌>>=◌, ◌>>◌, fail_if,
}
use yunhou_users.Domain.Money.{Money, new_money}
use yunhou_users.Domain.Rate.{RoundingMode, round_down, round_up, micros_for_units}
use yunhou_users.Domain.Rate.Decimal.{parse_decimal}

pub data WalletSource : Type 0 where
  cash bonus unknown_source : WalletSource

pub data WalletEntryType : Type 0 where
  topup bonus_entry consume refund adjustment_entry reversal_entry unknown_entry : WalletEntryType

pub data WalletDirection : Type 0 where
  debit credit : WalletDirection

pub record WalletEntrySpec : Type 0 where
  pub type : WalletEntryType
  pub direction : WalletDirection
  pub source : WalletSource
  pub amount : Money

abbrev is_credit : WalletDirection → Bool
is_credit WalletDirection.credit = true
is_credit WalletDirection.debit = false

abbrev is_cash : WalletSource → Bool
is_cash WalletSource.cash = true
is_cash _ = false

abbrev is_bonus : WalletSource → Bool
is_bonus WalletSource.bonus = true
is_bonus _ = false

abbrev validate_source : WalletSource → Result (Unit {0})
validate_source WalletSource.unknown_source = err (new_error Code.invalid_input)
validate_source _ = ok tt

-- The rule of each entry type.
abbrev validate_type : WalletEntryType → WalletDirection → WalletSource → Result (Unit {0})
validate_type WalletEntryType.topup d s =
    fail_if (not (is_credit d) || not (is_cash s)) (new_error Code.invalid_input)
validate_type WalletEntryType.bonus_entry d s =
    fail_if (not (is_credit d) || not (is_bonus s)) (new_error Code.invalid_input)
validate_type WalletEntryType.consume d s = fail_if (is_credit d) (new_error Code.invalid_input)
validate_type WalletEntryType.refund d s =
    fail_if (is_credit d || not (is_cash s)) (sentinel Sentinel.bonus_not_refundable)
validate_type WalletEntryType.adjustment_entry d s = ok tt
validate_type WalletEntryType.reversal_entry d s = ok tt
validate_type WalletEntryType.unknown_entry d s = err (new_error Code.invalid_input)

unfoldable pub validate_wallet_entry : WalletEntrySpec → Result (Unit {0})
validate_wallet_entry e = do
  fail_if (leb_ℤ e.amount.micros (pos 0))
      (wrap_error Code.invalid_input (sentinel Sentinel.negative_value))
  validate_source e.source
  validate_type e.type e.direction e.source

abbrev pub opposite : WalletDirection → WalletDirection
opposite WalletDirection.debit = WalletDirection.credit
opposite WalletDirection.credit = WalletDirection.debit

abbrev pub is_reversal : WalletEntryType → Bool
is_reversal WalletEntryType.reversal_entry = true
is_reversal _ = false

unfoldable pub reversal_of : WalletEntrySpec → Result WalletEntrySpec
reversal_of orig =
    if is_reversal orig.type
    then err (new_error Code.invalid_input)
    else ok (record {
      type = WalletEntryType.reversal_entry;
      direction = opposite orig.direction;
      source = orig.source;
      amount = orig.amount;
    })

-- Go's `min` on int64.
unfoldable pub min_ℤ : ℤ → ℤ → ℤ
min_ℤ a b = if ltb_ℤ b a then b else a

unfoldable pub clamp : ℤ → ℤ
clamp a = if ltb_ℤ a (pos 0) then pos 0 else a

-- The cash and the bonus of a hold. The source sets a negative `cashAvailable` to zero behind the test of
-- the sum as well, and does not read it again.
unfoldable pub split_freeze : ℤ → ℤ → ℤ → Result (ℤ × ℤ)
split_freeze bonus_available cash_available amount =
    if leb_ℤ amount (pos 0)
    then err (wrap_error Code.invalid_input (sentinel Sentinel.negative_value))
    else if ltb_ℤ (add64 bonus_available cash_available) amount
    then err (sentinel Sentinel.insufficient_funds)
    else let bonus_part = min_ℤ amount (clamp bonus_available) in
      ok (sub64 amount bonus_part, bonus_part)

-- The consumed cash and bonus within the hold, and the cash beyond it.
unfoldable pub split_consume : ℤ → ℤ → ℤ → Result (ℤ × ℤ × ℤ)
split_consume hold_cash hold_bonus charge =
    if ltb_ℤ charge (pos 0)
    then err (wrap_error Code.invalid_input (sentinel Sentinel.negative_value))
    else let consume_bonus = min_ℤ charge hold_bonus in
      let rem = sub64 charge consume_bonus in
      let consume_cash = min_ℤ rem hold_cash in
      ok (consume_cash, consume_bonus, sub64 rem consume_cash)

unfoldable pub split_release : ℤ → ℤ → ℤ → ℤ → Result (ℤ × ℤ)
split_release hold_cash hold_bonus consume_cash consume_bonus =
    if ltb_ℤ hold_cash consume_cash
      || ltb_ℤ hold_bonus consume_bonus
      || ltb_ℤ consume_cash (pos 0)
      || ltb_ℤ consume_bonus (pos 0)
    then err (new_error Code.invalid_input)
    else ok (sub64 hold_cash consume_cash, sub64 hold_bonus consume_bonus)

pub record WalletSums : Type 0 where
  pub cash_credit : ℤ
  pub cash_debit : ℤ
  pub bonus_credit : ℤ
  pub bonus_debit : ℤ
  pub held_cash : ℤ
  pub held_bonus : ℤ

pub record WalletBalance : Type 0 where
  pub currency : List ℕ
  pub cash_available : ℤ
  pub bonus_available : ℤ
  pub cash_held : ℤ
  pub bonus_held : ℤ

unfoldable pub derive_wallet_balance : List ℕ → WalletSums → Result WalletBalance
unfolding new_money
derive_wallet_balance currency s = do
  _ ← new_money (pos 0) currency
  ok (record {
    currency = currency;
    cash_available = sub64 (sub64 s.cash_credit s.cash_debit) s.held_cash;
    bonus_available = sub64 (sub64 s.bonus_credit s.bonus_debit) s.held_bonus;
    cash_held = s.held_cash;
    bonus_held = s.held_bonus;
  })

abbrev pub micros_per_major : ℤ
micros_per_major = pos 1000000

-- The two roundings agree, or the amount is finer than a micro.
unfoldable pub exact_or_refuse : ℤ → ℤ → Result ℤ
exact_or_refuse down up =
    if not (eqb_ℤ up down) then err (new_error Code.invalid_input) else ok down

-- `MicrosFromDecimalMajor`: the amount, if it is a whole number of micros.
unfoldable pub micros_from_decimal_major : List ℕ → List ℕ → Result ℤ
unfolding new_money parse_decimal micros_for_units exact_or_refuse
micros_from_decimal_major dec currency = do
  _ ← new_money (pos 0) currency
  rate ← parse_decimal dec
  micros ← micros_for_units rate micros_per_major round_down
  up ← micros_for_units rate micros_per_major round_up
  exact_or_refuse micros up
