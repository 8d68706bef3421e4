-- ===== src/Accounting/Reconciliation.antt =====
-- internal/inference/accounting/reconciliation.go: the used aggregate, rebuilt from ledger facts.
pub mod Laws
use yunhou_users.Common.{
  ℕ, Bool, not, Option, List, [], ◌∷◌, ℤ, pos, eqb_ℤ, ltb_ℤ, add64, sub64, if◌then◌else◌,
}
use yunhou_users.Domain.Errors.{
  WindowKind, Code, Sentinel, sentinel, new_error, wrap_error, Result, ok, err, ◌>>=◌,
}
use yunhou_users.Domain.Usage.{LedgerEntryType}

pub data FactDirection : Type 0 where
  debit credit no_direction : FactDirection

pub record LedgerFact : Type 0 where
  pub type : LedgerEntryType
  pub amount_micros : ℤ
  pub direction : FactDirection

abbrev apply_adjustment : ℤ → ℤ → FactDirection → Result ℤ
apply_adjustment total amount FactDirection.debit = ok (add64 total amount)
apply_adjustment total amount FactDirection.credit = ok (sub64 total amount)
apply_adjustment total amount FactDirection.no_direction = err (new_error Code.invalid_input)

abbrev apply_type : LedgerEntryType → ℤ → ℤ → FactDirection → Result ℤ
apply_type LedgerEntryType.charge total amount d = ok (add64 total amount)
apply_type LedgerEntryType.reversal total amount d = ok (sub64 total amount)
apply_type LedgerEntryType.adjustment total amount d = apply_adjustment total amount d
apply_type LedgerEntryType.unknown_type total amount d = err (new_error Code.invalid_input)

-- One round of the loop.
unfoldable pub apply_fact : ℤ → LedgerFact → Result ℤ
apply_fact total f =
    if ltb_ℤ f.amount_micros (pos 0)
    then err (wrap_error Code.invalid_input (sentinel Sentinel.negative_value))
    else apply_type f.type total f.amount_micros f.direction

unfoldable pub rebuild_from : ℤ → List LedgerFact → Result ℤ
unfolding apply_fact
rebuild_from total [] = ok total
rebuild_from total (f ∷ facts) = apply_fact total f >>= λ t. rebuild_from t facts

unfoldable pub rebuild_used_micros : List LedgerFact → Result ℤ
unfolding rebuild_from
rebuild_used_micros facts = rebuild_from (pos 0) facts

pub record WindowReconciliation : Type 0 where
  pub window_id : ℕ
  pub kind : WindowKind
  pub stored_used : ℤ
  pub rebuilt_used : ℤ

unfoldable pub diff : WindowReconciliation → ℤ
diff r = sub64 r.rebuilt_used r.stored_used

unfoldable pub mismatches : List WindowReconciliation → List WindowReconciliation
unfolding diff
mismatches [] = []
mismatches (r ∷ rs) =
    let rest = mismatches rs in if not (eqb_ℤ (diff r) (pos 0)) then r ∷ rest else rest
