-- ===== src/Accounting/Overage.antt =====
-- internal/inference/accounting/overage.go: the gate of wallet spending outside the plan, and the
-- audit rows of a change of its settings. Names of persons are only stored, so they are numbers.
pub mod Gate
use yunhou_users.Common.{
  ℕ, Bool, true, false, not, ◌&&◌, ◌||◌, Option, none, some, List, [], ◌∷◌, ◌++◌, ℤ, pos, ltb_ℤ,
  eqb_ℤ, add64, if◌then◌else◌,
}
use yunhou_users.Domain.Errors.{
  Code, Sentinel, Error, sentinel, new_error, wrap_error, Result, ok, err, ◌>>=◌, ◌>>◌, fail_if,
}

pub record OverageSettings : Type 0 where
  pub enabled : Bool
  pub monthly_spend_limit_micros : Option ℤ

abbrev is_nil : Option ℤ → Bool
is_nil none = true
is_nil (some _) = false

abbrev is_negative : Option ℤ → Bool
is_negative none = false
is_negative (some n) = ltb_ℤ n (pos 0)

-- `OverageSettings.Validate`
unfoldable pub validate_settings : OverageSettings → Result (Unit {0})
validate_settings s = do
  fail_if (s.enabled && is_nil s.monthly_spend_limit_micros) (new_error Code.invalid_input)
  fail_if (is_negative s.monthly_spend_limit_micros)
      (wrap_error Code.invalid_input (sentinel Sentinel.negative_value))

-- `monthSpent+hold > *limit`, in int64; a nil limit is refused before.
abbrev over_limit : ℤ → ℤ → Option ℤ → Bool
over_limit month_spent hold none = false
over_limit month_spent hold (some limit) = ltb_ℤ limit (add64 month_spent hold)

unfoldable pub check_wallet_spend : OverageSettings → ℤ → ℤ → Result (Unit {0})
unfolding validate_settings
check_wallet_spend s month_spent hold = do
  validate_settings s
  fail_if (not s.enabled) (sentinel Sentinel.overage_disabled)
  fail_if (ltb_ℤ hold (pos 0) || ltb_ℤ month_spent (pos 0))
      (wrap_error Code.invalid_input (sentinel Sentinel.negative_value))
  fail_if (over_limit month_spent hold s.monthly_spend_limit_micros)
      (wrap_error Code.quota_exceeded (sentinel Sentinel.spend_limit_exceeded))

pub data AuditAction : Type 0 where
  create enable_overage disable_overage set_spend_limit : AuditAction

pub record OverageAuditSpec : Type 0 where
  pub action : AuditAction
  pub changed_by : ℕ
  pub old_enabled : Option Bool
  pub new_enabled : Option Bool
  pub old_limit_micros : Option ℤ
  pub new_limit_micros : Option ℤ

unfoldable pub same_int64_ptr : Option ℤ → Option ℤ → Bool
same_int64_ptr none none = true
same_int64_ptr none (some _) = false
same_int64_ptr (some _) none = false
same_int64_ptr (some a) (some b) = eqb_ℤ a b

abbrev bool_eqb : Bool → Bool → Bool
bool_eqb true b = b
bool_eqb false b = not b

abbrev row_if : Bool → OverageAuditSpec → List OverageAuditSpec
row_if c row = if c then row ∷ [] else []

abbrev change_row : AuditAction → OverageSettings → OverageSettings → ℕ → OverageAuditSpec
change_row action old new changed_by = record {
  action = action;
  changed_by = changed_by;
  old_enabled = some old.enabled;
  new_enabled = some new.enabled;
  old_limit_micros = old.monthly_spend_limit_micros;
  new_limit_micros = new.monthly_spend_limit_micros;
}

abbrev create_row : OverageSettings → ℕ → OverageAuditSpec
create_row new changed_by = record {
  action = AuditAction.create;
  changed_by = changed_by;
  old_enabled = none;
  new_enabled = some new.enabled;
  old_limit_micros = none;
  new_limit_micros = new.monthly_spend_limit_micros;
}

unfoldable pub audit_for_change :
    Bool → OverageSettings → OverageSettings → ℕ → List OverageAuditSpec
unfolding same_int64_ptr
audit_for_change exists old new changed_by =
    row_if (not exists) (create_row new changed_by)
    ++ (row_if (not (bool_eqb old.enabled new.enabled)) (
          change_row
            (if not new.enabled then AuditAction.disable_overage else AuditAction.enable_overage)
            old new changed_by)
        ++ row_if
            (not (same_int64_ptr old.monthly_spend_limit_micros new.monthly_spend_limit_micros))
            (change_row AuditAction.set_spend_limit old new changed_by))
