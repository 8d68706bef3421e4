-- ===== src/Accounting/Overage/Gate.antt =====
-- internal/inference/accounting/overage.go: when wallet spending passes, and what is audited.
use yunhou_users.Common.{
  ℕ, ◌≡◌, ◌↔◌, refl, Bool, true, inl, inr, Option, Option-cases, none, some, [], ℤ, pos, ◌+ℤ◌, ◌≤ℤ◌,
  ◌<ℤ◌, max_int64, arith, add64, add64_exact, wrap64, eq_of_parts, ap, +ℤ_parts, int_laws,
}
use yunhou_users.Domain.Errors.{ok}
use yunhou_users.Accounting.Overage.{
  OverageSettings, check_wallet_spend, audit_for_change, same_int64_ptr,
}

none_or_some : (o : Option ℤ) (n : ℤ) → o ≡ none → o ≡ some n → ⊥
none_or_some o n h g = cc

-- Where the month's spend and the hold are not negative and fit an int64 together, a hold passes
-- exactly when the customer enabled the spending, has set a limit, and the spend stays within the
-- limit with it.
pub check_wallet_spend_iff :
    (s : OverageSettings) (spent hold : ℤ)
    → pos 0 ≤ℤ spent
    → pos 0 ≤ℤ hold
    → spent +ℤ hold ≤ℤ pos max_int64
    → (check_wallet_spend s spent hold ≡ ok tt) ↔ (
        (s.enabled ≡ true)
        × ((limit : ℤ) × (s.monthly_spend_limit_micros ≡ some limit) × (spent +ℤ hold ≤ℤ limit)))
unfolding check_wallet_spend
check_wallet_spend_iff s spent hold hs hh small =
    let e : add64 spent hold ≡ spent +ℤ hold = add64_exact spent hold (omega int_laws) in
    let parts = +ℤ_parts spent hold in
    elim (Option-cases s.monthly_spend_limit_micros) [
      | inl absent ↦ (
        λ h. absurd (ground (arith, e)),
        λ r. absurd (none_or_some s.monthly_spend_limit_micros r.1.0 absent r.1.1),
      )
      | inr (limit, el) ↦ (
        λ h. (ground (arith, e), (limit, el, ground (arith, e))),
        λ r. ground (arith, e, r.0, r.1.1, r.1.2),
      )
    ]

-- The sum wraps around: where the spend and the hold, neither negative, pass the largest int64
-- together, the hold passes whatever the limit of the enabled settings is.
pub check_wallet_spend_wraps :
    (spent hold limit : ℤ)
    → pos 0 ≤ℤ spent
    → spent ≤ℤ pos max_int64
    → pos 0 ≤ℤ hold
    → hold ≤ℤ pos max_int64
    → pos 0 ≤ℤ limit
    → pos max_int64 <ℤ spent +ℤ hold
    → check_wallet_spend
        (record { enabled = true; monthly_spend_limit_micros = some limit })
        spent
        hold
      ≡ ok tt
unfolding check_wallet_spend add64 wrap64 ◌+ℤ◌
check_wallet_spend_wraps spent hold limit h1 h2 h3 h4 h5 h6 = ground arith

same_ptr_iff : (a b : Option ℤ) → (same_int64_ptr a b ≡ true) ↔ (a ≡ b)
unfolding same_int64_ptr
same_ptr_iff none none = (λ _. refl, λ _. refl)
same_ptr_iff none (some b) = (λ h. cc, λ h. cc)
same_ptr_iff (some a) none = (λ h. cc, λ h. cc)
same_ptr_iff (some a) (some b) = (λ h. ap some (eq_of_parts a b (ground arith)), λ h. ground arith)

-- A change of the settings of an existing wallet leaves no audit row exactly when it changes
-- neither the switch nor the limit; the creation of a wallet always leaves one.
pub audit_for_change_empty_iff :
    (exists : Bool) (old new : OverageSettings) (by : ℕ)
    → (audit_for_change exists old new by ≡ []) ↔ (
        (exists ≡ true)
        × (old.enabled ≡ new.enabled)
        × (old.monthly_spend_limit_micros ≡ new.monthly_spend_limit_micros))
unfolding audit_for_change
audit_for_change_empty_iff exists old new by =
    let same = same_ptr_iff old.monthly_spend_limit_micros new.monthly_spend_limit_micros in
    (λ h. ground (arith, same), λ h. ground (arith, same))
