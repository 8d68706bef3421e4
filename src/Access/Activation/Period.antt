-- ===== src/Access/Activation/Period.antt =====
-- internal/inference/access/benefit_grant.go: the period that a paid coding-plan order buys.
use mathlib.Core.Path.{subst}
use yunhou_users.Common.{
  Option-cases, zero, arith, ℕ, suc, ◌+◌, ◌*◌, ◌≤◌, ◌≡◌, refl, sym, ap, ◌∙◌, inl, inr, Bool, true,
  false, Option, none, some, ℤ, pos, negsuc, ltb_ℤ, leb_ℤ, if◌then◌else◌, Bool-cases, eqb,
  wrap64_id,
}
use yunhou_users.Domain.Errors.{
  Time, ok, >>-eq-ok, >>=-eq-ok, Result-cases, fail_if-eq-ok, ok_injective,
}
use yunhou_users.Quota.Window.{add_duration}
use yunhou_users.Access.{Text}
use yunhou_users.Access.Activation.{
  SubscriptionState, OrderKind, CodingPlanActivation, Base, conflict, until, unexpired, eqb_opt,
  current_live, days_duration, fresh_from_now, roll_from, same_plan_base, live_base, fresh_base,
  base_of, apply_hint, clamp_hint, activation_of, resolve_coding_plan_activation,
}

-- Below the cap, an interval is its exact number of nanoseconds.
pub days_duration_exact : (n : ℕ) → n ≤ 105850 → days_duration (pos n) ≡ pos (n * 86400000000000)
unfolding days_duration
days_duration_exact n small =
    wrap64_id (pos (n * 86400000000000)) (omega (arith, small), omega (arith, small))

-- A base covers the interval from `now`, unless it is open-ended.
abbrev IsCovering : ℤ → Time → Base → Type 0
IsCovering days now conflict = Unit
IsCovering days now (until none) = Unit
IsCovering days now (until (some to)) =
    (n : ℕ) × (days ≡ pos (suc n)) × (now + suc n * 86400000000000 ≤ to)

if-IsCovering :
    (days : ℤ) (now : Time) (b : Bool) (x : Option Time) (y : Base)
    → IsCovering days now (until x)
    → IsCovering days now y
    → IsCovering days now (if b then until x else y)
if-IsCovering days now true x y h g = h
if-IsCovering days now false x y h g = g

add_days-IsCovering :
    (days : ℤ) (from now : Time)
    → ltb_ℤ (pos 105850) days ≡ false
    → now ≤ from
    → IsCovering days now
        (until (if leb_ℤ days (pos 0) then none else some (add_duration from (days_duration days))))
add_days-IsCovering (pos (suc n)) from now small late =
    let exact = days_duration_exact (suc n) (ground (arith, small)) in
    let more : leb_ℤ (pos (suc n)) (pos 0) ≡ false = ground arith in
    rw (more, exact) (n, refl, omega (arith, late))
add_days-IsCovering (pos zero) from now small late = tt
add_days-IsCovering (negsuc n) from now small late =
    let less : leb_ℤ (negsuc n) (pos 0) ≡ true = ground arith in rw less tt

fresh_from_now-IsCovering :
    (days : ℤ) (now : Time)
    → ltb_ℤ (pos 105850) days ≡ false
    → IsCovering days now (until (fresh_from_now days now))
unfolding fresh_from_now
fresh_from_now-IsCovering days now small = add_days-IsCovering days now now small (omega arith)

same_plan_base-IsCovering :
    (sub : SubscriptionState) (plan : Text) (days : ℤ) (now : Time)
    → ltb_ℤ (pos 105850) days ≡ false
    → unexpired sub.expires_at now ≡ true
    → IsCovering days now (same_plan_base sub plan days)
unfolding same_plan_base roll_from
same_plan_base-IsCovering sub plan days now small live = elim (Bool-cases (eqb sub.plan_id plan)) [
  | inr e ↦ rw e tt
  | inl e ↦ rw e (elim (Option-cases sub.expires_at) [
    | inl n ↦ rw n tt
    | inr (to, t) ↦
        let live' = rw t at live in
        rw t (add_days-IsCovering days to now small (ground (arith, live')))
  ])
]

live_base-IsCovering :
    (kind : OrderKind) (days : ℤ) (from : Option Text) (plan : Text) (sub : SubscriptionState)
    (now : Time) {base : Base}
    → ltb_ℤ (pos 105850) days ≡ false
    → unexpired sub.expires_at now ≡ true
    → live_base kind days from plan sub now ≡ ok base
    → IsCovering days now base
unfolding live_base
live_base-IsCovering OrderKind.new days from plan sub now small live h =
    subst (IsCovering days now) (ok_injective h)
      (same_plan_base-IsCovering sub plan days now small live)
live_base-IsCovering OrderKind.empty days from plan sub now small live h =
    subst (IsCovering days now) (ok_injective h)
      (same_plan_base-IsCovering sub plan days now small live)
live_base-IsCovering OrderKind.renewal days from plan sub now small live h =
    subst (IsCovering days now) (ok_injective h)
      (same_plan_base-IsCovering sub plan days now small live)
live_base-IsCovering OrderKind.upgrade days from plan sub now small live h =
    subst (IsCovering days now) (ok_injective h) (
      if-IsCovering days now (eqb_opt sub.plan_id from) _ _
        (fresh_from_now-IsCovering days now small)
        (same_plan_base-IsCovering sub plan days now small live))
live_base-IsCovering OrderKind.unknown_order_kind days from plan sub now small live h = cc

fresh_base-IsCovering :
    (kind : OrderKind) (days : ℤ) (now : Time) {base : Base}
    → ltb_ℤ (pos 105850) days ≡ false
    → fresh_base kind days now ≡ ok base
    → IsCovering days now base
unfolding fresh_base
fresh_base-IsCovering OrderKind.unknown_order_kind days now small h = cc
fresh_base-IsCovering OrderKind.new days now small h =
    subst (IsCovering days now) (ok_injective h) (fresh_from_now-IsCovering days now small)
fresh_base-IsCovering OrderKind.empty days now small h =
    subst (IsCovering days now) (ok_injective h) (fresh_from_now-IsCovering days now small)
fresh_base-IsCovering OrderKind.renewal days now small h =
    subst (IsCovering days now) (ok_injective h) (fresh_from_now-IsCovering days now small)
fresh_base-IsCovering OrderKind.upgrade days now small h =
    subst (IsCovering days now) (ok_injective h) (fresh_from_now-IsCovering days now small)

base_of-IsCovering :
    (kind : OrderKind) (days : ℤ) (from : Option Text) (plan : Text)
    (current : Option SubscriptionState) (now : Time) {base : Base}
    → ltb_ℤ (pos 105850) days ≡ false
    → base_of kind days from plan current now ≡ ok base
    → IsCovering days now base
unfolding base_of
base_of-IsCovering kind days from plan none now small h =
    fresh_base-IsCovering kind days now small h
base_of-IsCovering kind days from plan (some sub) now small h =
    elim (Bool-cases (current_live sub now)) [
      | inl e ↦
          let h' = rw e at h in
          live_base-IsCovering kind days from plan sub now small (ground (arith, e)) h'
      | inr e ↦ let h' = rw e at h in fresh_base-IsCovering kind days now small h'
    ]

clamp_hint_le :
    (hint now : Time) (n : ℕ)
    → suc n ≤ 105850
    → clamp_hint hint (pos (suc n)) now ≤ now + suc n * 86400000000000
clamp_hint_le hint now n small =
    let exact = days_duration_exact (suc n) small in rw (clamp_hint, exact) (ground arith)

-- The clamped hint is never past a base that covers the interval.
apply_hint_id :
    (hint : Option Time) (days : ℤ) (now : Time) (base : Option Time)
    → ltb_ℤ (pos 105850) days ≡ false
    → IsCovering days now (until base)
    → apply_hint hint days now base ≡ base
unfolding apply_hint
apply_hint_id none days now base small covers = refl
apply_hint_id (some hint) days now none small covers = refl
apply_hint_id (some hint) days now (some to) small (n, e, late) =
    let small' = rw e at small in
    let low = clamp_hint_le hint now n (ground (arith, small')) in rw e (ground (arith, low, late))

activation_of_id :
    (hint : Option Time) (days : ℤ) (now : Time) (base : Base)
    → ltb_ℤ (pos 105850) days ≡ false
    → IsCovering days now base
    → activation_of hint days now base ≡ activation_of none days now base
unfolding activation_of apply_hint
activation_of_id hint days now conflict small covers = refl
activation_of_id hint days now (until base) small covers =
    ap (λ to. record { expires_at = to; blocked = false })
      (apply_hint_id hint days now base small covers)

-- The hint of the payment channel has no effect: at every order, subscription and instant, the activation with a
-- hint is the activation without one.
pub resolve_coding_plan_activation-hint :
    (kind : OrderKind) (days : ℤ) (from : Option Text) (plan : Text)
    (current : Option SubscriptionState) (hint : Option Time) (now : Time)
    → resolve_coding_plan_activation kind days from plan current hint now
      ≡ resolve_coding_plan_activation kind days from plan current none now
unfolding resolve_coding_plan_activation
resolve_coding_plan_activation-hint kind days from plan current hint now =
    elim (Bool-cases (ltb_ℤ (pos 105850) days)) [
      | inl e ↦ rw e refl
      | inr e ↦ elim (Result-cases (base_of kind days from plan current now)) [
        | inr (failure, f) ↦ rw (e, f) refl
        | inl (base, b) ↦
            rw (e, b)
              (ap ok (
                activation_of_id hint days now base e
                  (base_of-IsCovering kind days from plan current now e b)))
      ]
    ]

activation_of-covers :
    (hint : Option Time) (days : ℤ) (now to : Time) (base : Base)
    → ltb_ℤ (pos 105850) days ≡ false
    → IsCovering days now base
    → (activation_of hint days now base).expires_at ≡ some to
    → IsCovering days now (until (some to))
unfolding activation_of
activation_of-covers hint days now to conflict small covers t = cc
activation_of-covers hint days now to (until base) small covers t =
    subst (λ b. IsCovering days now (until b))
      (sym (apply_hint_id hint days now base small covers) ∙ t) covers

-- An activation with an end is of an interval of at least one day, and gives at least the whole interval from now.
pub resolve_coding_plan_activation-covers :
    (kind : OrderKind) (days : ℤ) (from : Option Text) (plan : Text)
    (current : Option SubscriptionState) (hint : Option Time) (now to : Time)
    (a : CodingPlanActivation)
    → resolve_coding_plan_activation kind days from plan current hint now ≡ ok a
    → a.expires_at ≡ some to
    → (n : ℕ) × (days ≡ pos (suc n)) × (now + suc n * 86400000000000 ≤ to)
unfolding resolve_coding_plan_activation
resolve_coding_plan_activation-covers kind days from plan current hint now to a h t =
    let (passed, h') = >>-eq-ok _ _ h in
    let small = fail_if-eq-ok _ _ passed in
    let (base, b, last) = >>=-eq-ok _ _ h' in
    activation_of-covers hint days now to base small
      (base_of-IsCovering kind days from plan current now small b)
      (ap CodingPlanActivation.expires_at (ok_injective last) ∙ t)
