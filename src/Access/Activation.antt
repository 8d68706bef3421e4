-- ===== src/Access/Activation.antt =====
-- internal/inference/access/benefit_grant.go: `ResolveCodingPlanActivation`, the end of the subscription that a
-- paid coding-plan order leads to.
pub mod Period
pub mod Rolls
use yunhou_users.Common.{
  ℕ, suc, ◌+◌, ◌-◌, ◌*◌, Bool, true, false, not, ◌&&◌, Option, none, some, List, ℤ, pos, negsuc,
  leb_ℤ, ltb_ℤ, ltb, if◌then◌else◌, eqb, wrap64,
}
use yunhou_users.Domain.Errors.{Time, Code, new_error, Result, ok, err, ◌>>=◌, ◌>>◌, fail_if}
use yunhou_users.Quota.Window.{add_duration}
use yunhou_users.Access.{Text}

pub data SubscriptionStatus : Type 0 where
  active : SubscriptionStatus
  -- any other text
  other : Text → SubscriptionStatus

-- The user and the product, which no rule reads, are left out.
pub record SubscriptionState : Type 0 where
  pub id : Text
  pub plan_id : Text
  pub status : SubscriptionStatus
  pub expires_at : Option Time

pub data OrderKind : Type 0 where
  new renewal upgrade empty : OrderKind
  -- any other text
  unknown_order_kind : OrderKind

-- `blocked` tells whether the text is not empty: the code knows one reason.
pub record CodingPlanActivation : Type 0 where
  pub expires_at : Option Time
  pub blocked : Bool

abbrev pub status_active : SubscriptionStatus → Bool
status_active SubscriptionStatus.active = true
status_active (SubscriptionStatus.other text) = false

-- `expires == nil || expires.After(now)`
abbrev pub unexpired : Option Time → Time → Bool
unexpired none now = true
unexpired (some to) now = ltb now to

abbrev pub current_live : SubscriptionState → Time → Bool
current_live sub now = status_active sub.status && unexpired sub.expires_at now

-- `time.Duration(days) * 24 * time.Hour`
unfoldable pub days_duration : ℤ → ℤ
unfolding wrap64
days_duration (pos n) = wrap64 (pos (n * 86400000000000))
days_duration (negsuc n) = wrap64 (negsuc (n * 86400000000000 + 86399999999999))

unfoldable pub fresh_from_now : ℤ → Time → Option Time
unfolding days_duration
fresh_from_now days now =
    if leb_ℤ days (pos 0) then none else some (add_duration now (days_duration days))

unfoldable pub roll_from : Option Time → ℤ → Option Time
unfolding days_duration
roll_from none days = none
roll_from (some current) days =
    if leb_ℤ days (pos 0) then none else some (add_duration current (days_duration days))

-- What the switch leaves in `base`, or its early return.
pub data Base : Type 0 where
  conflict : Base
  until : Option Time → Base

abbrev pub eqb_opt : Text → Option Text → Bool
eqb_opt plan none = false
eqb_opt plan (some from) = eqb plan from

-- The branches of a live subscription: the order's own plan is extended.
unfoldable pub same_plan_base : SubscriptionState → Text → ℤ → Base
unfolding roll_from
same_plan_base sub order_plan days =
    if eqb sub.plan_id order_plan then until (roll_from sub.expires_at days) else conflict

unfoldable pub live_base :
    OrderKind → ℤ → Option Text → Text → SubscriptionState → Time → Result Base
unfolding same_plan_base fresh_from_now
live_base OrderKind.new days from plan sub now = ok (same_plan_base sub plan days)
live_base OrderKind.empty days from plan sub now = ok (same_plan_base sub plan days)
live_base OrderKind.renewal days from plan sub now = ok (same_plan_base sub plan days)
live_base OrderKind.upgrade days from plan sub now = ok (
    if eqb_opt sub.plan_id from
    then until (fresh_from_now days now)
    else same_plan_base sub plan days)
live_base OrderKind.unknown_order_kind days from plan sub now = err (new_error Code.invalid_input)

-- The branches without a live subscription.
unfoldable pub fresh_base : OrderKind → ℤ → Time → Result Base
unfolding fresh_from_now
fresh_base OrderKind.unknown_order_kind days now = err (new_error Code.invalid_input)
fresh_base _ days now = ok (until (fresh_from_now days now))

-- The switch over the kinds of orders.
unfoldable pub base_of :
    OrderKind → ℤ → Option Text → Text → Option SubscriptionState → Time → Result Base
unfolding live_base fresh_base
base_of kind days from plan none now = fresh_base kind days now
base_of kind days from plan (some sub) now =
    if current_live sub now then live_base kind days from plan sub now else fresh_base kind days now

-- The hint, not before now and not after the interval from now.
abbrev pub clamp_hint : Time → ℤ → Time → Time
clamp_hint hint days now =
    let c = if ltb hint now then now else hint in
    let max = add_duration now (days_duration days) in
    if ltb_ℤ (pos 0) days && ltb max c then max else c

unfoldable pub apply_hint : Option Time → ℤ → Time → Option Time → Option Time
unfolding days_duration
apply_hint none days now base = base
apply_hint (some hint) days now none = none
apply_hint (some hint) days now (some base) =
    let c = clamp_hint hint days now in if ltb base c then some c else some base

unfoldable pub activation_of : Option Time → ℤ → Time → Base → CodingPlanActivation
unfolding apply_hint
activation_of hint days now conflict = record { expires_at = none; blocked = true }
activation_of hint days now (until base) = record {
  expires_at = apply_hint hint days now base;
  blocked = false;
}

unfoldable pub resolve_coding_plan_activation :
    OrderKind
    → ℤ
    → Option Text
    → Text
    → Option SubscriptionState
    → Option Time
    → Time
    → Result CodingPlanActivation
unfolding base_of activation_of
resolve_coding_plan_activation kind days from plan current hint now = do
  fail_if (ltb_ℤ (pos 105850) days) (new_error Code.invalid_input)
  base ← base_of kind days from plan current now
  ok (activation_of hint days now base)
