-- ===== src/Access/Activation/Rolls.antt =====
-- internal/inference/access/benefit_grant.go: an order for the plan of a live subscription extends it.
use yunhou_users.Common.{
  eqb_refl, ◌≢◌, arith, ℕ, suc, ◌+◌, ◌*◌, ◌≤◌, ◌≡◌, refl, ap, ◌∙◌, true, false, Option, none, some,
  pos, ltb_ℤ, leb_ℤ,
}
use yunhou_users.Domain.Errors.{Time, ok}
use yunhou_users.Access.{Text}
use yunhou_users.Access.Activation.{
  SubscriptionState, OrderKind, until, eqb_opt, current_live, roll_from, same_plan_base, live_base,
  base_of, apply_hint, activation_of, resolve_coding_plan_activation,
}
use yunhou_users.Access.Activation.Period.{days_duration_exact, resolve_coding_plan_activation-hint}

same_plan_base_rolls :
    (n : ℕ) (plan : Text) (sub : SubscriptionState) (end : Time)
    → suc n ≤ 105850
    → sub.expires_at ≡ some end
    → sub.plan_id ≡ plan
    → same_plan_base sub plan (pos (suc n)) ≡ until (some (end + suc n * 86400000000000))
unfolding same_plan_base roll_from
same_plan_base_rolls n plan sub end small ends same =
    let more : leb_ℤ (pos (suc n)) (pos 0) ≡ false = ground arith in
    let exact = days_duration_exact (suc n) small in
    rw (same, eqb_refl plan, ends, more, exact) (ap (λ t. until (some t)) (omega arith))

live_base_same :
    (kind : OrderKind) (n : ℕ) (from : Option Text) (plan : Text) (sub : SubscriptionState)
    (now end : Time)
    → kind ≢ OrderKind.unknown_order_kind
    → suc n ≤ 105850
    → sub.expires_at ≡ some end
    → sub.plan_id ≡ plan
    → eqb_opt plan from ≡ false
    → live_base kind (pos (suc n)) from plan sub now
      ≡ ok (until (some (end + suc n * 86400000000000)))
unfolding live_base
live_base_same OrderKind.new n from plan sub now end known small ends same other =
    ap ok (same_plan_base_rolls n plan sub end small ends same)
live_base_same OrderKind.empty n from plan sub now end known small ends same other =
    ap ok (same_plan_base_rolls n plan sub end small ends same)
live_base_same OrderKind.renewal n from plan sub now end known small ends same other =
    ap ok (same_plan_base_rolls n plan sub end small ends same)
live_base_same OrderKind.upgrade n from plan sub now end known small ends same other =
    let other' : eqb_opt sub.plan_id from ≡ false = rw same other in
    rw other' (ap ok (same_plan_base_rolls n plan sub end small ends same))
live_base_same OrderKind.unknown_order_kind n from plan sub now end known small ends same other =
    elim (known refl) [ ]

activation_rolls :
    (kind : OrderKind) (n : ℕ) (from : Option Text) (plan : Text) (sub : SubscriptionState)
    (now end : Time)
    → kind ≢ OrderKind.unknown_order_kind
    → suc n ≤ 105850
    → current_live sub now ≡ true
    → sub.expires_at ≡ some end
    → sub.plan_id ≡ plan
    → eqb_opt plan from ≡ false
    → resolve_coding_plan_activation kind (pos (suc n)) from plan (some sub) none now
      ≡ ok (record { expires_at = some (end + suc n * 86400000000000); blocked = false })
unfolding resolve_coding_plan_activation base_of activation_of apply_hint
activation_rolls kind n from plan sub now end known small live ends same other =
    let capped : ltb_ℤ (pos 105850) (pos (suc n)) ≡ false = ground (arith, small) in
    rw (capped, live, live_base_same kind n from plan sub now end known small ends same other) refl

-- Where a live subscription is on the order's own plan and ends at an instant, the order is of a known kind, does
-- not upgrade from that plan, and is for 1 to 105850 days, the activation is not blocked and the new end is the
-- old one plus the whole interval, whatever the hint.
pub resolve_coding_plan_activation-rolls :
    (kind : OrderKind) (n : ℕ) (from : Option Text) (plan : Text) (sub : SubscriptionState)
    (hint : Option Time) (now end : Time)
    → kind ≢ OrderKind.unknown_order_kind
    → suc n ≤ 105850
    → current_live sub now ≡ true
    → sub.expires_at ≡ some end
    → sub.plan_id ≡ plan
    → eqb_opt plan from ≡ false
    → resolve_coding_plan_activation kind (pos (suc n)) from plan (some sub) hint now
      ≡ ok (record { expires_at = some (end + suc n * 86400000000000); blocked = false })
resolve_coding_plan_activation-rolls kind n from plan sub hint now end known small live ends same
      other =
    resolve_coding_plan_activation-hint kind (pos (suc n)) from plan (some sub) hint now
    ∙ activation_rolls kind n from plan sub now end known small live ends same other
