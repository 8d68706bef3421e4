-- ===== src/Access/Goal.antt =====
-- internal/inference/access/benefit_grant.go: the targets of `DecideSync`.
use mathlib.Core.Path.{subst}
use yunhou_users.Common.{◌≡◌, refl, inl, inr, true, false, Option, none, some, [], eqb, Bool-cases}
use yunhou_users.Domain.Errors.{Time, ok, ok_injective}
use yunhou_users.Access.{Text, dedupe_models, is_known}
use yunhou_users.Access.Models.{dedupe_models_idempotent}
use yunhou_users.Access.Activation.{SubscriptionState, status_active, unexpired}
use yunhou_users.Access.Decision.{
  OrderBenefitSnapshot, GrantMode, decide_paid, decide_mode, decide_sync, BenefitTarget,
  SyncDecision,
}
use yunhou_users.Access.Sync.{subscription_id}

-- What the decision of a sync says of its target.
abbrev pub IsTarget : BenefitTarget → Type 0
IsTarget want =
    (eqb want.policy_version_id [] ≡ false)
    × (dedupe_models want.model_ids ≡ want.model_ids)
    × (is_known want.source_type ≡ true)
    × (eqb want.source_id [] ≡ false)

abbrev pub IsGoal : Option BenefitTarget → Type 0
IsGoal none = Unit
IsGoal (some want) = IsTarget want

decide_mode-IsGoal :
    (mode : GrantMode) (sub : SubscriptionState) (order : OrderBenefitSnapshot) {d : SyncDecision}
    → eqb sub.id [] ≡ false
    → eqb order.policy_version_id [] ≡ false
    → decide_mode mode sub order ≡ ok d
    → IsGoal d.target
unfolding decide_mode eqb
decide_mode-IsGoal GrantMode.subscription sub order id policy h =
    subst (λ e. IsGoal e.target) (ok_injective h)
      (policy, dedupe_models_idempotent order.model_ids, refl, id)
decide_mode-IsGoal GrantMode.gift sub order id policy h =
    subst (λ e. IsGoal e.target) (ok_injective h)
      (policy, dedupe_models_idempotent order.model_ids, refl, refl)
decide_mode-IsGoal GrantMode.unknown_mode sub order id policy h = cc

decide_paid-IsGoal :
    (sub : SubscriptionState) (paid : Option OrderBenefitSnapshot) {d : SyncDecision}
    → eqb sub.id [] ≡ false
    → decide_paid sub paid ≡ ok d
    → IsGoal d.target
unfolding decide_paid decide_mode
decide_paid-IsGoal sub none id h = subst (λ e. IsGoal e.target) (ok_injective h) tt
decide_paid-IsGoal sub (some order) {d} id h = elim (Bool-cases (eqb order.policy_version_id [])) [
  | inl e ↦ let h' = rw (e, decide_paid) at h in cc
  | inr e ↦
      let h' = rw (e, decide_paid) at h in decide_mode-IsGoal order.grant_mode sub order id e h'
]

pub decide_sync-IsGoal :
    (sub : Option SubscriptionState) (paid : Option OrderBenefitSnapshot) (now : Time) (hint : Text)
    {d : SyncDecision}
    → eqb (subscription_id sub hint) [] ≡ false
    → decide_sync sub paid now ≡ ok d
    → IsGoal d.target
unfolding decide_sync
decide_sync-IsGoal none paid now hint id h = subst (λ e. IsGoal e.target) (ok_injective h) tt
decide_sync-IsGoal (some sub) paid now hint id h = elim (Bool-cases (status_active sub.status)) [
  | inr e ↦ let h' = rw (e, decide_sync) at h in subst (λ e. IsGoal e.target) (ok_injective h') tt
  | inl e ↦ elim (Bool-cases (unexpired sub.expires_at now)) [
    | inr u ↦
        let h' = rw (e, u, decide_sync) at h in subst (λ e. IsGoal e.target) (ok_injective h') tt
    | inl u ↦ let h' = rw (e, u, decide_sync) at h in decide_paid-IsGoal sub paid id h'
  ]
]
