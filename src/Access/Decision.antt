-- ===== src/Access/Decision.antt =====
-- internal/inference/access/benefit_grant.go: `DecideSync`, the entitlement that a subscription and the benefits
-- frozen on the order that paid for it call for. The reasons, which no decision reads, are left out.
use yunhou_users.Common.{Bool, false, not, Option, none, some, List, [], ◌∷◌, eqb, if◌then◌else◌}
use yunhou_users.Domain.Errors.{Time, Code, new_error, Result, ok, err}
use yunhou_users.Access.{Text, EntitlementSource, EntitlementStatus, dedupe_from, dedupe_models}
use yunhou_users.Access.Activation.{SubscriptionState, status_active, unexpired}

pub data GrantMode : Type 0 where
  subscription gift : GrantMode
  -- any other text
  unknown_mode : GrantMode

pub record OrderBenefitSnapshot : Type 0 where
  pub policy_version_id : Text
  pub model_ids : List Text
  pub grant_mode : GrantMode

pub record BenefitTarget : Type 0 where
  pub source_type : EntitlementSource
  pub source_id : Text
  pub policy_version_id : Text
  pub model_ids : List Text
  pub effective_to : Option Time
  pub stackable : Bool

pub record SyncDecision : Type 0 where
  pub target : Option BenefitTarget
  -- none for the empty text
  pub retire_as : Option EntitlementStatus

-- "bundle:" and the subscription
abbrev pub bundle_gift_source_id : Text → Text
bundle_gift_source_id id = 98 ∷ 117 ∷ 110 ∷ 100 ∷ 108 ∷ 101 ∷ 58 ∷ id

abbrev nothing_as : EntitlementStatus → SyncDecision
nothing_as status = record { target = none; retire_as = some status }

abbrev pub target_of :
    EntitlementSource → Text → SubscriptionState → OrderBenefitSnapshot → SyncDecision
target_of source id sub order = record {
  target = some (record {
    source_type = source;
    source_id = id;
    policy_version_id = order.policy_version_id;
    model_ids = dedupe_models order.model_ids;
    effective_to = sub.expires_at;
    stackable = false;
  });
  retire_as = none;
}

-- The switch over the modes of a grant.
unfoldable pub decide_mode :
    GrantMode → SubscriptionState → OrderBenefitSnapshot → Result SyncDecision
unfolding dedupe_from
decide_mode GrantMode.subscription sub order =
    ok (target_of EntitlementSource.subscription sub.id sub order)
decide_mode GrantMode.gift sub order =
    ok (target_of EntitlementSource.grant (bundle_gift_source_id sub.id) sub order)
decide_mode GrantMode.unknown_mode sub order = err (new_error Code.invalid_input)

unfoldable pub decide_paid : SubscriptionState → Option OrderBenefitSnapshot → Result SyncDecision
unfolding decide_mode
decide_paid sub none = ok (nothing_as EntitlementStatus.revoked)
decide_paid sub (some order) =
    if eqb order.policy_version_id []
    then err (new_error Code.invalid_input)
    else decide_mode order.grant_mode sub order

unfoldable pub decide_sync :
    Option SubscriptionState → Option OrderBenefitSnapshot → Time → Result SyncDecision
unfolding decide_paid
decide_sync none paid now = ok (nothing_as EntitlementStatus.revoked)
decide_sync (some sub) paid now =
    if not (status_active sub.status)
    then ok (nothing_as EntitlementStatus.revoked)
    else if not (unexpired sub.expires_at now)
    then ok (nothing_as EntitlementStatus.expired)
    else decide_paid sub paid
