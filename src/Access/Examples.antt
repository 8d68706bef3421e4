-- ===== src/Access/Examples.antt =====
-- internal/inference/access: the theorems at concrete entitlements.
use yunhou_users.Common.{Bool, true, eqb, ◌≡◌, refl, false, none, some, List, [], ◌∷◌, pos, arith}
use yunhou_users.Domain.Errors.{Time, ok}
use yunhou_users.Access.{
  Text, EntitlementSource, EntitlementStatus, Entitlement, EntitlementPatch, dedupe_from,
}
use yunhou_users.Access.Selection.{select_entitlement}
use yunhou_users.Access.Selected.{IsSelection, select_entitlement-IsSelection}
use yunhou_users.Access.Activation.{
  SubscriptionStatus, SubscriptionState, OrderKind, resolve_coding_plan_activation,
}
use yunhou_users.Access.Activation.Period.{resolve_coding_plan_activation-hint}
use yunhou_users.Access.Activation.Rolls.{resolve_coding_plan_activation-rolls}
use yunhou_users.Access.Decision.{
  GrantMode, OrderBenefitSnapshot, SyncDecision, decide_sync, target_of,
}
use yunhou_users.Access.Sync.{SourcePlan, decision_for, plan_source, apply_plans, revise}
use yunhou_users.Store.Table.{update_row}
use yunhou_users.Access.Rows.{patched, get_latest_entitlement_by_source}
use yunhou_users.Access.Synced.{plan_source-apply_plans}
use yunhou_users.Access.Settled.{IsSettled}

abbrev row : Text → EntitlementSource → Time → List Text → Entitlement
row id source created models = record {
  id = id;
  billing_account_id = 9 ∷ [];
  source_type = source;
  source_id = 7 ∷ [];
  model_ids = models;
  policy_version_id = 5 ∷ [];
  anchor_at = 10;
  effective_from = 10;
  effective_to = some 100;
  revision = 1;
  stackable = false;
  status = EntitlementStatus.active;
  created_at = created;
}

-- A gift, two purchases and a pay-as-you-go record; the models are 1 and 2.
abbrev rows : List Entitlement
rows =
    row (1 ∷ []) EntitlementSource.grant 11 ((1 ∷ []) ∷ [])
    ∷ row (2 ∷ []) EntitlementSource.order 13 ((1 ∷ []) ∷ [])
    ∷ row (3 ∷ []) EntitlementSource.subscription 12 ((1 ∷ []) ∷ [])
    ∷ row (4 ∷ []) EntitlementSource.payg 14 ((2 ∷ []) ∷ [])
    ∷ []

-- The earliest purchase governs the first model, the pay-as-you-go record the second.
selects_purchase :
    select_entitlement rows (1 ∷ []) 50
    ≡ ok (row (3 ∷ []) EntitlementSource.subscription 12 ((1 ∷ []) ∷ []))
unfolding select_entitlement eqb
selects_purchase = refl

selects_payg :
    select_entitlement rows (2 ∷ []) 50
    ≡ ok (row (4 ∷ []) EntitlementSource.payg 14 ((2 ∷ []) ∷ []))
unfolding select_entitlement eqb
selects_payg = refl

select_entitlement-IsSelection_example :
    IsSelection rows (1 ∷ []) 50 (select_entitlement rows (1 ∷ []) 50)
select_entitlement-IsSelection_example = select_entitlement-IsSelection rows (1 ∷ []) 50

abbrev subscription : SubscriptionState
subscription = record {
  id = 7 ∷ [];
  plan_id = 1 ∷ [];
  status = SubscriptionStatus.active;
  expires_at = some 500;
}

resolve_coding_plan_activation-rolls_example :
    resolve_coding_plan_activation OrderKind.renewal
      (pos 30)
      none
      (1 ∷ [])
      (some subscription)
      (some 90)
      60
    ≡ ok (record { expires_at = some 2592000000000500; blocked = false })
unfolding eqb
resolve_coding_plan_activation-rolls_example =
    resolve_coding_plan_activation-rolls OrderKind.renewal 29 none (1 ∷ []) subscription (some 90)
      60 500 (λ same. cc) (omega arith) refl refl refl refl

-- A hint far behind the end of the interval.
resolve_coding_plan_activation-hint_example :
    resolve_coding_plan_activation OrderKind.new
      (pos 30)
      none
      (1 ∷ [])
      none
      (some 9999999999999999)
      60
    ≡ resolve_coding_plan_activation OrderKind.new (pos 30) none (1 ∷ []) none none 60
resolve_coding_plan_activation-hint_example =
    resolve_coding_plan_activation-hint OrderKind.new (pos 30) none (1 ∷ []) none
      (some 9999999999999999) 60

-- The order that paid for the subscription carries another policy version and one model more.
abbrev order : OrderBenefitSnapshot
order = record {
  policy_version_id = 6 ∷ [];
  model_ids = (1 ∷ []) ∷ (2 ∷ []) ∷ (1 ∷ []) ∷ [];
  grant_mode = GrantMode.subscription;
}

abbrev decision : SyncDecision
unfolding dedupe_from
decision = target_of EntitlementSource.subscription (7 ∷ []) subscription order

abbrev patch : EntitlementPatch
patch = record {
  expected_revision = 1;
  policy_version_id = some (6 ∷ []);
  model_ids = some ((1 ∷ []) ∷ (2 ∷ []) ∷ []);
  effective_to = some 500;
  clear_effective_to = false;
}

abbrev granted_row : Entitlement
granted_row = row (3 ∷ []) EntitlementSource.subscription 12 ((1 ∷ []) ∷ [])

-- The plan of the sync, and the row after it.
abbrev planned : List SourcePlan
planned = record { entitlement_id = 3 ∷ []; action = revise patch } ∷ []

abbrev synced_row : Entitlement
unfolding patched
synced_row = patched patch granted_row

plan_source-apply_plans_example :
    IsSettled
      (decision_for EntitlementSource.subscription (7 ∷ []) decision)
      (get_latest_entitlement_by_source EntitlementSource.subscription (7 ∷ []) (synced_row ∷ []))
unfolding decide_sync plan_source apply_plans eqb update_row
plan_source-apply_plans_example =
    plan_source-apply_plans (some subscription) (some order) 50 60 70 [] decision
      EntitlementSource.subscription (7 ∷ []) [] (9 ∷ []) (8 ∷ []) (granted_row ∷ [])
      (synced_row ∷ []) planned refl refl refl (refl, tt) refl refl refl

-- The first row of the source: the subscription's, with a policy version that is in force.
abbrev policies : List (Text × Bool)
policies = (5 ∷ [], true) ∷ (6 ∷ [], false) ∷ []
