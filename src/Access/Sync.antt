-- ===== src/Access/Sync.antt =====
-- internal/inference/access/benefit_grant.go and internal/inference/workers/entitlement_sync.go: the rows of
-- a source converge to what a decision asks for. A nil decision, which no caller passes, is left out. `planSync`
-- takes what it reads as arguments: the subscription, the paid order of a plan, and the instants of the decision
-- and of the convergence.
use yunhou_users.Common.{
  ℕ, Bool, true, false, not, ◌&&◌, ◌||◌, Option, none, some, List, [], ◌∷◌, ◌++◌, eqb, ltb, ◌==◌,
  if◌then◌else◌,
}
use yunhou_users.Domain.Errors.{
  Time, Code, Error, new_error, code_of, Result, ok, err, ◌>>=◌, ◌>>◌, fail_if,
}
use yunhou_users.Access.{
  Text, EntitlementSource, EntitlementStatus, Entitlement, EntitlementPatch, is_active, dedupe_from,
  dedupe_models, equal_model_sets, PlanRevision, grant_from_plan,
}
use yunhou_users.Access.Activation.{SubscriptionState, status_active}
use yunhou_users.Access.Rows.{
  source_eqb, Inserted, inserted, policy_retired, refused, revise_entitlement, revive_entitlement,
  retire_entitlement, insert_entitlement, get_latest_entitlement_by_source,
}
use yunhou_users.Access.Decision.{
  OrderBenefitSnapshot, BenefitTarget, SyncDecision, bundle_gift_source_id, decide_sync,
}

pub data ConvergeAction : Type 0 where
  noop : ConvergeAction
  -- the plan, the anchor, the start and the end
  insert : PlanRevision → Time → Time → Option Time → ConvergeAction
  revise : EntitlementPatch → ConvergeAction
  revive : EntitlementPatch → ConvergeAction
  -- the expected revision
  retire : ℕ → EntitlementStatus → ConvergeAction

-- `retireAs == "" || retireAs == EntitlementActive`
abbrev pub retire_status : Option EntitlementStatus → EntitlementStatus
retire_status none = EntitlementStatus.revoked
retire_status (some s) = if is_active s then EntitlementStatus.revoked else s

abbrev pub same_effective_to : Option Time → Option Time → Bool
same_effective_to none none = true
same_effective_to (some a) (some b) = a == b
same_effective_to _ _ = false

-- What the patch says of the end: whether it is cleared, and the new one.
unfoldable pub patch_end : Option Time → Entitlement → Result (Bool × Option Time)
patch_end wanted c =
    if same_effective_to wanted c.effective_to then ok (false, none) else elim wanted [
      | none ↦ ok (true, none)
      | some to ↦
          if ltb c.effective_from to
          then ok (false, some to)
          else err (new_error Code.invalid_input)
    ]

unfoldable pub patch_with : BenefitTarget → Entitlement → Bool × Option Time → EntitlementPatch
unfolding equal_model_sets dedupe_from
patch_with want c (clear, to) = record {
  expected_revision = c.revision;
  policy_version_id =
      if eqb want.policy_version_id c.policy_version_id then none else some want.policy_version_id;
  model_ids =
      if equal_model_sets want.model_ids c.model_ids
      then none
      else some (dedupe_models want.model_ids);
  effective_to = to;
  clear_effective_to = clear;
}

unfoldable pub patch_of : BenefitTarget → Entitlement → Result EntitlementPatch
unfolding patch_end patch_with
patch_of want c = patch_end want.effective_to c >>= λ end. ok (patch_with want c end)

abbrev is_none {ℓ} : {A : Type ℓ} → Option A → Bool
is_none none = true
is_none (some a) = false

abbrev pub is_empty_patch : EntitlementPatch → Bool
is_empty_patch p =
    is_none p.policy_version_id
    && is_none p.model_ids
    && is_none p.effective_to
    && not p.clear_effective_to

abbrev pub plan_of : BenefitTarget → PlanRevision
plan_of want = record {
  source_type = want.source_type;
  source_id = want.source_id;
  model_ids = want.model_ids;
  policy_version_id = want.policy_version_id;
}

unfoldable pub converge_to : BenefitTarget → Option Entitlement → Time → Result ConvergeAction
unfolding patch_of
converge_to want none at = ok (insert (plan_of want) at at want.effective_to)
converge_to want (some c) at = patch_of want c >>= λ patch. ok (
    if is_active c.status
    then (if is_empty_patch patch then noop else revise patch)
    else revive patch)

unfoldable pub converge : Option Entitlement → SyncDecision → Time → Result ConvergeAction
unfolding converge_to
converge current decision at = elim decision.target [
  | some want ↦
      if eqb want.policy_version_id []
      then err (new_error Code.invalid_input)
      else converge_to want current at
  | none ↦ elim current [
    | none ↦ ok noop
    | some c ↦
        ok (
          if is_active c.status then retire c.revision (retire_status decision.retire_as) else noop)
  ]
]

-- The row that the guards of an UPDATE target, empty for an insertion.
pub record SourcePlan : Type 0 where
  pub entitlement_id : Text
  pub action : ConvergeAction

-- The decision for one candidate source: the target counts at its own source only.
abbrev pub decision_for : EntitlementSource → Text → SyncDecision → SyncDecision
decision_for source id d = elim d.target [
  | none ↦ d
  | some want ↦
      if source_eqb want.source_type source && eqb want.source_id id
      then d
      else record d { target = none }
]

abbrev pub id_or_empty : Option Entitlement → Text
id_or_empty none = []
id_or_empty (some c) = c.id

abbrev pub plans_of : Option Entitlement → ConvergeAction → List SourcePlan
plans_of current noop = []
plans_of current action = record { entitlement_id = id_or_empty current; action = action } ∷ []

-- The body of the loop over the candidates.
unfoldable pub plan_source :
    EntitlementSource → Text → SyncDecision → Time → List Entitlement → Result (List SourcePlan)
unfolding converge get_latest_entitlement_by_source
plan_source source id d at rows = do
  let current = get_latest_entitlement_by_source source id rows
  action ← converge current (decision_for source id d) at
  ok (plans_of current action)

abbrev paid_order_of :
    Option SubscriptionState → (Text → Option OrderBenefitSnapshot) → Option OrderBenefitSnapshot
paid_order_of none paid = none
paid_order_of (some sub) paid = if status_active sub.status then paid sub.plan_id else none

abbrev pub subscription_id : Option SubscriptionState → Text → Text
subscription_id none hint = hint
subscription_id (some sub) hint = sub.id

unfoldable pub plan_sync :
    Text
    → Text
    → Text
    → Option SubscriptionState
    → (Text → Option OrderBenefitSnapshot)
    → Time
    → Time
    → List Entitlement
    → Result (List SourcePlan)
unfolding plan_source decide_sync
plan_sync user product hint sub paid now at rows = do
  fail_if (eqb user [] || eqb product []) (new_error Code.invalid_input)
  d ← decide_sync sub (paid_order_of sub paid) now
  let id = subscription_id sub hint
  if eqb id []
      then ok []
      else plan_source EntitlementSource.subscription id d at rows >>= λ first.
          plan_source EntitlementSource.grant (bundle_gift_source_id id) d at rows >>= λ second.
          ok (first ++ second)

-- The outcome of a transaction: committed, lost to a concurrent one, or failed; a rollback follows the others.
pub data Applied : Type 0 where
  applied : List Entitlement → Applied
  racing : Applied
  failed : Error → Applied

abbrev pub is_conflict : Error → Bool
is_conflict e = elim (code_of e) [ Code.conflict ↦ true | _ ↦ false ]

abbrev pub of_update : Result (List Entitlement) → Applied
of_update (ok rows) = applied rows
of_update (err e) = if is_conflict e then racing else failed e

-- A retired policy is no benign race, although its code is that of a conflict.
abbrev pub of_insert : Inserted → Applied
of_insert (inserted rows) = applied rows
of_insert policy_retired = failed (new_error Code.conflict)
of_insert (refused e) = if is_conflict e then racing else failed e

-- The case for one plan, with the account, the identifier and the instant of an insertion.
unfoldable pub apply_plan :
    List (Text × Bool) → Text → Text → Time → SourcePlan → List Entitlement → Applied
unfolding revise_entitlement revive_entitlement retire_entitlement insert_entitlement
    grant_from_plan
apply_plan policies account fresh now plan rows = elim plan.action [
  | noop ↦ applied rows
  | insert p anchor from to ↦ elim (grant_from_plan p anchor from to) [
    | err e ↦ failed e
    | ok e ↦
        of_insert
          (insert_entitlement policies fresh now (record e { billing_account_id = account }) rows)
  ]
  | revise patch ↦ of_update (revise_entitlement plan.entitlement_id patch rows)
  | revive patch ↦ of_update (revive_entitlement plan.entitlement_id patch rows)
  | retire expected to ↦ of_update (retire_entitlement plan.entitlement_id expected to rows)
]

-- The transaction of `applyPlans`, without the mark of the outbox. The account is that of `EnsureBillingAccount`, which
-- comes before the transaction; the reference to it is left out.
unfoldable pub apply_plans :
    List (Text × Bool) → Text → Text → Time → List SourcePlan → List Entitlement → Applied
unfolding apply_plan
apply_plans policies account fresh now [] rows = applied rows
apply_plans policies account fresh now (p ∷ ps) rows =
    elim (apply_plan policies account fresh now p rows) [
      | applied rows' ↦ apply_plans policies account fresh now ps rows'
      | racing ↦ racing
      | failed e ↦ failed e
    ]
