-- ===== src/Access.antt =====
-- internal/inference/access and the entitlements of internal/inference/domain/principal.go: which purchase or
-- gift lets an account call a model. Identifiers are texts, lists of code points; the empty list is "".
-- Instants are in UTC, so the conversions of the source are left out.
pub mod Models
pub mod Selection
pub mod Sorted
pub mod Selected
pub mod Activation
pub mod Rows
pub mod Latest
pub mod Decision
pub mod Sync
pub mod Patched
pub mod Goal
pub mod Settled
pub mod Converged
pub mod Commits
pub mod Accepted
pub mod Synced
pub mod Completed
mod Examples
use yunhou_users.Common.{
  ℕ, suc, ◌-◌, Bool, true, false, not, ◌||◌, ◌&&◌, Option, none, some, List, [], ◌∷◌, ◌++◌, length,
  eqb, ltb, ◌==◌, if◌then◌else◌,
}
use yunhou_users.Domain.Errors.{Time, Code, new_error, Result, ok, ◌>>=◌, ◌>>◌, fail_if}

abbrev pub Text : Type 0
Text = List ℕ

pub data EntitlementSource : Type 0 where
  subscription order grant payg : EntitlementSource
  -- any other text
  unknown_source : EntitlementSource

pub data EntitlementStatus : Type 0 where
  active expired revoked superseded : EntitlementStatus

pub record Entitlement : Type 0 where
  pub id : Text
  pub billing_account_id : Text
  pub source_type : EntitlementSource
  pub source_id : Text
  pub model_ids : List Text
  pub policy_version_id : Text
  pub anchor_at : Time
  pub effective_from : Time
  pub effective_to : Option Time
  pub revision : ℕ
  pub stackable : Bool
  pub status : EntitlementStatus
  pub created_at : Time

-- none for nil: the column keeps its value.
pub record EntitlementPatch : Type 0 where
  pub expected_revision : ℕ
  pub policy_version_id : Option Text
  pub model_ids : Option (List Text)
  pub effective_to : Option Time
  pub clear_effective_to : Bool

abbrev pub is_active : EntitlementStatus → Bool
is_active EntitlementStatus.active = true
is_active _ = false

-- A key of a Go map that stands for a set, or an element of a slice.
abbrev pub has_text : Text → List Text → Bool
has_text x [] = false
has_text x (y ∷ ys) = eqb x y || has_text x ys

-- `Entitlement.AllowsModel`
unfoldable pub entitlement_allows : Entitlement → Text → Bool
entitlement_allows e model = has_text model e.model_ids

-- The loop of `dedupeModels`, over the texts it has seen.
unfoldable pub dedupe_from : List Text → List Text → List Text
dedupe_from seen [] = []
dedupe_from seen (x ∷ xs) = elim (has_text x seen) [
  | true ↦ dedupe_from seen xs
  | false ↦ x ∷ dedupe_from (x ∷ seen) xs
]

abbrev pub dedupe_models : List Text → List Text
dedupe_models ids = dedupe_from [] ids

-- `seen[id]++` over a slice: what the map holds for a text.
unfoldable pub count_text : Text → List Text → ℕ
count_text x [] = 0
count_text x (y ∷ ys) = let rest = count_text x ys in if eqb x y then suc rest else rest

abbrev pub one_less : Text → (Text → ℕ) → Text → ℕ
one_less x seen y = if eqb y x then seen y - 1 else seen y

-- The loop `seen[id]--; if seen[id] < 0 { return false }`.
unfoldable pub within_counts : (Text → ℕ) → List Text → Bool
within_counts seen [] = true
within_counts seen (x ∷ xs) = elim (seen x == 0) [
  | true ↦ false
  | false ↦ within_counts (one_less x seen) xs
]

unfoldable pub equal_model_sets : List Text → List Text → Bool
unfolding within_counts count_text
equal_model_sets a b = (length a == length b) && within_counts (λ x. count_text x a) b

pub record PlanRevision : Type 0 where
  pub source_type : EntitlementSource
  pub source_id : Text
  pub model_ids : List Text
  pub policy_version_id : Text

abbrev pub is_known : EntitlementSource → Bool
is_known EntitlementSource.unknown_source = false
is_known _ = true

-- Go's zero instant, the start of year 1.
abbrev pub is_zero_time : Time → Bool
is_zero_time t = t == 31622400000000000

-- `!t.After(from)` for an end that is not nil
abbrev pub ends_by : Option Time → Time → Bool
ends_by none from = false
ends_by (some to) from = not (ltb from to)

-- The row that `GrantFromPlan` returns; the identifier, the account and the creation come with the insertion.
unfoldable pub entitlement_of : PlanRevision → Time → Time → Option Time → Entitlement
unfolding dedupe_from
entitlement_of plan anchor from to = record {
  id = [];
  billing_account_id = [];
  source_type = plan.source_type;
  source_id = plan.source_id;
  model_ids = dedupe_models plan.model_ids;
  policy_version_id = plan.policy_version_id;
  anchor_at = anchor;
  effective_from = from;
  effective_to = to;
  revision = 1;
  stackable = false;
  status = EntitlementStatus.active;
  created_at = 31622400000000000;
}

unfoldable pub grant_from_plan : PlanRevision → Time → Time → Option Time → Result Entitlement
unfolding entitlement_of
grant_from_plan plan anchor from to = do
  fail_if (not (is_known plan.source_type)) (new_error Code.invalid_input)
  fail_if (eqb plan.source_id []) (new_error Code.invalid_input)
  fail_if (eqb plan.policy_version_id []) (new_error Code.invalid_input)
  let a = if is_zero_time anchor then from else anchor
  fail_if (ltb from a) (new_error Code.invalid_input)
  fail_if (ends_by to from) (new_error Code.invalid_input)
  ok (entitlement_of plan a from to)
