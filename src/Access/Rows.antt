-- ===== src/Access/Rows.antt =====
-- internal/inference/postgres/entitlement_repo.go: the statements on the rows of the entitlements. The policy
-- versions are the pairs of an identifier and whether the version is retired. The account of an insertion is
-- one that exists, and `updated_at` is left out.
use yunhou_users.Common.{
  suc, Bool, true, false, ◌&&◌, ◌||◌, Option, none, some, List, ◌∷◌, eqb, ltb, ◌==◌, if◌then◌else◌,
  leb, [], ℕ,
}
use yunhou_users.Domain.Errors.{Time, Code, Error, new_error, Result, ◌>>◌, fail_if}
use yunhou_users.Store.Table.{any, map_where, find_where, update_row, db_error, or_error}
use yunhou_users.Access.{
  Text, EntitlementSource, EntitlementStatus, Entitlement, EntitlementPatch, is_active,
}

-- The code of a source, to compare two.
abbrev pub source_rank : EntitlementSource → ℕ
source_rank EntitlementSource.subscription = 0
source_rank EntitlementSource.order = 1
source_rank EntitlementSource.grant = 2
source_rank EntitlementSource.payg = 3
source_rank EntitlementSource.unknown_source = 4

abbrev pub source_eqb : EntitlementSource → EntitlementSource → Bool
source_eqb a b = source_rank a == source_rank b

abbrev pub coalesce {ℓ} : {A : Type ℓ} → Option A → A → A
coalesce none old = old
coalesce (some new) old = new

abbrev pub or_keep : Option Time → Option Time → Option Time
or_keep none old = old
or_keep (some new) old = some new

-- What the UPDATE of a revision sets.
unfoldable pub patched : EntitlementPatch → Entitlement → Entitlement
patched patch r = record r {
  revision = suc r.revision;
  policy_version_id = coalesce patch.policy_version_id r.policy_version_id;
  model_ids = coalesce patch.model_ids r.model_ids;
  effective_to =
      if patch.clear_effective_to then none else or_keep patch.effective_to r.effective_to;
}

unfoldable pub revived : EntitlementPatch → Entitlement → Entitlement
unfolding patched
revived patch r = record (patched patch r) { status = EntitlementStatus.active }

unfoldable pub retired : EntitlementStatus → Entitlement → Entitlement
retired to r = record r { revision = suc r.revision; status = to }

-- `status IN ('revoked', 'expired')`
abbrev pub is_retired : EntitlementStatus → Bool
is_retired EntitlementStatus.revoked = true
is_retired EntitlementStatus.expired = true
is_retired _ = false

-- The guards of the three statements.
unfoldable pub revisable : EntitlementPatch → Entitlement → Bool
revisable patch r = r.revision == patch.expected_revision && is_active r.status

unfoldable pub revivable : EntitlementPatch → Entitlement → Bool
revivable patch r = r.revision == patch.expected_revision && is_retired r.status

unfoldable pub retirable : ℕ → Entitlement → Bool
retirable expected r = r.revision == expected && is_active r.status

-- The key of the source and the revision is not checked by the three updates.
unfoldable pub revise_entitlement :
    Text → EntitlementPatch → List Entitlement → Result (List Entitlement)
unfolding revisable patched
revise_entitlement id patch rows =
    or_error (update_row (λ r. eqb r.id id) (revisable patch) (patched patch) rows)
      (new_error Code.conflict)

unfoldable pub revive_entitlement :
    Text → EntitlementPatch → List Entitlement → Result (List Entitlement)
unfolding revivable revived
revive_entitlement id patch rows =
    or_error (update_row (λ r. eqb r.id id) (revivable patch) (revived patch) rows)
      (new_error Code.conflict)

unfoldable pub retire_entitlement :
    Text → ℕ → EntitlementStatus → List Entitlement → Result (List Entitlement)
unfolding retirable retired
retire_entitlement id expected to rows = do
  fail_if (is_active to) (new_error Code.invalid_input)
  or_error (update_row (λ r. eqb r.id id) (retirable expected) (retired to) rows)
      (new_error Code.conflict)

-- `effective_to IS NOT NULL AND effective_to <= $1`
abbrev lapsed : Time → Option Time → Bool
lapsed now none = false
lapsed now (some to) = leb to now

unfoldable pub mark_expired_entitlements : Time → List Entitlement → List Entitlement
unfolding retired
mark_expired_entitlements now rows =
    map_where (λ r. is_active r.status && lapsed now r.effective_to)
      (retired EntitlementStatus.expired) rows

-- The outcome of an insertion; `policy_retired` stands for `PolicyRetiredError`.
pub data Inserted : Type 0 where
  inserted : List Entitlement → Inserted
  policy_retired : Inserted
  refused : Error → Inserted

abbrev pub same_key : Entitlement → Entitlement → Bool
same_key e r =
    source_eqb r.source_type e.source_type
    && eqb r.source_id e.source_id
    && r.revision == e.revision

-- The INSERT, with the primary key and the key of the source.
unfoldable pub insert_row_of : Text → Time → Entitlement → List Entitlement → Inserted
insert_row_of fresh now e rows =
    if any (λ r. eqb r.id fresh || same_key e r) rows
    then refused (db_error Code.conflict)
    else inserted (record e { id = fresh; created_at = now } ∷ rows)

abbrev pub after_lock : Option (Text × Bool) → Inserted → Inserted
after_lock none insert = refused (db_error Code.not_found)
after_lock (some (id, true)) insert = policy_retired
after_lock (some (id, false)) insert = insert

-- `InsertEntitlementTx`: the policy version is locked first.
unfoldable pub insert_entitlement :
    List (Text × Bool) → Text → Time → Entitlement → List Entitlement → Inserted
unfolding insert_row_of
insert_entitlement policies fresh now e rows =
    after_lock (find_where (λ (id, gone). eqb id e.policy_version_id) policies) (
      insert_row_of fresh now (record e { revision = if e.revision == 0 then 1 else e.revision })
        rows)

abbrev pub of_source : EntitlementSource → Text → Entitlement → Bool
of_source source id r = source_eqb r.source_type source && eqb r.source_id id

-- ORDER BY revision DESC, created_at DESC
abbrev pub beats : Entitlement → Entitlement → Bool
beats r s = ltb r.revision s.revision || r.revision == s.revision && ltb r.created_at s.created_at

abbrev pub newer : Entitlement → Option Entitlement → Entitlement
newer r none = r
newer r (some s) = if beats r s then s else r

unfoldable pub get_latest_entitlement_by_source :
    EntitlementSource → Text → List Entitlement → Option Entitlement
get_latest_entitlement_by_source source id [] = none
get_latest_entitlement_by_source source id (r ∷ rs) =
    let rest = get_latest_entitlement_by_source source id rs in
    if of_source source id r then some (newer r rest) else rest
