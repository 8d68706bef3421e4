-- ===== src/Access/Commits.antt =====
-- internal/inference/workers/entitlement_sync.go: what a transaction of `applyPlans` that is committed did.
use yunhou_users.Common.{
  ◌≡◌, inl, inr, Bool, true, false, ◌||◌, ◌==◌, Option, none, some, List, [], ◌∷◌, eqb,
  if◌then◌else◌, Bool-cases,
}
use yunhou_users.Domain.Errors.{Time, Result, ok, err}
use yunhou_users.Store.Table.{any, find_where}
use yunhou_users.Access.{Text, Entitlement}
use yunhou_users.Access.Rows.{
  Inserted, inserted, policy_retired, refused, insert_entitlement, insert_row_of, after_lock,
  same_key,
}
use yunhou_users.Access.Sync.{
  Applied, applied, racing, failed, is_conflict, apply_plan, apply_plans, of_update, of_insert,
  SourcePlan,
}

-- What a statement that is committed returned.
pub of_update-applied :
    (r : Result (List Entitlement)) {rows : List Entitlement}
    → of_update r ≡ applied rows
    → r ≡ ok rows
of_update-applied (ok rows) h = let same = h in cc
of_update-applied (err e) h = elim (Bool-cases (is_conflict e)) [
  | inl c ↦ let h' = rw c at h in cc
  | inr c ↦ let h' = rw c at h in cc
]

pub of_insert-applied :
    (o : Inserted) {rows : List Entitlement} → of_insert o ≡ applied rows → o ≡ inserted rows
of_insert-applied (inserted rows) h = let same = h in cc
of_insert-applied policy_retired h = cc
of_insert-applied (refused e) h = elim (Bool-cases (is_conflict e)) [
  | inl c ↦ let h' = rw c at h in cc
  | inr c ↦ let h' = rw c at h in cc
]

pub insert_entitlement-inserted :
    (policies : List (Text × Bool)) (fresh : Text) (t : Time) (e : Entitlement)
    (rows : List Entitlement) {rows' : List Entitlement}
    → insert_entitlement policies fresh t e rows ≡ inserted rows'
    → rows'
      ≡ record e {
        revision = if e.revision == 0 then 1 else e.revision;
        id = fresh;
        created_at = t;
      }
        ∷ rows
unfolding insert_entitlement insert_row_of
insert_entitlement-inserted policies fresh t e rows {rows'} h =
    go (find_where (λ (id, gone). eqb id e.policy_version_id) policies) h
  where
    new : Entitlement
    new = record e { revision = if e.revision == 0 then 1 else e.revision }

    row_inserted :
        insert_row_of fresh t new rows ≡ inserted rows'
        → rows' ≡ record new { id = fresh; created_at = t } ∷ rows
    row_inserted i = elim (Bool-cases (any (λ r. eqb r.id fresh || same_key new r) rows)) [
      | inl c ↦ let i' = rw (c, insert_row_of) at i in cc
      | inr c ↦ let i' = rw (c, insert_row_of) at i in cc
    ]

    go :
        (o : Option (Text × Bool))
        → after_lock o (insert_row_of fresh t new rows) ≡ inserted rows'
        → rows' ≡ record new { id = fresh; created_at = t } ∷ rows
    go none i = cc
    go (some (id, true)) i = cc
    go (some (id, false)) i = row_inserted i

pub apply_plans-single :
    (policies : List (Text × Bool)) (account fresh : Text) (t : Time) (p : SourcePlan)
    (rows : List Entitlement) {rows' : List Entitlement}
    → apply_plans policies account fresh t (p ∷ []) rows ≡ applied rows'
    → apply_plan policies account fresh t p rows ≡ applied rows'
unfolding apply_plans
apply_plans-single policies account fresh t p rows h =
    go (apply_plan policies account fresh t p rows) h
  where
    go :
        (o : Applied) {rows' : List Entitlement}
        → (elim o [ applied rows'' ↦ applied rows'' | racing ↦ racing | failed e ↦ failed e ])
          ≡ applied rows'
        → o ≡ applied rows'
    go (applied rows'') h = h
    go racing h = cc
    go (failed e) h = cc
