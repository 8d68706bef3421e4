-- ===== src/Access/Accepted.antt =====
-- internal/inference/workers/entitlement_sync.go over entitlement_repo.go: the plans of a source are accepted.
use mathlib.Core.Path.{subst}
use yunhou_users.Common.{
  arith, ◌≡◌, refl, sym, inl, inr, Bool, true, false, not, ◌||◌, ◌&&◌, Option, none, some, List, [],
  ◌∷◌, eqb, eqb_refl, eqb→eq, ltb, ◌==◌, if◌then◌else◌, Bool-cases, Option-cases,
}
use yunhou_users.Domain.Errors.{Time, ok}
use yunhou_users.Store.Table.{any, find_where, update_row}
use yunhou_users.Access.{Text, EntitlementSource, Entitlement, is_active, entitlement_of}
use yunhou_users.Access.Activation.{unexpired}
use yunhou_users.Access.Rows.{
  of_source, source_eqb, source_rank, insert_entitlement, insert_row_of, same_key, patched, revived,
  retired, revisable, revivable, retirable, revise_entitlement, revive_entitlement,
  retire_entitlement, get_latest_entitlement_by_source,
}
use yunhou_users.Access.Latest.{IsKeyed, latest-cons, latest-any}
use yunhou_users.Access.Decision.{BenefitTarget, SyncDecision}
use yunhou_users.Access.Sync.{
  ConvergeAction, noop, insert, revise, revive, retire, same_effective_to, patch_with,
  retire_status, patch_end, patch_of, converge_to, converge, plan_of, plans_of, applied, apply_plan,
  apply_plans, SourcePlan,
}
use yunhou_users.Access.Goal.{IsTarget, IsGoal}
use yunhou_users.Access.Settled.{Reaches}
use yunhou_users.Access.Converged.{granted, action_of}

abbrev pub ends_after : Option Time → Time → Bool
ends_after none from = true
ends_after (some to) from = ltb from to

-- The end that a target asks for is after the start of the row.
abbrev pub lasts_past : Option Entitlement → Option BenefitTarget → Bool
lasts_past none target = true
lasts_past (some c) none = true
lasts_past (some c) (some want) = ends_after want.effective_to c.effective_from

patch_end-ok :
    (wanted : Option Time) (c : Entitlement)
    → ends_after wanted c.effective_from ≡ true
    → (end : Bool × Option Time) × (patch_end wanted c ≡ ok end)
unfolding patch_end
patch_end-ok none c late = elim (Bool-cases (same_effective_to none c.effective_to)) [
  | inl e ↦ ((false, none), rw e refl)
  | inr e ↦ ((true, none), rw e refl)
]
patch_end-ok (some to) c late = elim (Bool-cases (same_effective_to (some to) c.effective_to)) [
  | inl e ↦ ((false, none), rw e refl)
  | inr e ↦ ((false, some to), rw (e, late) refl)
]

-- The convergence of a row to a target that lasts past its start returns an action.
pub converge-ok :
    (d : SyncDecision) (current : Option Entitlement) (at : Time)
    → IsGoal d.target
    → lasts_past current d.target ≡ true
    → (a : ConvergeAction) × (converge current d at ≡ ok a)
unfolding converge converge_to patch_of
converge-ok d current at goal late = elim (Option-cases d.target) [
  | inl n ↦ without current n
  | inr (want, t) ↦ with_target current want t (rw t at goal) (rw t at late)
]
  where
    without :
        (o : Option Entitlement) → d.target ≡ none → (a : ConvergeAction) × (converge o d at ≡ ok a)
    without none n = (noop, rw (n, converge) refl)
    without (some c) n = (
      if is_active c.status then retire c.revision (retire_status d.retire_as) else noop,
      rw (n, converge) refl,
    )

    with_target :
        (o : Option Entitlement) (want : BenefitTarget)
        → d.target ≡ some want
        → IsTarget want
        → lasts_past o (some want) ≡ true
        → (a : ConvergeAction) × (converge o d at ≡ ok a)
    with_target none want t (policy, deduped, known, named) late =
        (insert (plan_of want) at at want.effective_to, rw (t, policy, converge) refl)
    with_target (some c) want t (policy, deduped, known, named) late =
        let (end, e) = patch_end-ok want.effective_to c late in
        (action_of c (patch_with want c end), rw (t, policy, converge, e) refl)

-- An update of the latest row of a source, where the guard passes on it.
module _ (source : EntitlementSource) (id : Text) (guard : Entitlement → Bool)
    (f : Entitlement → Entitlement) where
  update_row-ok :
      (rows : List Entitlement) {c : Entitlement}
      → IsKeyed rows
      → get_latest_entitlement_by_source source id rows ≡ some c
      → guard c ≡ true
      → (rows' : List Entitlement) × (update_row (λ r. eqb r.id c.id) guard f rows ≡ some rows')
  unfolding update_row get_latest_entitlement_by_source
  update_row-ok [] keyed h passes = cc
  update_row-ok (r ∷ rs) {c} (new, keyed) h passes = elim (latest-cons source id r rs h) [
    | inl (q, o, rest) ↦ (f r ∷ rs, rw (q, update_row) (rw (eqb_refl c.id, passes) refl))
    | inr (q, o) ↦ elim (Bool-cases (eqb r.id c.id)) [
      | inl k ↦
          let there = latest-any source id rs q in
          let absent : any (λ x. eqb x.id c.id) rs ≡ false = rw (eqb→eq r.id c.id k) at new in cc
      | inr k ↦
          let (zs, u) = update_row-ok rs keyed q passes in (r ∷ zs, rw (k, u, update_row) refl)
    ]
  ]

latest-none :
    (source : EntitlementSource) (id : Text) (rows : List Entitlement)
    → get_latest_entitlement_by_source source id rows ≡ none
    → any (of_source source id) rows ≡ false
unfolding get_latest_entitlement_by_source
latest-none source id [] h = refl
latest-none source id (r ∷ rs) h = elim (Bool-cases (of_source source id r)) [
  | inl e ↦ let h' = rw (e, get_latest_entitlement_by_source) at h in cc
  | inr e ↦
      let h' = rw (e, get_latest_entitlement_by_source) at h in rw e (latest-none source id rs h')
]

abbrev is_current : Option (Text × Bool) → Bool
is_current none = false
is_current (some (id, gone)) = not gone

-- The policy version of a target is there and not retired.
abbrev pub is_grantable : List (Text × Bool) → Option BenefitTarget → Bool
is_grantable policies none = true
is_grantable policies (some want) =
    is_current (find_where (λ (id, gone). eqb id want.policy_version_id) policies)

-- A row that is there needs no policy version any more.
abbrev pub can_grant : List (Text × Bool) → Option Entitlement → Option BenefitTarget → Bool
can_grant policies none target = is_grantable policies target
can_grant policies (some c) target = true

found_policy :
    (policies : List (Text × Bool)) (policy : Text)
    → is_current (find_where (λ (id, gone). eqb id policy) policies) ≡ true
    → (p : Text) × (find_where (λ (id, gone). eqb id policy) policies ≡ some (p, false))
found_policy policies policy h = go (find_where (λ (id, gone). eqb id policy) policies) h
  where
    go : (o : Option (Text × Bool)) → is_current o ≡ true → (p : Text) × (o ≡ some (p, false))
    go none h = cc
    go (some (p, true)) h = cc
    go (some (p, false)) h = (p, refl)

-- A row of another source does not have the key of a new row of this one.
key_other :
    (source : EntitlementSource) (id : Text) (e r : Entitlement)
    → source_eqb e.source_type source && eqb e.source_id id ≡ true
    → of_source source id r ≡ false
    → same_key e r ≡ false
key_other source id e r own other =
    let rank : source_rank e.source_type ≡ source_rank source = ground (arith, own) in
    let named : e.source_id ≡ id = eqb→eq e.source_id id (ground (arith, own)) in
    let other' : (source_rank r.source_type == source_rank source) && eqb r.source_id id ≡ false =
      other in
    rw (rank, named) (ground (arith, other'))

any_clash :
    (source : EntitlementSource) (id fresh : Text) (e : Entitlement) (rows : List Entitlement)
    → source_eqb e.source_type source && eqb e.source_id id ≡ true
    → any (of_source source id) rows ≡ false
    → any (λ r. eqb r.id fresh) rows ≡ false
    → any (λ r. eqb r.id fresh || same_key e r) rows ≡ false
any_clash source id fresh e [] own others new = refl
any_clash source id fresh e (r ∷ rs) own others new = elim (Bool-cases (of_source source id r)) [
  | inl o ↦ let others' = rw o at others in cc
  | inr o ↦ elim (Bool-cases (eqb r.id fresh)) [
    | inl k ↦ let new' = rw k at new in cc
    | inr k ↦
        rw (k, key_other source id e r own o)
          (any_clash source id fresh e rs own (rw o at others) (rw k at new))
  ]
]

single_applied :
    (policies : List (Text × Bool)) (account fresh : Text) (t : Time) (p : SourcePlan)
    (rows : List Entitlement) {rows' : List Entitlement}
    → apply_plan policies account fresh t p rows ≡ applied rows'
    → apply_plans policies account fresh t (p ∷ []) rows ≡ applied rows'
unfolding apply_plans
single_applied policies account fresh t p rows h = rw (h, apply_plans) refl

module _ (policies : List (Text × Bool)) (account fresh : Text) (t : Time)
    (source : EntitlementSource) (id : Text) (d : SyncDecision) (rows : List Entitlement)
    (keyed : IsKeyed rows) where
  -- The action on a row that was read is accepted.
  pub action-applied :
      (c : Entitlement) (a : ConvergeAction)
      → get_latest_entitlement_by_source source id rows ≡ some c
      → Reaches d (some c) a
      → (rows' : List Entitlement) × (apply_plans policies account fresh t
            (plans_of (some c) a)
            rows
          ≡ applied rows')
  unfolding apply_plans apply_plan revise_entitlement revive_entitlement retire_entitlement
  action-applied c noop latest settled = (rows, refl)
  action-applied c (insert p anchor from to) latest (absent, rest) = cc
  action-applied c (revise p) latest (c', same, guard, settled) =
      let q : c ≡ c' = cc in
      let (rows', u) =
        update_row-ok source id (revisable p) (patched p) rows keyed latest
          (subst (λ x. revisable p x ≡ true) (sym q) guard) in
      (
        rows',
        single_applied policies account fresh t
            (record { entitlement_id = c.id; action = revise p }) rows (rw (u, apply_plan) refl),
      )
  action-applied c (revive p) latest (c', same, guard, settled) =
      let q : c ≡ c' = cc in
      let (rows', u) =
        update_row-ok source id (revivable p) (revived p) rows keyed latest
          (subst (λ x. revivable p x ≡ true) (sym q) guard) in
      (
        rows',
        single_applied policies account fresh t
            (record { entitlement_id = c.id; action = revive p }) rows (rw (u, apply_plan) refl),
      )
  action-applied c (retire n to) latest (c', same, guard, gone, settled) =
      let q : c ≡ c' = cc in
      let (rows', u) =
        update_row-ok source id (retirable n) (retired to) rows keyed latest
          (subst (λ x. retirable n x ≡ true) (sym q) guard) in
      (
        rows',
        single_applied policies account fresh t
            (record { entitlement_id = c.id; action = retire n to }) rows
            (rw (gone, u, apply_plan) refl),
      )

  -- The insertion of a target is accepted.
  pub insert-applied :
      (want : BenefitTarget) (at : Time)
      → get_latest_entitlement_by_source source id rows ≡ none
      → IsTarget want
      → source_eqb want.source_type source && eqb want.source_id id ≡ true
      → unexpired want.effective_to at ≡ true
      → is_grantable policies (some want) ≡ true
      → any (λ r. eqb r.id fresh) rows ≡ false
      → (rows' : List Entitlement) × (apply_plans policies account fresh t
            (plans_of none (insert (plan_of want) at at want.effective_to))
            rows
          ≡ applied rows')
  unfolding apply_plans apply_plan insert_entitlement insert_row_of entitlement_of
  insert-applied want at absent goal own live grantable new =
      let e = record (entitlement_of (plan_of want) at at want.effective_to) {
        billing_account_id = account;
      } in
      let clear = any_clash source id fresh e rows own (latest-none source id rows absent) new in
      let (p, found) = found_policy policies want.policy_version_id grantable in
      (
        record e { id = fresh; created_at = t } ∷ rows,
        single_applied policies account fresh t
            (record { entitlement_id = []; action = insert (plan_of want) at at want.effective_to })
            rows (rw (granted want at goal live, found, clear, apply_plan) refl),
      )
