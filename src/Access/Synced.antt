-- ===== src/Access/Synced.antt =====
-- internal/inference/workers/entitlement_sync.go: what a transaction of `applyPlans` makes of the plans that
-- `planSync` finds for a source.
use mathlib.Core.Path.{subst}
use yunhou_users.Common.{
  suc, ◌≡◌, refl, sym, ap, ◌∙◌, ◌⊎◌, inl, inr, Bool, true, false, ◌&&◌, Option, none, some, List,
  [], eqb, if◌then◌else◌, Bool-cases, Option-cases,
}
use yunhou_users.Domain.Errors.{
  Time, Code, new_error, fail_if, ok, >>=-eq-ok, >>-eq-ok, ok_injective,
}
use yunhou_users.Store.Table.{update_row, or_error-eq-ok}
use yunhou_users.Access.{Text, EntitlementSource, Entitlement, is_active, entitlement_of}
use yunhou_users.Access.Activation.{SubscriptionState, unexpired}
use yunhou_users.Access.Rows.{
  revisable, revivable, retirable, of_source, source_eqb, insert_entitlement, patched, revived,
  retired, revise_entitlement, revive_entitlement, retire_entitlement,
  get_latest_entitlement_by_source,
}
use yunhou_users.Access.Latest.{IsKeyed, latest-update_row}
use yunhou_users.Access.Decision.{OrderBenefitSnapshot, BenefitTarget, SyncDecision, decide_sync}
use yunhou_users.Access.Sync.{
  subscription_id, ConvergeAction, noop, insert, revise, revive, retire, converge, converge_to,
  plan_of, decision_for, plans_of, plan_source, applied, apply_plan, apply_plans, SourcePlan,
}
use yunhou_users.Access.Goal.{IsTarget, IsGoal, decide_sync-IsGoal}
use yunhou_users.Access.Settled.{
  IsSettled, Reaches, wanted-IsSettled, no_target-Reaches, is_syncable, target_end,
}
use yunhou_users.Access.Converged.{entitlement_of-IsAsWanted, goal-Reaches, granted}
use yunhou_users.Access.Commits.{
  of_update-applied, of_insert-applied, insert_entitlement-inserted, apply_plans-single,
}

-- One plan of a row that is there.
module _ (policies : List (Text × Bool)) (account fresh : Text) (t : Time)
    (source : EntitlementSource) (id : Text) (d : SyncDecision) (rows : List Entitlement)
    (keyed : IsKeyed rows) where
  updated-IsSettled :
      (guard : Entitlement → Bool) (f : Entitlement → Entitlement)
      → ((r : Entitlement) → of_source source id (f r) ≡ of_source source id r)
      → ((r : Entitlement) → (f r).revision ≡ suc r.revision)
      → (c c' : Entitlement) {rows' : List Entitlement}
      → get_latest_entitlement_by_source source id rows ≡ some c
      → some c ≡ some c'
      → IsSettled d (some (f c'))
      → update_row (λ r. eqb r.id c.id) guard f rows ≡ some rows'
      → IsSettled d (get_latest_entitlement_by_source source id rows')
  updated-IsSettled guard f keeps bumps c c' latest same settled u =
      let q : c ≡ c' = cc in
      subst (IsSettled d)
        (sym (
          latest-update_row source id guard f keeps bumps rows keyed latest u
          ∙ ap (λ x. some (f x)) q))
        settled

  action-IsSettled :
      (c : Entitlement) (a : ConvergeAction) {rows' : List Entitlement}
      → get_latest_entitlement_by_source source id rows ≡ some c
      → Reaches d (some c) a
      → apply_plans policies account fresh t (plans_of (some c) a) rows ≡ applied rows'
      → IsSettled d (get_latest_entitlement_by_source source id rows')
  unfolding apply_plans apply_plan revise_entitlement revive_entitlement retire_entitlement patched
      revived retired
  action-IsSettled c noop {rows'} latest settled h =
      let same : rows ≡ rows' = cc in rw (sym same, latest) settled
  action-IsSettled c (insert p anchor from to) latest (absent, rest) h = cc
  action-IsSettled c (revise p) {rows'} latest (c', same, guard, settled) h =
      let u = of_update-applied _ (
        apply_plans-single policies account fresh t
          (record { entitlement_id = c.id; action = revise p }) rows h) in
      updated-IsSettled (revisable p) (patched p) (λ r. refl) (λ r. refl) c c' latest same settled
        (or_error-eq-ok _ (new_error Code.conflict) u)
  action-IsSettled c (revive p) {rows'} latest (c', same, guard, settled) h =
      let u = of_update-applied _ (
        apply_plans-single policies account fresh t
          (record { entitlement_id = c.id; action = revive p }) rows h) in
      updated-IsSettled (revivable p) (revived p) (λ r. refl) (λ r. refl) c c' latest same settled
        (or_error-eq-ok _ (new_error Code.conflict) u)
  action-IsSettled c (retire n to) {rows'} latest (c', same, guard, gone, settled) h =
      let u = of_update-applied _ (
        apply_plans-single policies account fresh t
          (record { entitlement_id = c.id; action = retire n to }) rows h) in
      let (_, u') = >>-eq-ok (fail_if (is_active to) (new_error Code.invalid_input)) _ u in
      updated-IsSettled (retirable n) (retired to) (λ r. refl) (λ r. refl) c c' latest same settled
        (or_error-eq-ok _ (new_error Code.conflict) u')

  insert-IsSettled :
      (want : BenefitTarget) (at : Time) {rows' : List Entitlement}
      → get_latest_entitlement_by_source source id rows ≡ none
      → d.target ≡ some want
      → IsTarget want
      → source_eqb want.source_type source && eqb want.source_id id ≡ true
      → unexpired want.effective_to at ≡ true
      → apply_plans policies account fresh t
          (plans_of none (insert (plan_of want) at at want.effective_to))
          rows
        ≡ applied rows'
      → IsSettled d (get_latest_entitlement_by_source source id rows')
  unfolding apply_plan entitlement_of get_latest_entitlement_by_source
  insert-IsSettled want at absent target (policy, deduped, known, named) own live h =
      let one =
        apply_plans-single policies account fresh t
          (record { entitlement_id = []; action = insert (plan_of want) at at want.effective_to })
          rows h in
      let e = entitlement_of (plan_of want) at at want.effective_to in
      let one' = rw (granted want at (policy, deduped, known, named) live, apply_plan) at one in
      let rows_are =
        insert_entitlement-inserted policies fresh t (record e { billing_account_id = account })
          rows
          (of_insert-applied
            (insert_entitlement policies fresh t (record e { billing_account_id = account }) rows)
            one') in
      rw (rows_are, get_latest_entitlement_by_source, own, absent)
        (wanted-IsSettled d want
          (record e { billing_account_id = account; id = fresh; created_at = t }) target policy refl
          (entitlement_of-IsAsWanted want at deduped))

-- The decision for a source has no target, or it is the decision itself and its target is of the source.
pub decision_for-cases :
    (source : EntitlementSource) (id : Text) (d : SyncDecision)
    → ((decision_for source id d).target ≡ none)
      ⊎ ((want : BenefitTarget) × (d.target ≡ some want)
          × (source_eqb want.source_type source && eqb want.source_id id ≡ true)
          × (decision_for source id d ≡ d))
decision_for-cases source id d = elim (Option-cases d.target) [
  | inl n ↦ inl (rw (n, decision_for) n)
  | inr (want, t) ↦
      elim (Bool-cases (source_eqb want.source_type source && eqb want.source_id id)) [
        | inl own ↦ inr (
          want,
          t,
          own,
          (let opened : decision_for source id d ≡ (
                  if source_eqb want.source_type source && eqb want.source_id id
                  then d
                  else record d { target = none }) =
                ap
                  (λ (o : Option BenefitTarget). elim o [
                    | none ↦ d
                    | some w ↦
                        if source_eqb w.source_type source && eqb w.source_id id
                        then d
                        else record d { target = none }
                  ])
                  t in
              opened ∙ ap (λ (b : Bool). if b then d else record d { target = none }) own),
        )
        | inr other ↦ inl (rw (t, other, decision_for) refl)
      ]
]

pub absent-converge :
    (d : SyncDecision) (at : Time) → d.target ≡ none → converge none d at ≡ ok noop
unfolding converge
absent-converge d at t = rw (t, converge) refl

pub wanted-converge :
    (d : SyncDecision) (want : BenefitTarget) (at : Time)
    → d.target ≡ some want
    → eqb want.policy_version_id [] ≡ false
    → converge none d at ≡ ok (insert (plan_of want) at at want.effective_to)
unfolding converge converge_to
wanted-converge d want at t policy = rw (t, policy, converge) refl

module _ (policies : List (Text × Bool)) (account fresh : Text) (t : Time)
    (source : EntitlementSource) (id : Text) (d : SyncDecision) (at : Time) (goal : IsGoal d.target)
    (live : unexpired (target_end d.target) at ≡ true) (rows : List Entitlement)
    (keyed : IsKeyed rows) where
  absent-IsSettled :
      (a : ConvergeAction) {rows' : List Entitlement}
      → get_latest_entitlement_by_source source id rows ≡ none
      → converge none (decision_for source id d) at ≡ ok a
      → apply_plans policies account fresh t (plans_of none a) rows ≡ applied rows'
      → IsSettled (decision_for source id d) (get_latest_entitlement_by_source source id rows')
  unfolding apply_plans
  absent-IsSettled a {rows'} absent converges h = elim (decision_for-cases source id d) [
    | inl n ↦
        let a_is =
          ok_injective (sym (absent-converge (decision_for source id d) at n) ∙ converges) in
        let h' =
          subst (λ b. apply_plans policies account fresh t (plans_of none b) rows ≡ applied rows')
            (sym a_is) h in
        let same : rows ≡ rows' = cc in
        rw (sym same, absent) (rw n tt, λ later. absent-converge (decision_for source id d) later n)
    | inr (want, target, own, whole) ↦
        let (policy, deduped, known, named) = rw target at goal in
        let live' = rw target at live in
        let conv = rw whole at converges in
        let a_is = ok_injective (sym (wanted-converge d want at target policy) ∙ conv) in
        let h' =
          subst (λ b. apply_plans policies account fresh t (plans_of none b) rows ≡ applied rows')
            (sym a_is) h in
        rw whole (
          insert-IsSettled policies account fresh t source id d rows keyed want at absent target
            (policy, deduped, known, named) own live' h')
  ]

  present-IsSettled :
      (c : Entitlement) (a : ConvergeAction) {rows' : List Entitlement}
      → get_latest_entitlement_by_source source id rows ≡ some c
      → is_syncable (some c) ≡ true
      → converge (some c) (decision_for source id d) at ≡ ok a
      → apply_plans policies account fresh t (plans_of (some c) a) rows ≡ applied rows'
      → IsSettled (decision_for source id d) (get_latest_entitlement_by_source source id rows')
  present-IsSettled c a latest status converges h =
      action-IsSettled policies account fresh t source id (decision_for source id d) rows keyed c a
        latest
        (elim (decision_for-cases source id d) [
          | inl n ↦ no_target-Reaches (decision_for source id d) (some c) at n converges
          | inr (want, target, own, whole) ↦
              rw whole (goal-Reaches d (some c) at a goal live status (rw whole at converges))
        ])
        h

-- One candidate of a sync, planned and applied on the same rows, is done. The identifiers of the rows are
-- distinct, the subscription or its hint has an identifier, the target of the decision has not ended at the
-- instant of the convergence, and the latest row of the source is absent or not superseded: once the transaction
-- of the plans is committed, the latest row of the source is as the decision for that source wants it, and a later
-- convergence of it to the same decision is a noop.
pub plan_source-apply_plans :
    (sub : Option SubscriptionState) (paid : Option OrderBenefitSnapshot) (now at t : Time)
    (hint : Text) (d : SyncDecision) (source : EntitlementSource) (id : Text)
    (policies : List (Text × Bool)) (account fresh : Text) (rows rows' : List Entitlement)
    (plans : List SourcePlan)
    → eqb (subscription_id sub hint) [] ≡ false
    → decide_sync sub paid now ≡ ok d
    → unexpired (target_end d.target) at ≡ true
    → IsKeyed rows
    → is_syncable (get_latest_entitlement_by_source source id rows) ≡ true
    → plan_source source id d at rows ≡ ok plans
    → apply_plans policies account fresh t plans rows ≡ applied rows'
    → IsSettled (decision_for source id d) (get_latest_entitlement_by_source source id rows')
unfolding plan_source
plan_source-apply_plans sub paid now at t hint d source id policies account fresh rows rows' plans
      some_id decided live keyed status planned h =
    let goal = decide_sync-IsGoal sub paid now hint some_id decided in
    let (a, converges, last) =
      >>=-eq-ok
        (converge (get_latest_entitlement_by_source source id rows) (decision_for source id d) at) _
        planned in
    let h' =
      subst (λ ps. apply_plans policies account fresh t ps rows ≡ applied rows')
        (sym (ok_injective last)) h in
    elim (Option-cases (get_latest_entitlement_by_source source id rows)) [
      | inl n ↦
          absent-IsSettled policies account fresh t source id d at goal live rows keyed a n
            (rw n at converges) (rw n at h')
      | inr (c, l) ↦
          present-IsSettled policies account fresh t source id d at goal live rows keyed c a l
            (rw l at status) (rw l at converges) (rw l at h')
    ]
