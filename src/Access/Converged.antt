-- ===== src/Access/Converged.antt =====
-- internal/inference/access/benefit_grant.go over the statements of entitlement_repo.go: the actions of
-- `Converge` reach the target.
use mathlib.Core.Path.{subst}
use yunhou_users.Common.{
  arith, ℕ, ◌≡◌, refl, sym, inl, inr, Bool, true, false, ◌||◌, Option, none, some, [], eqb,
  eqb_refl, ltb, ==_refl, if◌then◌else◌, Bool-cases, Option-cases,
}
use yunhou_users.Domain.Errors.{Time, ok, >>=-eq-ok, ok_injective}
use yunhou_users.Access.{
  dedupe_models, Entitlement, EntitlementPatch, is_active, entitlement_of, grant_from_plan,
  is_zero_time, ends_by,
}
use yunhou_users.Access.Models.{equal_model_sets_refl}
use yunhou_users.Access.Rows.{is_retired, patched, revived, revisable, revivable}
use yunhou_users.Access.Activation.{unexpired}
use yunhou_users.Access.Decision.{BenefitTarget, SyncDecision}
use yunhou_users.Access.Sync.{
  plan_of, same_effective_to, patch_with, patch_of, is_empty_patch, converge_to, converge,
  ConvergeAction, noop, revise, revive,
}
use yunhou_users.Access.Patched.{
  IsAsWanted, same_effective_to_refl, end_after, patch_with-IsAsWanted, patch_of-with,
  empty-IsAsWanted, patch_with-revision,
}
use yunhou_users.Access.Goal.{IsTarget, IsGoal}
use yunhou_users.Access.Settled.{
  wanted-IsSettled, target_end, is_syncable, Reaches, no_target-Reaches,
}

-- The grant of a target is valid, and as wanted.
unexpired-ends_by : (to : Option Time) (at : Time) → unexpired to at ≡ true → ends_by to at ≡ false
unexpired-ends_by none at live = refl
unexpired-ends_by (some to) at live = rw live refl

ltb_irrefl : (a : ℕ) → ltb a a ≡ false
ltb_irrefl a = ground arith

zero_anchor : (at : Time) → (if is_zero_time at then at else at) ≡ at
zero_anchor at = elim (Bool-cases (is_zero_time at)) [ inl e ↦ rw e refl | inr e ↦ rw e refl ]

pub granted :
    (want : BenefitTarget) (at : Time)
    → IsTarget want
    → unexpired want.effective_to at ≡ true
    → grant_from_plan (plan_of want) at at want.effective_to
      ≡ ok (entitlement_of (plan_of want) at at want.effective_to)
unfolding grant_from_plan
granted want at (policy, deduped, known, source) live =
    let open_end = unexpired-ends_by want.effective_to at live in
    rw (known, source, policy, zero_anchor at, ltb_irrefl at, open_end) refl

pub entitlement_of-IsAsWanted :
    (want : BenefitTarget) (at : Time)
    → dedupe_models want.model_ids ≡ want.model_ids
    → IsAsWanted want (entitlement_of (plan_of want) at at want.effective_to)
unfolding entitlement_of
entitlement_of-IsAsWanted want at deduped = (
  eqb_refl want.policy_version_id,
  rw deduped (equal_model_sets_refl want.model_ids),
  same_effective_to_refl want.effective_to,
)

absent-Reaches :
    (d : SyncDecision) (want : BenefitTarget) (at : Time) {a : ConvergeAction}
    → d.target ≡ some want
    → IsTarget want
    → unexpired want.effective_to at ≡ true
    → converge none d at ≡ ok a
    → Reaches d none a
unfolding converge converge_to entitlement_of
absent-Reaches d want at t (policy, deduped, known, source) live h =
    let h' = rw (t, policy, converge) at h in
    let valid = granted want at (policy, deduped, known, source) live in
    let wanted = entitlement_of-IsAsWanted want at deduped in
    subst (Reaches d none) (ok_injective h')
      (refl, (_, valid, wanted-IsSettled d want _ t policy refl wanted))

abbrev pub action_of : Entitlement → EntitlementPatch → ConvergeAction
action_of c p =
    if is_active c.status then (if is_empty_patch p then noop else revise p) else revive p

action_of-Reaches :
    (d : SyncDecision) (want : BenefitTarget) (c : Entitlement) (end : Bool × Option Time)
    (p : EntitlementPatch)
    → d.target ≡ some want
    → IsTarget want
    → is_active c.status || is_retired c.status ≡ true
    → same_effective_to want.effective_to (end_after end c.effective_to) ≡ true
    → patch_with want c end ≡ p
    → Reaches d (some c) (action_of c p)
unfolding revisable revivable patched revived
action_of-Reaches d want c end p t (policy, deduped, known, source) status same_end p_is =
    let wanted =
      subst (λ q. IsAsWanted want (patched q c)) p_is
        (patch_with-IsAsWanted want c end deduped same_end) in
    let expected = patch_with-revision want c end p p_is in
    elim (Bool-cases (is_active c.status)) [
      | inl live ↦ elim (Bool-cases (is_empty_patch p)) [
        | inl empty ↦
            let as_is =
              empty-IsAsWanted want c end same_end
                (subst (λ q. is_empty_patch q ≡ true) (sym p_is) empty) in
            rw (live, empty) (wanted-IsSettled d want c t policy live as_is)
        | inr more ↦
            rw (live, more)
              (
                c,
                refl,
                rw (expected, ==_refl c.revision) live,
                wanted-IsSettled d want (patched p c) t policy live wanted,
              )
      ]
      | inr dead ↦ rw dead (
        c,
        refl,
        rw (expected, ==_refl c.revision) (rw dead at status),
        wanted-IsSettled d want (revived p c) t policy refl wanted,
      )
    ]

-- What the convergence of a row to a target returns.
converge-some :
    (d : SyncDecision) (want : BenefitTarget) (c : Entitlement) (at : Time) {a : ConvergeAction}
    → d.target ≡ some want
    → converge (some c) d at ≡ ok a
    → (p : EntitlementPatch) × (patch_of want c ≡ ok p) × (action_of c p ≡ a)
unfolding converge converge_to
converge-some d want c at t h = elim (Bool-cases (eqb want.policy_version_id [])) [
  | inl e ↦ let h' = rw (t, e, converge) at h in cc
  | inr e ↦
      let h' = rw (t, e, converge) at h in
      let (p, patch, last) = >>=-eq-ok (patch_of want c) _ h' in (p, patch, ok_injective last)
]

present-Reaches :
    (d : SyncDecision) (want : BenefitTarget) (c : Entitlement) (at : Time) {a : ConvergeAction}
    → d.target ≡ some want
    → IsTarget want
    → is_active c.status || is_retired c.status ≡ true
    → converge (some c) d at ≡ ok a
    → Reaches d (some c) a
present-Reaches d want c at t goal status h =
    let (p, patch, same) = converge-some d want c at t h in
    let (end, same_end, p_is) = patch_of-with want c p patch in
    subst (Reaches d (some c)) same (action_of-Reaches d want c end p t goal status same_end p_is)

pub goal-Reaches :
    (d : SyncDecision) (current : Option Entitlement) (at : Time) (a : ConvergeAction)
    → IsGoal d.target
    → unexpired (target_end d.target) at ≡ true
    → is_syncable current ≡ true
    → converge current d at ≡ ok a
    → Reaches d current a
goal-Reaches d current at a goal live status converges = elim (Option-cases d.target) [
  | inl n ↦ no_target-Reaches d current at n converges
  | inr (want, t) ↦ reaches want t (rw t at goal) (rw t at live) current status converges
]
  where
    reaches :
        (want : BenefitTarget)
        → d.target ≡ some want
        → IsTarget want
        → unexpired want.effective_to at ≡ true
        → (o : Option Entitlement) → is_syncable o ≡ true
        → converge o d at ≡ ok a
        → Reaches d o a
    reaches want t goal live none status converges = absent-Reaches d want at t goal live converges
    reaches want t goal live (some c) status converges =
        present-Reaches d want c at t goal status converges
