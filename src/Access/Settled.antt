-- ===== src/Access/Settled.antt =====
-- internal/inference/access/benefit_grant.go over the statements of entitlement_repo.go: the rows that need no
-- further convergence.
use mathlib.Core.Path.{subst}
use yunhou_users.Common.{
  ◌≡◌, refl, sym, inl, inr, Bool, true, false, ◌||◌, Option, none, some, [], eqb, eqb→eq, ==_refl,
  Bool-cases,
}
use yunhou_users.Domain.Errors.{Time, ok, ok_injective}
use yunhou_users.Access.{
  Text, EntitlementStatus, Entitlement, is_active, grant_from_plan, entitlement_allows, has_text,
}
use yunhou_users.Access.Models.{equal_model_sets-has_text}
use yunhou_users.Access.Rows.{
  is_retired, patched, revived, retired, revisable, revivable, retirable,
}
use yunhou_users.Access.Decision.{BenefitTarget, SyncDecision}
use yunhou_users.Access.Sync.{
  same_effective_to, converge_to, converge, ConvergeAction, noop, insert, revise, revive, retire,
  retire_status,
}
use yunhou_users.Access.Patched.{IsAsWanted, patch_of-empty}

-- Without a target no row is active; otherwise the row is active and has the policy version, the end and the
-- models of the target.
abbrev pub IsFulfilled : Option BenefitTarget → Option Entitlement → Type 0
IsFulfilled none none = Unit
IsFulfilled none (some c) = is_active c.status ≡ false
IsFulfilled (some want) none = false ≡ true
IsFulfilled (some want) (some c) =
    (is_active c.status ≡ true)
    × (c.policy_version_id ≡ want.policy_version_id)
    × (same_effective_to want.effective_to c.effective_to ≡ true)
    × ((model : Text) → entitlement_allows c model ≡ has_text model want.model_ids)

-- The target is fulfilled, and no later convergence to the same decision does anything.
abbrev pub IsSettled : SyncDecision → Option Entitlement → Type 0
IsSettled d o = IsFulfilled d.target o × ((at : Time) → converge o d at ≡ ok noop)

pub wanted-IsSettled :
    (d : SyncDecision) (want : BenefitTarget) (c : Entitlement)
    → d.target ≡ some want
    → eqb want.policy_version_id [] ≡ false
    → is_active c.status ≡ true
    → IsAsWanted want c
    → IsSettled d (some c)
unfolding converge converge_to entitlement_allows
wanted-IsSettled d want c t policy live (named, models, end) =
    let (p, patch, empty) = patch_of-empty want c (named, models, end) in
    (
      rw t (
        live,
        sym (eqb→eq want.policy_version_id c.policy_version_id named),
        end,
        λ model. sym (equal_model_sets-has_text want.model_ids c.model_ids models model),
      ),
      λ at. rw (t, policy, patch, live, empty) refl,
    )

abbrev pub target_end : Option BenefitTarget → Option Time
target_end none = none
target_end (some want) = want.effective_to

-- No row, or one that is not superseded.
abbrev pub is_syncable : Option Entitlement → Bool
is_syncable none = true
is_syncable (some c) = is_active c.status || is_retired c.status

-- What an action leads to: its guard passes on the row that was read, or the grant is valid, and the row that
-- it leaves is settled. Whether the store takes a valid grant is another matter: it asks for its policy version.
abbrev pub Reaches : SyncDecision → Option Entitlement → ConvergeAction → Type 0
Reaches d current noop = IsSettled d current
Reaches d current (insert plan anchor from to) =
    (current ≡ none)
    × ((e : Entitlement) × (grant_from_plan plan anchor from to ≡ ok e) × IsSettled d (some e))
Reaches d current (revise p) =
    (c : Entitlement) × (current ≡ some c)
    × (revisable p c ≡ true)
    × IsSettled d (some (patched p c))
Reaches d current (revive p) =
    (c : Entitlement) × (current ≡ some c)
    × (revivable p c ≡ true)
    × IsSettled d (some (revived p c))
Reaches d current (retire expected to) =
    (c : Entitlement) × (current ≡ some c)
    × (retirable expected c ≡ true)
    × (is_active to ≡ false)
    × IsSettled d (some (retired to c))

retire_status-inactive : (s : Option EntitlementStatus) → is_active (retire_status s) ≡ false
retire_status-inactive none = refl
retire_status-inactive (some EntitlementStatus.active) = refl
retire_status-inactive (some EntitlementStatus.expired) = refl
retire_status-inactive (some EntitlementStatus.revoked) = refl
retire_status-inactive (some EntitlementStatus.superseded) = refl

pub no_target-Reaches :
    (d : SyncDecision) (current : Option Entitlement) (at : Time) {a : ConvergeAction}
    → d.target ≡ none
    → converge current d at ≡ ok a
    → Reaches d current a
unfolding converge retirable retired
no_target-Reaches d none at t h =
    let h' = rw (t, converge) at h in
    subst (Reaches d none) (ok_injective h') (rw t tt, λ later. rw (t, converge) refl)
no_target-Reaches d (some c) at t h = elim (Bool-cases (is_active c.status)) [
  | inl e ↦
      let h' = rw (t, e, converge) at h in
      let gone = retire_status-inactive d.retire_as in
      subst (Reaches d (some c)) (ok_injective h') (
        c,
        refl,
        rw (==_refl c.revision) e,
        gone,
        (rw t gone, λ later. rw (t, gone, converge) refl),
      )
  | inr e ↦
      let h' = rw (t, e, converge) at h in
      subst (Reaches d (some c)) (ok_injective h') (rw t e, λ later. rw (t, e, converge) refl)
]
