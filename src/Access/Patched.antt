-- ===== src/Access/Patched.antt =====
-- internal/inference/access/benefit_grant.go: the patch that `Converge` computes makes a row what the target asks
-- for.
use mathlib.Core.Path.{subst}
use yunhou_users.Common.{
  arith, ◌≡◌, refl, sym, ap, inl, inr, Bool, true, false, Option, none, some, eqb, eqb_refl, ltb,
  ==_refl, if◌then◌else◌, Bool-cases, Option-cases,
}
use yunhou_users.Domain.Errors.{Time, ok, >>=-eq-ok, ok_injective}
use yunhou_users.Access.{Entitlement, EntitlementPatch, dedupe_models, equal_model_sets}
use yunhou_users.Access.Models.{equal_model_sets_refl}
use yunhou_users.Access.Rows.{or_keep, patched}
use yunhou_users.Access.Decision.{BenefitTarget}
use yunhou_users.Access.Sync.{same_effective_to, patch_end, patch_with, patch_of, is_empty_patch}

-- A row has what a target asks for.
abbrev pub IsAsWanted : BenefitTarget → Entitlement → Type 0
IsAsWanted want c =
    (eqb want.policy_version_id c.policy_version_id ≡ true)
    × (equal_model_sets want.model_ids c.model_ids ≡ true)
    × (same_effective_to want.effective_to c.effective_to ≡ true)

pub same_effective_to_refl : (a : Option Time) → same_effective_to a a ≡ true
same_effective_to_refl none = refl
same_effective_to_refl (some a) = ==_refl a

-- The column of the end after a patch.
abbrev pub end_after : Bool × Option Time → Option Time → Option Time
end_after (clear, to) old = if clear then none else or_keep to old

patch_end-same :
    (wanted : Option Time) (c : Entitlement) (end : Bool × Option Time)
    → patch_end wanted c ≡ ok end
    → same_effective_to wanted (end_after end c.effective_to) ≡ true
unfolding patch_end
patch_end-same wanted c end h = elim (Bool-cases (same_effective_to wanted c.effective_to)) [
  | inl e ↦
      let h' = rw (e, patch_end) at h in
      subst (λ q. same_effective_to wanted (end_after q c.effective_to) ≡ true) (ok_injective h') e
  | inr e ↦ elim (Option-cases wanted) [
    | inl n ↦
        let h' = rw (e, n, patch_end) at h in
        rw n (
          subst (λ q. same_effective_to none (end_after q c.effective_to) ≡ true) (ok_injective h')
            refl)
    | inr (to, t) ↦ elim (Bool-cases (ltb c.effective_from to)) [
      | inl late ↦
          let h' = rw (e, t, late, patch_end) at h in
          rw t (
            subst (λ q. same_effective_to (some to) (end_after q c.effective_to) ≡ true)
              (ok_injective h') (==_refl to))
      | inr early ↦ let h' = rw (e, t, early, patch_end) at h in cc
    ]
  ]
]

pub patch_with-IsAsWanted :
    (want : BenefitTarget) (c : Entitlement) (end : Bool × Option Time)
    → dedupe_models want.model_ids ≡ want.model_ids
    → same_effective_to want.effective_to (end_after end c.effective_to) ≡ true
    → IsAsWanted want (patched (patch_with want c end) c)
unfolding patch_with patched
patch_with-IsAsWanted want c end deduped same = (policy, models, same)
  where
    policy : eqb want.policy_version_id (patched (patch_with want c end) c).policy_version_id ≡ true
    policy = elim (Bool-cases (eqb want.policy_version_id c.policy_version_id)) [
      | inl e ↦ rw (e, patched) e
      | inr e ↦ rw (e, patched) (eqb_refl want.policy_version_id)
    ]

    models : equal_model_sets want.model_ids (patched (patch_with want c end) c).model_ids ≡ true
    models = elim (Bool-cases (equal_model_sets want.model_ids c.model_ids)) [
      | inl e ↦ rw (e, patched) e
      | inr e ↦ rw (e, patched, deduped) (equal_model_sets_refl want.model_ids)
    ]

pub patch_of-with :
    (want : BenefitTarget) (c : Entitlement) (p : EntitlementPatch)
    → patch_of want c ≡ ok p
    → (end : Bool × Option Time) × (same_effective_to want.effective_to
          (end_after end c.effective_to)
        ≡ true)
      × (patch_with want c end ≡ p)
unfolding patch_of
patch_of-with want c p h =
    let (end, e, last) = >>=-eq-ok (patch_end want.effective_to c) _ h in
    (end, patch_end-same want.effective_to c end e, ok_injective last)

-- A row as wanted needs no patch.
pub patch_of-empty :
    (want : BenefitTarget) (c : Entitlement)
    → IsAsWanted want c
    → (p : EntitlementPatch) × (patch_of want c ≡ ok p) × (is_empty_patch p ≡ true)
unfolding patch_of patch_end patch_with
patch_of-empty want c (policy, models, end) =
    (patch_with want c (false, none), rw end refl, rw (policy, models) refl)

pub empty-IsAsWanted :
    (want : BenefitTarget) (c : Entitlement) (end : Bool × Option Time)
    → same_effective_to want.effective_to (end_after end c.effective_to) ≡ true
    → is_empty_patch (patch_with want c end) ≡ true
    → IsAsWanted want c
unfolding patch_with
empty-IsAsWanted want c (true, to) same empty = let h : false ≡ true = ground (arith, empty) in cc
empty-IsAsWanted want c (false, some to) same empty =
    let h : false ≡ true = ground (arith, empty) in cc
empty-IsAsWanted want c (false, none) same empty =
    elim (Bool-cases (eqb want.policy_version_id c.policy_version_id)) [
      | inr e ↦ let empty' = rw (e, patch_with) at empty in cc
      | inl e ↦ elim (Bool-cases (equal_model_sets want.model_ids c.model_ids)) [
        | inr q ↦ let empty' = rw (e, q, patch_with) at empty in cc
        | inl q ↦ (e, q, same)
      ]
    ]

pub patch_with-revision :
    (want : BenefitTarget) (c : Entitlement) (end : Bool × Option Time) (p : EntitlementPatch)
    → patch_with want c end ≡ p
    → p.expected_revision ≡ c.revision
unfolding patch_with
patch_with-revision want c (clear, to) p same = sym (ap EntitlementPatch.expected_revision same)
