-- ===== src/Quota/Policy/Admission.antt =====
-- internal/inference/quota/policy.go: a hold is admitted exactly when every enabled window can carry it,
-- and a refusal names all the windows that cannot.
use yunhou_users.Common.{
  ◌≡◌, ◌≢◌, ◌↔◌, ◌⊎◌, inl, inr, refl, sym, ◌∙◌, ap, Bool, false, Option, none, some, Option-cases,
  List, [], ◌∷◌, map, keep, All, ℤ, pos, ◌≤ℤ◌, ltb_ℤ, arith, if◌then◌else◌,
}
use yunhou_users.Domain.Errors.{
  Time, WindowKind, WindowBlock, quota_exceeded_error, Result, ok, err, ◌>>=◌, >>=-eq-ok,
  ok_injective, Result-cases,
}
use yunhou_users.Domain.Usage.{QuotaWindow, available}
use yunhou_users.Quota.Window.{find_window}
use yunhou_users.Quota.Policy.{
  Policy, enabled_windows, blocks_from, evaluate_admission, add_block, refuse_blocked,
}

-- The window that the kind resolves to can carry the hold.
abbrev pub Carries : List QuotaWindow → ℤ → Time → WindowKind → Type 0
Carries windows hold t kind =
    (w : QuotaWindow) × (find_window windows kind t ≡ some w) × (hold ≤ℤ available w)

blocks_from_empty :
    (p : Policy) (windows : List QuotaWindow) (hold : ℤ) (t : Time) (kinds : List WindowKind)
    → blocks_from p windows hold t kinds ≡ ok []
    → All (Carries windows hold t) kinds
unfolding blocks_from
blocks_from_empty p windows hold t [] h = tt
blocks_from_empty p windows hold t (k ∷ ks) h = elim (Option-cases (find_window windows k t)) [
  | inl e ↦ ground (arith, e)
  | inr (w, e) ↦
      let (bs, r, q) =
        >>=-eq-ok (blocks_from p windows hold t ks) (λ bs. ok (add_block p hold k w bs))
          (rw e at h) in
      let none_left : bs ≡ [] = ground arith in
      ((w, e, ground arith), blocks_from_empty p windows hold t ks (r ∙ ap ok none_left))
]

blocks_from_carried :
    (p : Policy) (windows : List QuotaWindow) (hold : ℤ) (t : Time) (kinds : List WindowKind)
    → All (Carries windows hold t) kinds
    → blocks_from p windows hold t kinds ≡ ok []
unfolding blocks_from
blocks_from_carried p windows hold t [] h = refl
blocks_from_carried p windows hold t (k ∷ ks) ((w, e, c), h) =
    rw (e, blocks_from_carried p windows hold t ks h) (ground arith)

none_blocked : (r : Result (List WindowBlock)) → (r >>= refuse_blocked) ≡ ok tt → r ≡ ok []
none_blocked (ok []) h = refl
none_blocked (ok (b ∷ bs)) h = cc
none_blocked (err e) h = cc

-- A hold that is not negative is admitted exactly when every enabled window is resolved by a row in
-- force and has the hold available.
pub evaluate_admission_iff :
    (p : Policy) (windows : List QuotaWindow) (hold : ℤ) (t : Time)
    → pos 0 ≤ℤ hold
    → (evaluate_admission p windows hold t ≡ ok tt)
      ↔ All (Carries windows hold t) (enabled_windows p)
unfolding evaluate_admission
evaluate_admission_iff p windows hold t h =
    let kinds = enabled_windows p in
    let blocks = blocks_from p windows hold t kinds in
    let nonneg : ltb_ℤ hold (pos 0) ≡ false = ground arith in
    (
      λ e. blocks_from_empty p windows hold t kinds (none_blocked blocks (rw nonneg at e)),
      λ c. rw (nonneg, blocks_from_carried p windows hold t kinds c) refl,
    )

-- The window that the kind resolves to cannot carry the hold.
abbrev short_row : Option QuotaWindow → ℤ → Bool
short_row none hold = false
short_row (some w) hold = ltb_ℤ (available w) hold

abbrev pub falls_short : List QuotaWindow → ℤ → Time → WindowKind → Bool
falls_short windows hold t kind = short_row (find_window windows kind t) hold

abbrev pub kind_of : WindowBlock → WindowKind
kind_of b = b.kind

add_block_kinds :
    (p : Policy) (hold : ℤ) (k : WindowKind) (w : QuotaWindow) (bs : List WindowBlock)
    → map kind_of (add_block p hold k w bs)
      ≡ (if ltb_ℤ (available w) hold then k ∷ map kind_of bs else map kind_of bs)
add_block_kinds p hold k w bs = ground arith

blocks_from_kinds :
    (p : Policy) (windows : List QuotaWindow) (hold : ℤ) (t : Time) (kinds : List WindowKind)
    {bs : List WindowBlock}
    → blocks_from p windows hold t kinds ≡ ok bs
    → map kind_of bs ≡ keep (falls_short windows hold t) kinds
unfolding blocks_from
blocks_from_kinds p windows hold t [] h = ground arith
blocks_from_kinds p windows hold t (k ∷ ks) h = elim (Option-cases (find_window windows k t)) [
  | inl e ↦ ground (arith, e)
  | inr (w, e) ↦
      let (bs, r, q) =
        >>=-eq-ok (blocks_from p windows hold t ks) (λ bs. ok (add_block p hold k w bs))
          (rw e at h) in
      let rest = blocks_from_kinds p windows hold t ks r in
      ap (map kind_of) (sym (ok_injective q)) ∙ add_block_kinds p hold k w bs ∙ rw (rest, e) refl
]

refusal :
    (r : Result (List WindowBlock)) {bs : List WindowBlock} {by_key : Bool}
    → (r >>= refuse_blocked) ≡ err (quota_exceeded_error bs by_key)
    → (r ≡ err (quota_exceeded_error bs by_key)) ⊎ ((r ≡ ok bs) × (bs ≢ []) × (by_key ≡ false))
refusal (ok []) h = cc
refusal (ok (b ∷ bs)) h = inr (ground arith, λ e. ground (arith, e, h), ground arith)
refusal (err e) h = inl (ground arith)

blocks_from_errors :
    (p : Policy) (windows : List QuotaWindow) (hold : ℤ) (t : Time) (kinds : List WindowKind)
    {bs : List WindowBlock} {by_key : Bool}
    → blocks_from p windows hold t kinds ≢ err (quota_exceeded_error bs by_key)
unfolding blocks_from
blocks_from_errors p windows hold t [] h = cc
blocks_from_errors p windows hold t (k ∷ ks) {bs} {by_key} h =
    elim (Option-cases (find_window windows k t)) [
      | inl e ↦ ground (arith, e)
      | inr (w, e) ↦ elim (Result-cases (blocks_from p windows hold t ks)) [
        | inl (rest, r) ↦ ground (arith, e, r)
        | inr (x, r) ↦
            blocks_from_errors p windows hold t ks {bs = bs} {by_key = by_key}
              (ground (arith, e, r))
      ]
    ]

-- A hold that is not negative and that the quota refuses is refused with all the enabled windows
-- that cannot carry it, in the fixed order, at least one of them; the Key budget is not blamed.
pub evaluate_admission_blocks :
    (p : Policy) (windows : List QuotaWindow) (hold : ℤ) (t : Time) {bs : List WindowBlock}
    {by_key : Bool}
    → pos 0 ≤ℤ hold
    → evaluate_admission p windows hold t ≡ err (quota_exceeded_error bs by_key)
    → (map kind_of bs ≡ keep (falls_short windows hold t) (enabled_windows p))
      × (bs ≢ [])
      × (by_key ≡ false)
unfolding evaluate_admission
evaluate_admission_blocks p windows hold t {bs} {by_key} h e =
    let kinds = enabled_windows p in
    let nonneg : ltb_ℤ hold (pos 0) ≡ false = ground arith in
    elim (refusal (blocks_from p windows hold t kinds) (rw nonneg at e)) [
      | inl x ↦ absurd (blocks_from_errors p windows hold t kinds x)
      | inr (r, some_block, key) ↦ (blocks_from_kinds p windows hold t kinds r, some_block, key)
    ]
