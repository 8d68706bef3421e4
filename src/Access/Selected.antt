-- ===== src/Access/Selected.antt =====
-- internal/inference/access/entitlement.go: which entitlement `SelectEntitlement` chooses.
use mathlib.Core.Path.{subst}
use mathlib.Core.List.{Memᴰ}
use yunhou_users.Common.{
  ◌≡◌, refl, sym, ◌∙◌, ◌⊎◌, inl, inr, true, not, ◌&&◌, ◌||◌, none, some, List, [], ◌∷◌, keep, all,
  Bool-cases, Option-cases,
}
use yunhou_users.Domain.Errors.{Time, Code, code_of, Result, ok, err}
use yunhou_users.Store.Table.{find_where-true}
use yunhou_users.Access.{Text, Entitlement, entitlement_allows}
use yunhou_users.Access.Sorted.{
  all-keep, Mem-keep, Mem-find_where, find_where-none, all-sort_rows, sort_rows-IsSorted,
  Mem-sort_rows, find_where-first,
}
use yunhou_users.Access.Selection.{
  Class, explicit, gifts, payg, belongs, class_rows, created_before, sort_rows, grants_model,
  or_else, select_entitlement,
}

-- The one of a class that allows a model: no other of the class that allows it was created before.
abbrev IsFirst : List Entitlement → Text → Time → Class → Entitlement → Type 0
IsFirst ents model t c e =
    Memᴰ e ents
    × (belongs t c e ≡ true)
    × (entitlement_allows e model ≡ true)
    × (all (λ x. not (belongs t c x) || not (entitlement_allows x model && created_before x e)) ents
        ≡ true)

abbrev IsAbsent : List Entitlement → Time → Class → Type 0
IsAbsent ents t c = all (λ x. not (belongs t c x)) ents ≡ true

abbrev IsRefused : List Entitlement → Text → Time → Class → Type 0
IsRefused ents model t c =
    all (λ x. not (belongs t c x) || not (entitlement_allows x model)) ents ≡ true

-- Neither the explicit purchases, nor the gifts of an account without one, allow the model.
abbrev IsPoolRefused : List Entitlement → Text → Time → Type 0
IsPoolRefused ents model t =
    ((x : Entitlement) × Memᴰ x ents
      × (belongs t explicit x ≡ true)
      × IsRefused ents model t explicit)
    ⊎ (IsAbsent ents t explicit × IsRefused ents model t gifts)

abbrev pub IsSelection : List Entitlement → Text → Time → Result Entitlement → Type 0
IsSelection ents model t (ok e) =
    IsFirst ents model t explicit e
    ⊎ (IsAbsent ents t explicit × IsFirst ents model t gifts e)
    ⊎ (IsPoolRefused ents model t × IsFirst ents model t payg e)
IsSelection ents model t (err failure) =
    (code_of failure ≡ Code.model_not_allowed)
    × IsPoolRefused ents model t
    × IsRefused ents model t payg

grants_model-IsFirst :
    (ents : List Entitlement) (model : Text) (t : Time) (c : Class) {e : Entitlement}
    → grants_model (class_rows t c ents) model ≡ some e
    → IsFirst ents model t c e
unfolding grants_model class_rows
grants_model-IsFirst ents model t c {e} h =
    let allowing = λ (x : Entitlement). entitlement_allows x model in
    let pool = keep (belongs t c) ents in
    let (m, b) =
      Mem-keep (belongs t c) ents
        (Mem-sort_rows pool (Mem-find_where allowing (sort_rows pool) h)) in
    let p = λ (x : Entitlement). not (allowing x && created_before x e) in
    let early = find_where-first allowing (sort_rows pool) (sort_rows-IsSorted pool) h in
    (
      m,
      b,
      find_where-true allowing (sort_rows pool) h,
      sym (all-sort_rows p pool ∙ all-keep p (belongs t c) ents) ∙ early,
    )

grants_model-IsRefused :
    (ents : List Entitlement) (model : Text) (t : Time) (c : Class)
    → grants_model (class_rows t c ents) model ≡ none
    → IsRefused ents model t c
unfolding grants_model class_rows
grants_model-IsRefused ents model t c h =
    let allowing = λ (x : Entitlement). entitlement_allows x model in
    let pool = keep (belongs t c) ents in
    let p = λ (x : Entitlement). not (allowing x) in
    sym (all-sort_rows p pool ∙ all-keep p (belongs t c) ents)
    ∙ find_where-none allowing (sort_rows pool) h

class_rows-IsAbsent :
    (ents : List Entitlement) (t : Time) (c : Class) → class_rows t c ents ≡ [] → IsAbsent ents t c
unfolding class_rows
class_rows-IsAbsent [] t c h = refl
class_rows-IsAbsent (x ∷ xs) t c h = elim (Bool-cases (belongs t c x)) [
  | inl e ↦ let h' = rw (e, class_rows) at h in cc
  | inr e ↦ let h' = rw (e, class_rows) at h in rw e (class_rows-IsAbsent xs t c h')
]

Mem-class_rows :
    (ents : List Entitlement) (t : Time) (c : Class) {x : Entitlement} {xs : List Entitlement}
    → class_rows t c ents ≡ x ∷ xs
    → Memᴰ x ents × (belongs t c x ≡ true)
unfolding class_rows
Mem-class_rows ents t c {x} h =
    Mem-keep (belongs t c) ents (subst (λ rows. Memᴰ x rows) (sym h) (Memᴰ.head refl))

-- The pool is the explicit purchases, or the gifts where there is none.
or_else-cases :
    (ents : List Entitlement) (t : Time)
    → let pool = or_else (class_rows t explicit ents) (class_rows t gifts ents) in
      ((x : Entitlement) × Memᴰ x ents
        × (belongs t explicit x ≡ true)
        × (pool ≡ class_rows t explicit ents))
      ⊎ (IsAbsent ents t explicit × (pool ≡ class_rows t gifts ents))
or_else-cases ents t = split (class_rows t explicit ents) refl
  where
    split :
        (rows : List Entitlement)
        → class_rows t explicit ents ≡ rows
        → ((x : Entitlement) × Memᴰ x ents
            × (belongs t explicit x ≡ true)
            × (or_else (class_rows t explicit ents) (class_rows t gifts ents)
                ≡ class_rows t explicit ents))
          ⊎ (IsAbsent ents t explicit
              × (or_else (class_rows t explicit ents) (class_rows t gifts ents)
                  ≡ class_rows t gifts ents))
    split [] e = inr (class_rows-IsAbsent ents t explicit e, rw e refl)
    split (x ∷ xs) e = let (m, b) = Mem-class_rows ents t explicit e in inl (x, m, b, rw e refl)

pool-IsSelection :
    (ents : List Entitlement) (model : Text) (t : Time)
    → let pool = or_else (class_rows t explicit ents) (class_rows t gifts ents) in
      ((e : Entitlement) × (grants_model pool model ≡ some e)
        × (IsFirst ents model t explicit e
            ⊎ (IsAbsent ents t explicit × IsFirst ents model t gifts e)))
      ⊎ ((grants_model pool model ≡ none) × IsPoolRefused ents model t)
pool-IsSelection ents model t =
    elim (Option-cases
      (grants_model (or_else (class_rows t explicit ents) (class_rows t gifts ents)) model)) [
        | inl n ↦ inr (
          n,
          elim (or_else-cases ents t) [
            | inl (x, m, b, same) ↦
                inl (x, m, b, grants_model-IsRefused ents model t explicit (rw same at n))
            | inr (absent, same) ↦
                inr (absent, grants_model-IsRefused ents model t gifts (rw same at n))
          ],
        )
        | inr (e, s) ↦ inl (
          e,
          s,
          elim (or_else-cases ents t) [
            | inl (x, m, b, same) ↦ inl (grants_model-IsFirst ents model t explicit (rw same at s))
            | inr (absent, same) ↦
                inr (absent, grants_model-IsFirst ents model t gifts (rw same at s))
          ],
        )
      ]

-- The entitlement that governs a call is an active one of the account, inside its range, that allows the
-- model: the earliest such of the explicit purchases; or, where no explicit purchase is active at all, of the
-- gifts; or, where those refuse the model, of the pay-as-you-go records. The call is refused, as a model that is
-- not allowed, only where the explicit purchases, or without one the gifts, and the pay-as-you-go records all
-- refuse the model.
pub select_entitlement-IsSelection :
    (ents : List Entitlement) (model : Text) (t : Time)
    → IsSelection ents model t (select_entitlement ents model t)
unfolding select_entitlement code_of
select_entitlement-IsSelection ents model t = elim (pool-IsSelection ents model t) [
  | inl (e, s, first) ↦
      rw (s, select_entitlement) (elim first [ inl f ↦ inl f | inr f ↦ inr (inl f) ])
  | inr (n, refused) ↦ elim (Option-cases (grants_model (class_rows t payg ents) model)) [
    | inl m ↦
        rw (n, m, select_entitlement) (refl, refused, grants_model-IsRefused ents model t payg m)
    | inr (e, s) ↦
        rw (n, s, select_entitlement)
          (inr (inr (refused, grants_model-IsFirst ents model t payg s)))
  ]
]
