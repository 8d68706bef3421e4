-- ===== src/Access/Latest.antt =====
-- internal/inference/postgres/entitlement_repo.go: the latest row of a source, after an update of it.
use mathlib.Core.Path.{subst}
use yunhou_users.Common.{
  arith, suc, ◌≡◌, refl, ap, ◌∙◌, ◌⊎◌, inl, inr, Bool, true, false, Option, none, some, List, [],
  ◌∷◌, eqb, eqb_refl, eqb→eq, Bool-cases,
}
use yunhou_users.Store.Table.{any, update_row, update_row-cons}
use yunhou_users.Access.{Text, EntitlementSource, Entitlement}
use yunhou_users.Access.Rows.{of_source, beats, newer, get_latest_entitlement_by_source}

-- The primary key: no two rows have the same identifier.
abbrev pub IsKeyed : List Entitlement → Type 0
IsKeyed [] = Unit
IsKeyed (r ∷ rs) = (any (λ x. eqb x.id r.id) rs ≡ false) × IsKeyed rs

newer-cases :
    (r c : Entitlement) (o : Option Entitlement)
    → newer r o ≡ c
    → ((r ≡ c) × ((o ≡ none) ⊎ ((s : Entitlement) × (o ≡ some s) × (beats r s ≡ false))))
      ⊎ ((o ≡ some c) × (beats r c ≡ true))
newer-cases r c none h = inl (h, inl refl)
newer-cases r c (some s) h = elim (Bool-cases (beats r s)) [
  | inl e ↦ let h' : s ≡ c = rw e at h in inr (ap some h', subst (λ x. beats r x ≡ true) h' e)
  | inr e ↦ let h' : r ≡ c = rw e at h in inl (h', inr (s, refl, e))
]

-- The first row is the latest, or it is not and the latest stands among the others.
pub latest-cons :
    (source : EntitlementSource) (id : Text) (r : Entitlement) (rs : List Entitlement)
    {c : Entitlement}
    → get_latest_entitlement_by_source source id (r ∷ rs) ≡ some c
    → ((r ≡ c)
        × (of_source source id r ≡ true)
        × ((get_latest_entitlement_by_source source id rs ≡ none)
            ⊎ ((s : Entitlement) × (get_latest_entitlement_by_source source id rs ≡ some s)
                × (beats r s ≡ false))))
      ⊎ ((get_latest_entitlement_by_source source id rs ≡ some c)
          × ((of_source source id r ≡ false)
              ⊎ ((of_source source id r ≡ true) × (beats r c ≡ true))))
unfolding get_latest_entitlement_by_source
latest-cons source id r rs {c} h = elim (Bool-cases (of_source source id r)) [
  | inr e ↦ let h' = rw (e, get_latest_entitlement_by_source) at h in inr (h', inl e)
  | inl e ↦
      let h' = rw (e, get_latest_entitlement_by_source) at h in
      let same : newer r (get_latest_entitlement_by_source source id rs) ≡ c = cc in
      elim (newer-cases r c (get_latest_entitlement_by_source source id rs) same) [
        | inl (q, rest) ↦ inl (q, e, rest)
        | inr (q, b) ↦ inr (q, inr (e, b))
      ]
]

pub latest-any :
    (source : EntitlementSource) (id : Text) (rows : List Entitlement) {c : Entitlement}
    → get_latest_entitlement_by_source source id rows ≡ some c
    → any (λ x. eqb x.id c.id) rows ≡ true
unfolding get_latest_entitlement_by_source
latest-any source id [] h = cc
latest-any source id (r ∷ rs) {c} h = elim (latest-cons source id r rs h) [
  | inl (q, o, rest) ↦ rw q (rw (eqb_refl c.id) refl)
  | inr (q, o) ↦ rw (latest-any source id rs q) (ground arith)
]

beats_bumped :
    (r' r s : Entitlement) → r'.revision ≡ suc r.revision → beats r s ≡ false → beats r' s ≡ false
beats_bumped r' r s more b = ground (arith, more, b)

bumped_beats :
    (r s s' : Entitlement) → s'.revision ≡ suc s.revision → beats r s ≡ true → beats r s' ≡ true
bumped_beats r s s' more b = ground (arith, more, b)

module _ (source : EntitlementSource) (id : Text) (guard : Entitlement → Bool)
    (f : Entitlement → Entitlement)
    (keeps : (r : Entitlement) → of_source source id (f r) ≡ of_source source id r)
    (bumps : (r : Entitlement) → (f r).revision ≡ suc r.revision) where
  -- The row that was the latest is the latest after an update of it.
  pub latest-update_row :
      (rows : List Entitlement) {rows' : List Entitlement} {c : Entitlement}
      → IsKeyed rows
      → get_latest_entitlement_by_source source id rows ≡ some c
      → update_row (λ r. eqb r.id c.id) guard f rows ≡ some rows'
      → get_latest_entitlement_by_source source id rows' ≡ some (f c)
  unfolding get_latest_entitlement_by_source update_row
  latest-update_row [] keyed h u = cc
  latest-update_row (r ∷ rs) {rows'} {c} (new, keyed) h u =
      elim (update_row-cons (λ r. eqb r.id c.id) guard f r rs u) [
        | inl (k, g, e) ↦ elim (latest-cons source id r rs h) [
          | inr (q, o) ↦
              let there = latest-any source id rs q in
              let absent : any (λ x. eqb x.id c.id) rs ≡ false = rw (eqb→eq r.id c.id k) at new in
              cc
          | inl (q, o, rest) ↦
              let own : of_source source id (f r) ≡ true = keeps r ∙ o in
              elim rest [
                | inl n ↦ rw (e, own, n) (ap (λ x. some (f x)) q)
                | inr (s, l, b) ↦
                    rw (e, own, l, beats_bumped (f r) r s (bumps r) b) (ap (λ x. some (f x)) q)
              ]
        ]
        | inr (zs, k, u', e) ↦ elim (latest-cons source id r rs h) [
          | inl (q, o, rest) ↦
              let k' : eqb c.id c.id ≡ false = rw q at k in let t = eqb_refl c.id in cc
          | inr (q, o) ↦
              let rest = latest-update_row rs keyed q u' in
              elim o [
                | inl other ↦ rw (e, other) rest
                | inr (own, b) ↦ rw (e, own, rest, bumped_beats r c (f c) (bumps c) b) refl
              ]
        ]
      ]
